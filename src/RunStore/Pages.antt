-- ===== src/RunStore/Pages.antt =====
-- Reading the whole listing page by page.
use mathlib.Core.List.{append_assoc}
use readyagents_core.Common.{
  ℕ, zero, suc, ◌<◌, ◌≡◌, refl, sym, ◌∙◌, ap, subst, arith, String, false, Option, none, some, List,
  [], ◌∷◌, ◌++◌, str_eq, eq_iff, eq_refl, All, length,
}
use readyagents_core.RunStore.Files.{StoredRun, Store, Result, failed, done}
use readyagents_core.RunStore.Listing.{RunQuery, selected, list, after_id, from_cursor, given, take}

-- The records have an id each, and no id stands twice.
abbrev Differs : StoredRun → StoredRun → Type 0
Differs r x = str_eq x.entry.run_id r.entry.run_id ≡ false

abbrev pub HaveOwnIds : List StoredRun → Type 0
HaveOwnIds [] = Unit
HaveOwnIds (r ∷ rs) = (str_eq r.entry.run_id "" ≡ false) × All (Differs r) rs × HaveOwnIds rs

-- The id of the last record of a page, where the next one begins.
abbrev pub last_id : List StoredRun → Option String
last_id [] = none
last_id (r ∷ []) = some r.entry.run_id
last_id (r ∷ x ∷ rs) = last_id (x ∷ rs)

abbrev items : Result (List StoredRun) → List StoredRun
items (failed reason) = []
items (done rs) = rs

-- The pages from a cursor on, until one is empty. A page of a listing has `limit` records at most.
unfoldable pub walk : ℕ → RunQuery → Option String → Store → List StoredRun
walk zero q cursor s = []
walk (suc fuel) q cursor s =
    let page = items (list (record q { cursor = cursor }) s) in
    elim (last_id page) [ none ↦ [] | some id ↦ page ++ walk fuel q (some id) s ]

Differs-last :
    (x : StoredRun) (before after : List StoredRun) (r : StoredRun)
    → All (Differs x) (before ++ r ∷ after)
    → str_eq x.entry.run_id r.entry.run_id ≡ false
Differs-last x [] after r d =
    ground (arith, eq_iff x.entry.run_id r.entry.run_id, eq_iff r.entry.run_id x.entry.run_id)
Differs-last x (y ∷ before) after r d = Differs-last x before after r d.1

after_id-append :
    (before after : List StoredRun) (r : StoredRun)
    → HaveOwnIds (before ++ r ∷ after)
    → after_id r.entry.run_id (before ++ r ∷ after) ≡ some after
unfolding after_id
after_id-append [] after r own = rw (eq_refl r.entry.run_id)
after_id-append (x ∷ before) after r own =
    rw (Differs-last x before after r own.1) (after_id-append before after r own.2)

own_id :
    (before after : List StoredRun) (r : StoredRun)
    → HaveOwnIds (before ++ r ∷ after)
    → str_eq r.entry.run_id "" ≡ false
own_id [] after r own = own.0
own_id (x ∷ before) after r own = own_id before after r own.2

-- A page that is not empty is cut after some record.
record Cut (n : ℕ) (xs : List StoredRun) : Type 0 where
  head : List StoredRun
  last : StoredRun
  rest : List StoredRun
  taken : take (suc n) xs ≡ head ++ last ∷ []
  whole : xs ≡ head ++ last ∷ rest

cut : (n : ℕ) (x : StoredRun) (xs : List StoredRun) → Cut n (x ∷ xs)
cut zero x xs = record { head = []; last = x; rest = xs; taken = refl; whole = refl }
cut (suc n) x [] = record { head = []; last = x; rest = []; taken = refl; whole = refl }
cut (suc n) x (y ∷ ys) =
    let c = cut n y ys in
    record {
      head = x ∷ c.head;
      last = c.last;
      rest = c.rest;
      taken = ap (λ zs. x ∷ zs) c.taken;
      whole = ap (λ zs. x ∷ zs) c.whole;
    }

last_id-append :
    (xs : List StoredRun) (r : StoredRun) → last_id (xs ++ r ∷ []) ≡ some r.entry.run_id
last_id-append [] r = refl
last_id-append (x ∷ []) r = refl
last_id-append (x ∷ y ∷ xs) r = last_id-append (y ∷ xs) r

length-cut : (head rest : List StoredRun) (r : StoredRun) → length rest < length (head ++ r ∷ rest)
length-cut [] rest r = omega arith
length-cut (x ∷ head) rest r = omega (arith, length-cut head rest r)

module _ (q : RunQuery) (n : ℕ) (limit : q.limit ≡ suc n) (s : Store)
    (is_open : s.is_closed ≡ false) where
  page_from :
      (cursor : Option String) (rest : List StoredRun)
      → from_cursor cursor (selected q s) ≡ rest
      → items (list (record q { cursor = cursor }) s) ≡ take (suc n) rest
  unfolding list selected
  page_from cursor rest h = rw (is_open, limit) (ap (take (suc n)) h)

  -- The page after a record of the listing begins with the next one.
  from_cursor-last :
      (before after : List StoredRun) (r : StoredRun)
      → selected q s ≡ before ++ r ∷ after
      → HaveOwnIds (selected q s)
      → from_cursor (some r.entry.run_id) (selected q s) ≡ after
  from_cursor-last before after r h own =
      let own' = subst HaveOwnIds h own in
      rw (own_id before after r own', given, from_cursor, h, after_id-append before after r own')

  walk_from :
      (fuel : ℕ) (cursor : Option String) (before rest : List StoredRun)
      → selected q s ≡ before ++ rest
      → from_cursor cursor (selected q s) ≡ rest
      → HaveOwnIds (selected q s)
      → length rest < fuel
      → walk fuel q cursor s ≡ rest
  unfolding walk
  walk_from zero cursor before rest h from own enough = absurd (omega arith)
  walk_from (suc fuel) cursor before [] h from own enough = rw (page_from cursor [] from, walk)
  walk_from (suc fuel) cursor before (x ∷ xs) h from own enough =
      let c = cut n x xs in
      let split : selected q s ≡ (before ++ c.head) ++ c.last ∷ c.rest =
        h ∙ ap (λ zs. before ++ zs) c.whole ∙ sym (append_assoc before c.head (c.last ∷ c.rest)) in
      let shorter : length c.rest < length (x ∷ xs) =
        subst (λ zs. length c.rest < length zs) (sym c.whole) (length-cut c.head c.rest c.last) in
      let page = page_from cursor (x ∷ xs) from ∙ c.taken in
      let later =
        walk_from fuel (some c.last.entry.run_id) ((before ++ c.head) ++ c.last ∷ []) c.rest
          (split ∙ sym (append_assoc (before ++ c.head) (c.last ∷ []) c.rest))
          (from_cursor-last (before ++ c.head) c.rest c.last split own) own (omega arith) in
      rw (page, walk, last_id-append c.head c.last, later)
        (ap (λ p. p ++ c.rest) page ∙ append_assoc c.head (c.last ∷ []) c.rest ∙ sym c.whole)

from_none : (q : RunQuery) (s : Store) → from_cursor none (selected q s) ≡ selected q s
from_none q s = refl

-- Reading a listing page by page, with the id of the last record of a page as the cursor for the next,
-- gives every record of the listing exactly once and in its order, whatever the size of a page. The store
-- is open and not changed on the way, and no two records of the listing have one id.
pub walk-selected :
    (fuel n : ℕ) (q : RunQuery) (s : Store)
    → q.limit ≡ suc n
    → s.is_closed ≡ false
    → HaveOwnIds (selected q s)
    → length (selected q s) < fuel
    → walk fuel q none s ≡ selected q s
walk-selected fuel n q s limit is_open own enough =
    walk_from q n limit s is_open fuel none [] (selected q s) refl (from_none q s) own enough
