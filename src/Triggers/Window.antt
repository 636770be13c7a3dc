-- ===== src/Triggers/Window.antt =====
-- The rate cap as a sliding window: what it admits over a whole history of events.
use readyagents_core.Common.{
  ℕ, ◌≤◌, ◌<◌, ◌≡◌, refl, ◌∙◌, ap, Bool, List, [], ◌∷◌, ◌++◌, arith, leb, if◌then◌else◌, length,
  filter, length-append, length-filter-le, if_cases, All,
}
use readyagents_core.Triggers.Caps.{recent, admit}

module _ (limit window : ℕ) where
  -- Events of one trigger in the order of their arrival: which were admitted, and the arrivals that
  -- the limiter remembers at the end.
  unfoldable pub history : List ℕ → List ℕ → List ℕ → List ℕ × List ℕ
  history admitted hits [] = (admitted, hits)
  history admitted hits (now ∷ times) =
      let (allowed, kept) = admit limit window now hits in
      history (if allowed then admitted ++ now ∷ [] else admitted) kept times

  -- The arrivals do not go back in time, and come after `from`.
  abbrev pub Ordered : ℕ → List ℕ → Type 0
  Ordered from [] = Unit {0}
  Ordered from (t ∷ ts) = (from ≤ t) × Ordered t ts

  recent-append :
      (now : ℕ) (xs ys : List ℕ)
      → recent window now (xs ++ ys) ≡ recent window now xs ++ recent window now ys
  unfolding filter
  recent-append now [] ys = refl
  recent-append now (x ∷ xs) ys = ground (arith, recent-append now xs ys)

  -- What has left the window stays out of it.
  recent-recent :
      (now later : ℕ) (xs : List ℕ)
      → now ≤ later
      → recent window later (recent window now xs) ≡ recent window later xs
  unfolding filter
  recent-recent now later [] h = refl
  recent-recent now later (x ∷ xs) h = ground (arith, recent-recent now later xs h)

  -- The limiter remembers, of all that was admitted, what is recent; and that is no more than the
  -- limit.
  pub record Remembers (now : ℕ) (admitted hits : List ℕ) : Type 0 where
    pub same : (later : ℕ) → now ≤ later → recent window later hits ≡ recent window later admitted
    pub few : (later : ℕ) → now ≤ later → length (recent window later admitted) ≤ limit

  length-recent_later :
      (now later : ℕ) (xs : List ℕ)
      → now ≤ later
      → length (recent window later xs) ≤ length (recent window now xs)
  length-recent_later now later xs h =
      rw (← recent-recent now later xs h) (length-filter-le _ (recent window now xs))

  length-recent_one : (later now : ℕ) → length (recent window later (now ∷ [])) ≤ 1
  unfolding filter
  length-recent_one later now = ground arith

  refused-Remembers :
      (from now : ℕ) (admitted hits : List ℕ)
      → from ≤ now
      → Remembers from admitted hits
      → Remembers now admitted (recent window now hits)
  refused-Remembers from now admitted hits h r = record {
    same = λ later l. recent-recent now later hits l ∙ r.same later (omega arith);
    few = λ later l. r.few later (omega arith);
  }

  admitted-Remembers :
      (from now : ℕ) (admitted hits : List ℕ)
      → from ≤ now
      → length (recent window now hits) < limit
      → Remembers from admitted hits
      → Remembers now (admitted ++ now ∷ []) (recent window now hits ++ now ∷ [])
  admitted-Remembers from now admitted hits h room r = record {
    same = λ later l. rw (
      recent-append later (recent window now hits) (now ∷ []),
      recent-append later admitted (now ∷ []),
      recent-recent now later hits l,
      r.same later (omega arith),
    );
    few = λ later l.
        rw
          (
            recent-append later admitted (now ∷ []),
            length-append (recent window later admitted) (recent window later (now ∷ [])),
          )
          (omega (
            arith,
            length-recent_later now later admitted l,
            length-recent_one later now,
            ap (λ (xs : List ℕ). length xs) (r.same now h),
          ));
  }

  abbrev judged : Bool × List ℕ → ℕ → List ℕ → List ℕ
  judged r now admitted = if r.0 then admitted ++ now ∷ [] else admitted

  admit-Remembers :
      (from now : ℕ) (admitted hits : List ℕ)
      → from ≤ now
      → Remembers from admitted hits
      → Remembers now
          (judged (admit limit window now hits) now admitted)
          (admit limit window now hits).1
  unfolding admit
  admit-Remembers from now admitted hits h r =
      let Kept : Bool × List ℕ → Type 0 = λ u. Remembers now (judged u now admitted) u.1 in
      if_cases Kept (leb limit (length (recent window now hits)))
        (λ _. refused-Remembers from now admitted hits h r)
        (λ room. admitted-Remembers from now admitted hits h (ground arith) r)

  history-Remembers :
      (from : ℕ) (admitted hits times : List ℕ)
      → Ordered from times
      → Remembers from admitted hits
      → (later : ℕ) → All (λ t. t ≤ later) times
      → from ≤ later
      → length (recent window later (history admitted hits times).0) ≤ limit
  unfolding history
  history-Remembers from admitted hits [] o r later before l = r.few later l
  history-Remembers from admitted hits (now ∷ times) o r later before l =
      history-Remembers now _ _ times o.1 (admit-Remembers from now admitted hits o.0 r) later
        before.1 before.0

  -- Of the events of one trigger, however many arrive, at most `limit` are admitted in any window that
  -- ends at the last arrival or later, if the clock does not go back.
  pub history_within_limit :
      (times : List ℕ) (later : ℕ)
      → Ordered 0 times
      → All (λ t. t ≤ later) times
      → length (recent window later (history [] [] times).0) ≤ limit
  history_within_limit times later o before =
      history-Remembers 0 [] [] times o
        (record { same = λ l h. refl; few = λ l h. unfold filter in omega arith }) later before
        (omega arith)
