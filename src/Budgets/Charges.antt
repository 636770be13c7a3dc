-- ===== src/Budgets/Charges.antt =====
-- What a call is charged to.
use readyagents_core.Common.{
  subst, ℕ, ◌+◌, ◌≡◌, refl, ◌∙◌, String, false, Option, List, [], ◌∷◌, ◌++◌, ◌&&◌, not,
  if◌then◌else◌, str_eq, contains, Dict, get_or-insert, Bool-cases, inl, inr, ◌||◌, eq_iff, arith,
  if_cases,
}
use readyagents_core.Budgets.Tracker.{
  Budget, Used, Tracker, used_at, nothing_used, has_budget, add_key, add_keys, keys_for, charge,
  charge_keys, record_usage,
}

abbrev pub AreDistinct : List String → Type 0
AreDistinct [] = Unit
AreDistinct (key ∷ keys) = (contains key keys ≡ false) × AreDistinct keys

contains-snoc :
    (k key : String) (keys : List String)
    → contains k keys ≡ false
    → str_eq key k ≡ false
    → contains k (keys ++ key ∷ []) ≡ false
unfolding contains
contains-snoc k key [] h d = ground arith
contains-snoc k key (x ∷ xs) h d = ground (arith, contains-snoc k key xs)

AreDistinct-snoc :
    (key : String) (keys : List String)
    → contains key keys ≡ false
    → AreDistinct keys
    → AreDistinct (keys ++ key ∷ [])
unfolding contains
AreDistinct-snoc key [] h d = (refl, tt)
AreDistinct-snoc key (x ∷ xs) h d = (
  contains-snoc x key xs d.0 (ground (arith, eq_iff x key, eq_iff key x)),
  AreDistinct-snoc key xs (ground arith) d.1,
)

add_key-AreDistinct :
    (budgets : Dict Budget) (key : String) (found : List String)
    → AreDistinct found
    → AreDistinct (add_key budgets key found)
unfolding add_key
add_key-AreDistinct budgets key found d =
    if_cases AreDistinct (not (str_eq key "") && has_budget key budgets && not (contains key found))
      (λ new. AreDistinct-snoc key found (ground arith) d) (λ _. d)

add_keys-AreDistinct :
    (budgets : Dict Budget) (keys found : List String)
    → AreDistinct found
    → AreDistinct (add_keys budgets keys found)
unfolding add_keys
add_keys-AreDistinct budgets [] found d = d
add_keys-AreDistinct budgets (key ∷ keys) found d =
    add_keys-AreDistinct budgets keys (add_key budgets key found)
      (add_key-AreDistinct budgets key found d)

keys_for-AreDistinct :
    (t : Tracker) (node_id : String) (tags : List String) (rule_id : Option String)
    → AreDistinct (keys_for t node_id tags rule_id)
unfolding keys_for
keys_for-AreDistinct t node_id tags rule_id = add_keys-AreDistinct t.budgets _ [] tt

used-charge :
    (key j : String) (tokens cost : ℕ) (used : Dict Used)
    → ((used_at j (charge key tokens cost used)).tokens
        ≡ (used_at j used).tokens + (if str_eq key j then tokens else 0))
      × ((used_at j (charge key tokens cost used)).cost_micros
          ≡ (used_at j used).cost_micros + (if str_eq key j then cost else 0))
unfolding charge
used-charge key j tokens cost used =
    let u = used_at key used in
    let new : Used = record { cost_micros = u.cost_micros + cost; tokens = u.tokens + tokens } in
    rw (get_or-insert key j new nothing_used used) (elim (Bool-cases (str_eq key j)) [
      | inl same ↦ rw (same, (eq_iff key j).0 same) (refl, refl)
      | inr apart ↦ rw apart (omega arith, omega arith)
    ])

once :
    (key j : String) (keys : List String) (n before : ℕ)
    → contains key keys ≡ false
    → before + (if str_eq key j then n else 0) + (if contains j keys then n else 0)
      ≡ before + (if str_eq key j || contains j keys then n else 0)
once key j keys n before new = elim (Bool-cases (str_eq key j)) [
  | inl same ↦
      let unseen : contains j keys ≡ false =
        subst (λ k. contains k keys ≡ false) ((eq_iff key j).0 same) new in
      rw (same, unseen) (omega arith)
  | inr apart ↦ rw apart (omega arith)
]

used-charge_keys :
    (keys : List String) (j : String) (tokens cost : ℕ) (used : Dict Used)
    → AreDistinct keys
    → ((used_at j (charge_keys keys tokens cost used)).tokens
        ≡ (used_at j used).tokens + (if contains j keys then tokens else 0))
      × ((used_at j (charge_keys keys tokens cost used)).cost_micros
          ≡ (used_at j used).cost_micros + (if contains j keys then cost else 0))
unfolding charge_keys contains
used-charge_keys [] j tokens cost used d = (omega arith, omega arith)
used-charge_keys (key ∷ keys) j tokens cost used d =
    let later = used-charge_keys keys j tokens cost (charge key tokens cost used) d.1 in
    let first = used-charge key j tokens cost used in
    (
      later.0 ∙ rw first.0 (once key j keys tokens (used_at j used).tokens d.0),
      later.1 ∙ rw first.1 (once key j keys cost (used_at j used).cost_micros d.0),
    )

-- A call is charged in full to each key that is found for it, once even if the key is named more than once
-- as the node, a tag or the rule; and to no other key.
pub used-record_usage :
    (t : Tracker) (node_id : String) (tags : List String) (rule_id : Option String)
    (tokens cost : ℕ) (j : String)
    → let after = used_at j (record_usage t node_id tags rule_id tokens cost).used in
      let charged = contains j (keys_for t node_id tags rule_id) in
      (after.tokens ≡ (used_at j t.used).tokens + (if charged then tokens else 0))
      × (after.cost_micros ≡ (used_at j t.used).cost_micros + (if charged then cost else 0))
unfolding record_usage
used-record_usage t node_id tags rule_id tokens cost j =
    used-charge_keys (keys_for t node_id tags rule_id) j tokens cost t.used
      (keys_for-AreDistinct t node_id tags rule_id)
