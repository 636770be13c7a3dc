-- ===== src/Budgets/Ceilings.antt =====
-- When a call is let through by the ceilings of its keys.
use readyagents_core.Common.{
  ℕ, ◌+◌, ◌≤◌, ◌≡◌, refl, sym, subst, ◌∙◌, ◌↔◌, String, Option, none, some, List, [], ◌∷◌, str_eq,
  eq_iff, Dict, lookup, get_or, get_or-insert, arith, inl, inr, Bool-cases, Option-cases,
  option_cases,
}
use readyagents_core.Budgets.Tracker.{
  Budget, Used, Tracker, Exceeded, used_at, nothing_used, over_tokens, over_cost, check_key,
  check_budget_of, set_default, consult_keys, consult, keys_for,
}

abbrev pub WithinTokens : Option ℕ → ℕ → Type 0
WithinTokens none used = Unit
WithinTokens (some limit) used = used ≤ limit

-- A ceiling on the cost lets no call through that has no price.
abbrev pub WithinCost : Option ℕ → ℕ → Option ℕ → Type 0
WithinCost none used quote = Unit
WithinCost (some limit) used none = ¬ Unit
WithinCost (some limit) used (some estimated) = used + estimated ≤ limit

abbrev pub IsWithin : Option Budget → Used → ℕ → Option ℕ → Type 0
IsWithin none u prompt quote = Unit
IsWithin (some b) u prompt quote =
    WithinTokens b.max_tokens (u.tokens + prompt) × WithinCost b.max_cost_micros u.cost_micros quote

over_tokens-WithinTokens :
    (key : String) (limit : Option ℕ) (used prompt : ℕ)
    → (over_tokens key limit used prompt ≡ none) ↔ WithinTokens limit (used + prompt)
over_tokens-WithinTokens key none used prompt = (λ _. tt, λ _. refl)
over_tokens-WithinTokens key (some limit) used prompt = (λ h. ground arith, λ h. ground arith)

over_cost-WithinCost :
    (key : String) (limit : Option ℕ) (used : ℕ) (quote : Option ℕ)
    → (over_cost key limit used quote ≡ none) ↔ WithinCost limit used quote
over_cost-WithinCost key none used quote = (λ _. tt, λ _. refl)
over_cost-WithinCost key (some limit) used none = (λ h. absurd (cc), λ h. absurd (h tt))
over_cost-WithinCost key (some limit) used (some estimated) = (λ h. ground arith, λ h. ground arith)

check_budget_of-IsWithin :
    (key : String) (b : Option Budget) (u : Used) (prompt : ℕ) (quote : Option ℕ)
    → (check_budget_of key b u prompt quote ≡ none) ↔ IsWithin b u prompt quote
unfolding check_key
check_budget_of-IsWithin key none u prompt quote = (λ _. tt, λ _. refl)
check_budget_of-IsWithin key (some b) u prompt quote =
    let tokens = over_tokens-WithinTokens key b.max_tokens u.tokens prompt in
    let cost = over_cost-WithinCost key b.max_cost_micros u.cost_micros quote in
    elim (Option-cases (over_tokens key b.max_tokens u.tokens prompt)) [
      | inl within ↦ rw (within, check_key) (λ h. (tokens.0 within, cost.0 h), λ h. cost.1 h.1)
      | inr (e, over) ↦
          rw (over, check_key) (λ h. absurd (cc), λ h. absurd (cc (over, tokens.1 h.0)))
    ]

used_at-missing :
    (key : String) (used : Dict Used) → lookup key used ≡ none → used_at key used ≡ nothing_used
unfolding get_or
used_at-missing key used h = rw (h, get_or)

used-set_default :
    (key j : String) (used : Dict Used) → used_at j (set_default key used) ≡ used_at j used
unfolding set_default
used-set_default key j used =
    option_cases (λ d. used_at j d ≡ used_at j used) (lookup key used)
      (λ missing.
        get_or-insert key j nothing_used nothing_used used ∙ elim (Bool-cases (str_eq key j)) [
          | inl same ↦ rw same (
              sym (
                subst (λ k. used_at k used ≡ nothing_used) ((eq_iff key j).0 same)
                  (used_at-missing key used missing)))
          | inr apart ↦ rw apart
        ])
      (λ u _. refl)

-- Every key of the call is within its ceilings.
abbrev pub AllWithin : Dict Budget → List String → ℕ → Option ℕ → Dict Used → Type 0
AllWithin budgets [] prompt quote used = Unit
AllWithin budgets (key ∷ keys) prompt quote used =
    IsWithin (lookup key budgets) (used_at key used) prompt quote
    × AllWithin budgets keys prompt quote used

module _ (budgets : Dict Budget) (prompt : ℕ) (quote : Option ℕ) where
  AllWithin-same :
      (keys : List String) (used used' : Dict Used)
      → ((j : String) → used_at j used' ≡ used_at j used)
      → AllWithin budgets keys prompt quote used' ↔ AllWithin budgets keys prompt quote used
  AllWithin-same [] used used' same = (λ h. h, λ h. h)
  AllWithin-same (key ∷ keys) used used' same =
      let rest = AllWithin-same keys used used' same in
      rw (same key) (λ h. (h.0, rest.0 h.1), λ h. (h.0, rest.1 h.1))

  consult_keys-AllWithin :
      (keys : List String) (used : Dict Used)
      → ((consult_keys budgets keys prompt quote used).0 ≡ none)
        ↔ AllWithin budgets keys prompt quote used
  unfolding consult_keys
  consult_keys-AllWithin [] used = (λ _. tt, λ _. refl)
  consult_keys-AllWithin (key ∷ keys) used =
      let used' = set_default key used in
      let here =
        check_budget_of-IsWithin key (lookup key budgets) (used_at key used) prompt quote in
      let rest = consult_keys-AllWithin keys used' in
      let same = AllWithin-same keys used used' (λ j. used-set_default key j used) in
      rw (used-set_default key key used, consult_keys)
        (elim (Option-cases
          (check_budget_of key (lookup key budgets) (used_at key used) prompt quote)) [
            | inl within ↦
                rw within (λ h. (here.0 within, same.0 (rest.0 h)), λ h. rest.1 (same.1 h.1))
            | inr (e, over) ↦ rw over (λ h. absurd (cc), λ h. absurd (cc (over, here.1 h.0)))
          ])

  used-consult_keys :
      (keys : List String) (used : Dict Used) (j : String)
      → used_at j (consult_keys budgets keys prompt quote used).1 ≡ used_at j used
  unfolding consult_keys
  used-consult_keys [] used j = refl
  used-consult_keys (key ∷ keys) used j =
      let used' = set_default key used in
      option_cases (λ (x : Option Exceeded × Dict Used). used_at j x.1 ≡ used_at j used)
        (check_budget_of key (lookup key budgets) (used_at key used') prompt quote)
        (λ _. used-consult_keys keys used' j ∙ used-set_default key j used)
        (λ _ _. used-set_default key j used)

-- A call is let through exactly if every key that is found for it is within its ceilings: what was used and
-- the prompt together within the tokens, and what was used and the quoted cost together within the cost, a
-- call without a price being over any ceiling on the cost. Asking charges nothing to any key.
pub consult-AllWithin :
    (t : Tracker) (node_id : String) (tags : List String) (rule_id : Option String) (prompt : ℕ)
    (quote : Option ℕ)
    → let x = consult t node_id tags rule_id prompt quote in
      ((x.0 ≡ none) ↔ AllWithin t.budgets (keys_for t node_id tags rule_id) prompt quote t.used)
      × ((j : String) → used_at j x.1.used ≡ used_at j t.used)
unfolding consult
consult-AllWithin t node_id tags rule_id prompt quote =
    let keys = keys_for t node_id tags rule_id in
    (
      consult_keys-AllWithin t.budgets prompt quote keys t.used,
      used-consult_keys t.budgets prompt quote keys t.used,
    )
