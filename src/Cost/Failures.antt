-- ===== src/Cost/Failures.antt =====
-- What the end of a call does to the reservations of the others, and to the shared budget.
use readyagents_core.Common.{
  subst, ◌∙◌, ℕ, ◌+◌, ◌-◌, ◌≡◌, refl, sym, arith, String, Option, none, some,
}
use readyagents_core.Cost.Shared.{Shared}
use readyagents_core.Cost.Meter.{
  Meter, Refusal, mark_unpriced, consult_before_call, settle_cost, release_reservation,
  record_usage, add_cost, release_shared,
}
use readyagents_core.Cost.Reservations.{
  TokensReserved, SharedReserved, IsAdmitted, Answers, consult_before_call-Answers,
}

free_tokens :
    (cap : Option ℕ) (used tokens before after : ℕ)
    → cap ≡ none
    → TokensReserved cap used tokens before after
    → after ≡ before
free_tokens cap used tokens before after free =
    subst (λ c. TokensReserved c used tokens before after → after ≡ before) (sym free) (λ h. h)

budget_reserved :
    (before : Option Shared) (b : Shared) (estimate : Option ℕ) (after : Option Shared)
    → before ≡ some b
    → SharedReserved before estimate after
    → SharedReserved (some b) estimate after
budget_reserved before b estimate after is_set h =
    subst (λ s. SharedReserved s estimate after) is_set h

passed_answer :
    (tokens : ℕ) (estimate : Option ℕ) (m : Meter) (x : Option Refusal × Meter)
    → x.0 ≡ none
    → Answers tokens estimate m x
    → IsAdmitted tokens estimate m x.1
passed_answer tokens estimate m (none, m') passed h = h
passed_answer tokens estimate m (some r, m') passed h = absurd (cc)

add_cost-reserved :
    (model : String) (spent : Option ℕ) (m : Meter)
    → (add_cost model spent m).reserved_cost ≡ m.reserved_cost
unfolding mark_unpriced
add_cost-reserved model none m = refl
add_cost-reserved model (some cost) m = refl

settle_cost_zero : (before tokens cost : ℕ) → before ≡ 0 → settle_cost (before - tokens) cost ≡ 0
settle_cost_zero before tokens cost h = ground arith

release_shared_zero : (s : Option Shared) → release_shared 0 s ≡ s
release_shared_zero none = refl
release_shared_zero (some b) = refl

module _ (price : String → ℕ → ℕ → Option ℕ) where
  release_reservation_unnamed :
      (prompt completion : ℕ) (m : Meter)
      → price "" prompt completion ≡ none
      → (release_reservation price prompt completion m).shared ≡ m.shared
  unfolding release_reservation
  release_reservation_unnamed prompt completion m no_name =
      rw no_name (release_shared_zero m.shared)

  -- If no price is known for the empty name, a call that is let through under a shared budget and then fails
  -- leaves its estimate reserved in the shared budget.
  pub release_reservation-shared :
      (elapsed : ℕ) (model : String) (prompt completion : ℕ) (m : Meter) (b : Shared)
      → price "" prompt completion ≡ none
      → m.shared ≡ some b
      → (consult_before_call price elapsed model prompt completion m).0 ≡ none
      → (cost : ℕ) × (price model prompt completion ≡ some cost)
        × ((release_reservation price prompt completion
              (consult_before_call price elapsed model prompt completion m).1).shared
            ≡ some (record b { reserved = b.reserved + cost }))
  release_reservation-shared elapsed model prompt completion m b no_name is_set passed =
      let x = consult_before_call price elapsed model prompt completion m in
      let h =
        passed_answer (prompt + completion) (price model prompt completion) m x passed
          (consult_before_call-Answers price elapsed model prompt completion m) in
      let (cost, priced, after) = budget_reserved m.shared b _ x.1.shared is_set h.by_shared in
      (cost, priced, release_reservation_unnamed prompt completion x.1 no_name ∙ after)

  -- Without a cap on tokens and with none reserved, the end of a call that was let through, whether it fails
  -- or reports its usage, leaves no cost reserved, whatever the calls that are still running had reserved.
  pub release_reservation-record_usage :
      (elapsed : ℕ) (model : String) (prompt completion used_prompt used_completion total : ℕ)
      (m : Meter)
      → m.caps.max_tokens ≡ none
      → m.reserved_tokens ≡ 0
      → (consult_before_call price elapsed model prompt completion m).0 ≡ none
      → let m' = (consult_before_call price elapsed model prompt completion m).1 in
        ((release_reservation price prompt completion m').reserved_cost ≡ 0)
        × ((record_usage price model used_prompt used_completion total prompt completion
              m').reserved_cost
            ≡ 0)
  unfolding release_reservation record_usage
  release_reservation-record_usage elapsed model prompt completion used_prompt used_completion total
        m free idle passed =
      let x = consult_before_call price elapsed model prompt completion m in
      let h =
        passed_answer (prompt + completion) (price model prompt completion) m x passed
          (consult_before_call-Answers price elapsed model prompt completion m) in
      let same : x.1.reserved_tokens ≡ 0 =
        free_tokens m.caps.max_tokens m.total_tokens (prompt + completion) m.reserved_tokens
          x.1.reserved_tokens free h.by_tokens
        ∙ idle in
      (
        settle_cost_zero x.1.reserved_tokens (prompt + completion) _ same,
        add_cost-reserved model (price model used_prompt used_completion) _
            ∙ settle_cost_zero x.1.reserved_tokens (prompt + completion) _ same,
      )
