-- ===== src/Cost/Reservations.antt =====
-- What a call reserves when it is let through, when it is refused, and when it fails.
use readyagents_core.Common.{
  ℕ, ◌+◌, ◌≤◌, ◌≡◌, refl, sym, arith, String, ◌||◌, Option, none, some, ltb, leb, ◌⊎◌, inl, inr,
  option_cases, if_cases,
}
use readyagents_core.Cost.Shared.{Shared, Exceeded, unpriced, before_call, reserve}
use readyagents_core.Cost.Meter.{
  Meter, Refusal, too_long, too_many_calls, over_tokens, over_cost, then_step, check_wall,
  check_calls, reserve_tokens, mark_unpriced, reserve_cost, count_call, take_back_tokens,
  take_back_cost, shared_answer, reserve_shared, consult_before_call,
}

-- What a meter has counted and reserved, as a refusal has to leave it.
pub record IsUntouched (m m' : Meter) : Type 0 where
  pub total_tokens : m'.total_tokens ≡ m.total_tokens
  pub cost_micros : m'.cost_micros ≡ m.cost_micros
  pub model_calls : m'.model_calls ≡ m.model_calls
  pub reserved_cost : m'.reserved_cost ≡ m.reserved_cost
  pub shared : m'.shared ≡ m.shared

-- What a call that is let through has reserved: of the tokens, of the cost, and of the shared budget.
abbrev pub TokensReserved : Option ℕ → ℕ → ℕ → ℕ → ℕ → Type 0
TokensReserved none used tokens before after = after ≡ before
TokensReserved (some limit) used tokens before after =
    (after ≡ before + tokens) × (used + after ≤ limit)

abbrev pub CostReserved : Option ℕ → ℕ → Option ℕ → ℕ → ℕ → Type 0
CostReserved none used estimate before after = after ≡ before
CostReserved (some limit) used estimate before after =
    (cost : ℕ) × (estimate ≡ some cost) × (after ≡ before + cost) × (used + after ≤ limit)

abbrev pub SharedReserved : Option Shared → Option ℕ → Option Shared → Type 0
SharedReserved none estimate after = after ≡ none
SharedReserved (some b) estimate after =
    (cost : ℕ) × (estimate ≡ some cost) × (after ≡ some (record b { reserved = b.reserved + cost }))

pub record IsAdmitted (tokens : ℕ) (estimate : Option ℕ) (m m' : Meter) : Type 0 where
  pub calls : m'.model_calls ≡ m.model_calls + 1
  pub total_tokens : m'.total_tokens ≡ m.total_tokens
  pub cost_micros : m'.cost_micros ≡ m.cost_micros
  pub by_tokens :
      TokensReserved m.caps.max_tokens m.total_tokens tokens m.reserved_tokens m'.reserved_tokens
  pub by_cost :
      CostReserved m.caps.max_spend_micros m.cost_micros estimate m.reserved_cost m'.reserved_cost
  pub by_shared : SharedReserved m.shared estimate m'.shared

-- A rule for each step of the consultation.
module _ (P : Option Refusal × Meter → Type 0) (m : Meter)
    (next : Meter → Option Refusal × Meter) where
  check_wall-rule :
      (elapsed : ℕ)
      → ((r : Refusal) → P (some r, m))
      → P (next m)
      → P (then_step (check_wall elapsed m) next)
  check_wall-rule elapsed refused passed =
      option_cases (λ (x : Option Refusal × Meter). P (then_step x next)) m.caps.max_wall_seconds
        (λ _. passed)
        λ limit _.
          if_cases (λ (x : Option Refusal × Meter). P (then_step x next)) (leb limit elapsed)
            (λ _. refused (too_long elapsed limit)) (λ _. passed)

  check_calls-rule :
      ((r : Refusal) → P (some r, m)) → P (next m) → P (then_step (check_calls m) next)
  check_calls-rule refused passed =
      option_cases (λ (x : Option Refusal × Meter). P (then_step x next)) m.caps.max_model_calls
        (λ _. passed)
        λ limit _.
          if_cases (λ (x : Option Refusal × Meter). P (then_step x next)) (leb limit m.model_calls)
            (λ _. refused (too_many_calls m.model_calls limit)) (λ _. passed)

  reserve_tokens-rule :
      (tokens : ℕ)
      → ((r : Refusal) → P (some r, m))
      → (m.caps.max_tokens ≡ none → P (next m))
      → ((limit : ℕ)
          → m.caps.max_tokens ≡ some limit
          → m.total_tokens + (m.reserved_tokens + tokens) ≤ limit
          → P (next (record m { reserved_tokens = m.reserved_tokens + tokens })))
      → P (then_step (reserve_tokens tokens m) next)
  reserve_tokens-rule tokens refused free within =
      option_cases (λ (x : Option Refusal × Meter). P (then_step x next)) m.caps.max_tokens free
        λ limit is_set.
          if_cases (λ (x : Option Refusal × Meter). P (then_step x next))
            (leb limit (m.total_tokens + m.reserved_tokens)
              || ltb limit (m.total_tokens + m.reserved_tokens + tokens))
            (λ _. refused (over_tokens (m.total_tokens + m.reserved_tokens + tokens) limit))
            (λ below. within limit is_set (ground arith))

  reserve_cost-rule :
      (model : String) (estimate : Option ℕ)
      → ((e : Exceeded) → P (some (over_cost e), mark_unpriced model m))
      → ((e : Exceeded) → P (some (over_cost e), m))
      → (m.caps.max_spend_micros ≡ none → P (next m))
      → ((limit cost : ℕ)
          → m.caps.max_spend_micros ≡ some limit
          → estimate ≡ some cost
          → m.cost_micros + (m.reserved_cost + cost) ≤ limit
          → P (next (record m { reserved_cost = m.reserved_cost + cost })))
      → P (then_step (reserve_cost model estimate m) next)
  reserve_cost-rule model estimate no_price refused free within =
      option_cases (λ (x : Option Refusal × Meter). P (then_step x next)) m.caps.max_spend_micros
        free
        λ limit is_set.
          option_cases (λ (x : Option Refusal × Meter). P (then_step x next)) estimate
            (λ _. no_price (unpriced m.cost_micros limit))
            λ cost priced.
              if_cases (λ (x : Option Refusal × Meter). P (then_step x next))
                (leb limit (m.cost_micros + m.reserved_cost)
                  || ltb limit (m.cost_micros + m.reserved_cost + cost))
                (λ _. refused (before_call (m.cost_micros + m.reserved_cost + cost) limit))
                (λ below. within limit cost is_set priced (ground arith))

-- The shared budget's answer: as it was, or with the estimate reserved.
reserve-rule :
    (P : Option Exceeded × Shared → Type 0) (estimate : Option ℕ) (b : Shared)
    → ((e : Exceeded) → P (some e, b))
    → ((cost : ℕ) → estimate ≡ some cost → P (none, record b { reserved = b.reserved + cost }))
    → P (reserve estimate b)
unfolding reserve
reserve-rule P none b refused passed = refused (unpriced b.cost_micros b.max_spend_micros)
reserve-rule P (some cost) b refused passed =
    if_cases P
      (leb b.max_spend_micros (b.cost_micros + b.reserved)
        || ltb b.max_spend_micros (b.cost_micros + b.reserved + cost))
      (λ _. refused (before_call (b.cost_micros + b.reserved + cost) b.max_spend_micros))
      (λ _. passed cost refl)

reserve_shared-rule :
    (P : Option Refusal × Meter → Type 0) (tokens : ℕ) (estimate : Option ℕ) (m : Meter)
    → (m.shared ≡ none → P (none, m))
    → ((b : Shared) (cost : ℕ)
        → m.shared ≡ some b
        → estimate ≡ some cost
        → P (none, record m { shared = some (record b { reserved = b.reserved + cost }) }))
    → ((b : Shared) (e : Exceeded)
        → m.shared ≡ some b
        → P (shared_answer tokens estimate m (some e, b)))
    → P (reserve_shared tokens estimate m)
reserve_shared-rule P tokens estimate m alone passed refused =
    option_cases P m.shared alone λ b is_set.
      reserve-rule (λ x. P (shared_answer tokens estimate m x)) estimate b (λ e. refused b e is_set)
        (λ cost priced. passed b cost is_set priced)

abbrev pub Answers : ℕ → Option ℕ → Meter → Option Refusal × Meter → Type 0
Answers tokens estimate m (none, m') = IsAdmitted tokens estimate m m'
Answers tokens estimate m (some r, m') =
    IsUntouched m m'
    × ((m'.reserved_tokens ≡ m.reserved_tokens) ⊎ ((e : Exceeded) × (r ≡ over_cost e)))

untouched : (m : Meter) → IsUntouched m m
untouched m = record {
  total_tokens = refl;
  cost_micros = refl;
  model_calls = refl;
  reserved_cost = refl;
  shared = refl;
}

-- The meter when the run's own caps have let the call through.
abbrev admitted : ℕ → ℕ → Meter → Meter
admitted tokens cost m = record m {
  reserved_tokens = tokens;
  reserved_cost = cost;
  model_calls = m.model_calls + 1;
}

taken_back_tokens :
    (cap : Option ℕ) (used tokens before after : ℕ)
    → TokensReserved cap used tokens before after
    → take_back_tokens tokens cap after ≡ before
taken_back_tokens none used tokens before after h = h
taken_back_tokens (some limit) used tokens before after h = omega (arith, h.0)

taken_back_cost :
    (cap : Option ℕ) (used : ℕ) (estimate : Option ℕ) (before after : ℕ)
    → CostReserved cap used estimate before after
    → take_back_cost cap estimate after ≡ before
taken_back_cost none used estimate before after h = h
taken_back_cost (some limit) used estimate before after (cost, priced, same, within) =
    rw priced (omega (arith, same))

reserve_shared-Answers :
    (tokens : ℕ) (estimate : Option ℕ) (m : Meter) (rt rc : ℕ)
    → TokensReserved m.caps.max_tokens m.total_tokens tokens m.reserved_tokens rt
    → CostReserved m.caps.max_spend_micros m.cost_micros estimate m.reserved_cost rc
    → Answers tokens estimate m (reserve_shared tokens estimate (admitted rt rc m))
reserve_shared-Answers tokens estimate m rt rc by_tokens by_cost =
    reserve_shared-rule (Answers tokens estimate m) tokens estimate (admitted rt rc m)
      (λ alone. record {
        calls = refl;
        total_tokens = refl;
        cost_micros = refl;
        by_tokens = by_tokens;
        by_cost = by_cost;
        by_shared = rw alone refl;
      })
      (λ b cost is_set priced. record {
        calls = refl;
        total_tokens = refl;
        cost_micros = refl;
        by_tokens = by_tokens;
        by_cost = by_cost;
        by_shared = rw is_set (cost, priced, refl);
      })
      (λ b e is_set. (
        record {
          total_tokens = refl;
          cost_micros = refl;
          model_calls = omega arith;
          reserved_cost =
              taken_back_cost m.caps.max_spend_micros m.cost_micros estimate m.reserved_cost rc
                by_cost;
          shared = sym is_set;
        },
        inl (
            taken_back_tokens m.caps.max_tokens m.total_tokens tokens m.reserved_tokens rt
              by_tokens),
      ))

module _ (price : String → ℕ → ℕ → Option ℕ) where
  after_tokens-Answers :
      (model : String) (tokens : ℕ) (estimate : Option ℕ) (m : Meter) (rt : ℕ)
      → TokensReserved m.caps.max_tokens m.total_tokens tokens m.reserved_tokens rt
      → Answers tokens estimate m (
          then_step
            (reserve_cost model estimate (record m { reserved_tokens = rt }))
            λ m₄. then_step (count_call m₄) (λ m₅. reserve_shared tokens estimate m₅))
  unfolding mark_unpriced
  after_tokens-Answers model tokens estimate m rt by_tokens =
      reserve_cost-rule (Answers tokens estimate m) (record m { reserved_tokens = rt })
        (λ m₄. then_step (count_call m₄) (λ m₅. reserve_shared tokens estimate m₅)) model estimate
        (λ e. (
          record {
            total_tokens = refl;
            cost_micros = refl;
            model_calls = refl;
            reserved_cost = refl;
            shared = refl;
          },
          inr (e, refl),
        ))
        (λ e. (
          record {
            total_tokens = refl;
            cost_micros = refl;
            model_calls = refl;
            reserved_cost = refl;
            shared = refl;
          },
          inr (e, refl),
        ))
        (λ free.
          reserve_shared-Answers tokens estimate m rt m.reserved_cost by_tokens (rw free refl))
        (λ limit cost is_set priced within.
          reserve_shared-Answers tokens estimate m rt (m.reserved_cost + cost) by_tokens
            (rw is_set (cost, priced, refl, within)))

  pub consult_before_call-Answers :
      (elapsed : ℕ) (model : String) (prompt completion : ℕ) (m : Meter)
      → Answers
          (prompt + completion)
          (price model prompt completion)
          m
          (consult_before_call price elapsed model prompt completion m)
  unfolding consult_before_call
  consult_before_call-Answers elapsed model prompt completion m =
      let tokens = prompt + completion in
      let estimate = price model prompt completion in
      let as_it_was : (r : Refusal) → Answers tokens estimate m (some r, m) =
        λ r. (untouched m, inl refl) in
      check_wall-rule (Answers tokens estimate m) m _ elapsed as_it_was (
        check_calls-rule (Answers tokens estimate m) m _ as_it_was (
          reserve_tokens-rule (Answers tokens estimate m) m _ tokens as_it_was
            (λ free. after_tokens-Answers model tokens estimate m m.reserved_tokens (rw free refl))
            (λ limit is_set within.
              after_tokens-Answers model tokens estimate m (m.reserved_tokens + tokens)
                (rw is_set (refl, within)))))
