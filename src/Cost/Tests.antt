-- ===== src/Cost/Tests.antt =====
-- A run with two calls, on its own and in a batch.
use readyagents_core.Common.{
  ℕ, ◌+◌, ◌≡◌, ◌≤◌, refl, String, Option, none, some, [], ◌∷◌, if◌then◌else◌, str_eq, pos,
}
use readyagents_core.Cost.Shared.{Shared, new_shared, reserve}
use readyagents_core.Cost.Meter.{
  Caps, Meter, new_meter, consult_before_call, release_reservation, record_usage,
}
use readyagents_core.Cost.Ledger.{reserves, commits, run, sum, run-new_shared}
use readyagents_core.Cost.Failures.{release_reservation-shared, release_reservation-record_usage}

abbrev price : String → ℕ → ℕ → Option ℕ
price model prompt completion = if str_eq model "" then none else some (prompt + completion)

abbrev caps : Caps
caps = record {
  max_spend_micros = some 100;
  max_tokens = none;
  max_model_calls = some 5;
  max_tool_rounds = none;
  max_wall_seconds = some 60;
}

abbrev budget : Shared
budget = record { max_spend_micros = 100; cost_micros = 10; reserved = 20 }

abbrev in_batch : Meter
in_batch = new_meter caps (some budget)

run-new_shared_example :
    let k =
      run
        (reserves (some 30) ∷ reserves (some 60) ∷ commits 0 10 ∷ reserves (some 20) ∷ [])
        (record { budget = new_shared (pos 100); out = [] }) in
    (k.budget.reserved ≡ sum k.out)
    × (k.budget.cost_micros + k.budget.reserved ≤ k.budget.max_spend_micros)
run-new_shared_example =
    run-new_shared
      (reserves (some 30) ∷ reserves (some 60) ∷ commits 0 10 ∷ reserves (some 20) ∷ []) (pos 100)

release_reservation-shared_example :
    (cost : ℕ) × (price "m" 10 20 ≡ some cost)
    × ((release_reservation price 10 20 (consult_before_call price 1 "m" 10 20 in_batch).1).shared
        ≡ some (record budget { reserved = budget.reserved + cost }))
unfolding new_meter consult_before_call reserve
release_reservation-shared_example =
    release_reservation-shared price 1 "m" 10 20 in_batch budget refl refl refl

-- Another call has 60 of the 100 reserved.
abbrev one_running : Meter
one_running = record (new_meter caps none) { reserved_cost = 60; model_calls = 1 }

release_reservation-record_usage_example :
    let m' = (consult_before_call price 1 "m" 10 20 one_running).1 in
    ((release_reservation price 10 20 m').reserved_cost ≡ 0)
    × ((record_usage price "m" 10 20 0 10 20 m').reserved_cost ≡ 0)
unfolding new_meter consult_before_call
release_reservation-record_usage_example =
    release_reservation-record_usage price 1 "m" 10 20 10 20 0 one_running refl refl refl
