-- ===== src/Resilience/Breaker.antt =====
-- `CircuitBreaker`: failures are counted by model, and a model with too many is left alone for a
-- while. Times are counted in ticks; `now` is the reading of the clock in a call.
use readyagents_core.Common.{
  ℕ, ◌+◌, String, Bool, true, false, none, some, [], ℤ, pos_part, max, leb, not, if◌then◌else◌,
  Dict, lookup, insert, remove, get_or,
}

pub record Breaker : Type 0 where
  pub failure_threshold : ℕ
  pub cooldown_seconds : ℕ
  pub fail_count : Dict ℕ
  pub open_until : Dict ℕ

unfoldable pub new : ℤ → ℤ → Breaker
new failure_threshold cooldown_seconds = record {
  failure_threshold = max 1 (pos_part failure_threshold);
  cooldown_seconds = pos_part cooldown_seconds;
  fail_count = [];
  open_until = [];
}

-- Once the pause has passed the model starts with a count of zero.
unfoldable pub allow : String → ℕ → Breaker → Bool × Breaker
allow model now b = elim (lookup model b.open_until) [
  | none ↦ (true, b)
  | some until ↦
      if leb until now
      then (
        true,
        record b {
          open_until = remove model b.open_until;
          fail_count = insert model 0 b.fail_count;
        },
      )
      else (false, b)
]

unfoldable pub record_success : String → Breaker → Breaker
record_success model b = record b {
  fail_count = insert model 0 b.fail_count;
  open_until = remove model b.open_until;
}

unfoldable pub record_failure : String → ℕ → Breaker → Breaker
record_failure model now b =
    let n = get_or model 0 b.fail_count + 1 in
    record b {
      fail_count = insert model n b.fail_count;
      open_until =
          if leb b.failure_threshold n
          then insert model (now + b.cooldown_seconds) b.open_until
          else b.open_until;
    }

unfoldable pub is_open : String → ℕ → Breaker → Bool × Breaker
is_open model now b = let (allowed, b') = allow model now b in (not allowed, b')
