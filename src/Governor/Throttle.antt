-- ===== src/Governor/Throttle.antt =====
-- Back-pressure by provider: Retry-After deadlines and token buckets. Time is counted in
-- microseconds and tokens in units of 10^-12, so that a rate of one token a second is 10^6 units a
-- microsecond. `clock` gives the successive readings of the governor's clock.
use readyagents_core.Common.{
  ℕ, ◌+◌, ◌-◌, ◌*◌, ◌/◌, String, Bool, true, false, ◌||◌, Option, none, some, List, [], ◌∷◌, ℤ,
  pos_part, min, max, leb, ltb, ◌==◌, if◌then◌else◌, Dict, lookup, insert, get_or, all, strip,
  lower, str_eq, ◌++◌, ◌&&◌,
}

abbrev pub one_token : ℕ
one_token = 1000000000000

abbrev pub retry_bucket_rate : ℕ
retry_bucket_rate = 1000000

abbrev pub retry_bucket_burst : ℕ
retry_bucket_burst = one_token

-- `max(0.01, …)` seconds.
abbrev pub least_delay : ℕ
least_delay = 10000

pub record Bucket : Type 0 where
  pub tokens : ℕ
  pub updated : ℕ
  pub rate : ℕ
  pub burst : ℕ

pub record Throttle : Type 0 where
  pub provider_rate : Option ℕ
  pub provider_burst : Option ℕ
  pub retry_until : Dict ℕ
  pub buckets : Dict Bucket
  -- How often the clock has been read.
  pub reads : ℕ

-- `str(provider).strip().lower() or None`.
unfoldable pub provider_key : Option String → Option String
unfolding strip lower
provider_key none = none
provider_key (some provider) =
    let text = lower (strip provider) in if str_eq text "" then none else some text

-- `value if value else default`, for a float: 0.0 counts as absent.
abbrev or_else : Option ℕ → ℕ → ℕ
or_else none d = d
or_else (some n) d = if n == 0 then d else n

abbrev or_default : Option ℕ → ℕ → ℕ
or_default none d = d
or_default (some n) d = n

abbrev pub is_some {ℓ} : {A : Type ℓ} → Option A → Bool
is_some none = false
is_some (some a) = true

module _ (clock : ℕ → ℕ) where
  unfoldable pub read_clock : Throttle → ℕ × Throttle
  read_clock t = (clock t.reads, record t { reads = t.reads + 1 })

  unfoldable pub has_bucket : Throttle → String → Bool
  unfolding lookup
  has_bucket t provider = is_some (lookup provider t.buckets) || is_some t.provider_rate

  -- The bucket of a provider, made full at its first use.
  unfoldable pub bucket_of : String → Throttle → Bucket × Throttle
  unfolding lookup insert read_clock
  bucket_of provider t = elim (lookup provider t.buckets) [
    | some bucket ↦ (bucket, t)
    | none ↦
        let (now, t') = read_clock t in
        let burst = or_default t.provider_burst one_token in
        let rate = or_default t.provider_rate retry_bucket_rate in
        let bucket : Bucket = record {
          tokens = burst;
          updated = now;
          rate = rate;
          burst = burst;
        } in
        (bucket, record t' { buckets = insert provider bucket t'.buckets })
  ]

  put_bucket : String → Bucket → Throttle → Throttle
  put_bucket provider bucket t = record t { buckets = insert provider bucket t.buckets }

  abbrev refilled : Bucket → ℕ → Bucket
  refilled b now = record b {
    tokens = min b.burst (b.tokens + b.rate * (now - b.updated));
    updated = now;
  }

  unfoldable pub refill : String → Throttle → Throttle
  unfolding has_bucket bucket_of read_clock put_bucket
  refill provider t =
      if has_bucket t provider
      then (let (bucket, t₁) = bucket_of provider t in
          let (now, t₂) = read_clock t₁ in put_bucket provider (refilled bucket now) t₂)
      else t

  unfoldable pub ready_for : String → ℕ → Throttle → Bool × Throttle
  ready_for provider now t =
      if ltb now (get_or provider 0 t.retry_until)
      then (false, t)
      else if has_bucket t provider
      then (let (bucket, t') = bucket_of provider (refill provider t) in
          (leb one_token bucket.tokens, t'))
      else (true, t)

  unfoldable pub tokens_ready : Option String → Throttle → Bool × Throttle
  unfolding ready_for get_or refill all
  tokens_ready none t =
      let (now, t') = read_clock t in (all (λ entry. leb entry.1 now) t'.retry_until, t')
  tokens_ready (some provider) t = let (now, t') = read_clock t in ready_for provider now t'

  unfoldable pub consume_token : Option String → Throttle → Throttle
  unfolding has_bucket bucket_of refill put_bucket
  consume_token none t = t
  consume_token (some provider) t =
      if has_bucket t provider
      then (let (bucket, t') = bucket_of provider (refill provider t) in
          put_bucket provider (record bucket { tokens = bucket.tokens - one_token }) t')
      else t

  -- `note_retry_after`: `wait` is `max(0.0, float(seconds))`.
  unfoldable pub armed : String → ℕ → Throttle → Throttle
  unfolding put_bucket
  armed name until t =
      let rate = or_else t.provider_rate retry_bucket_rate in
      let burst = or_else t.provider_burst retry_bucket_burst in
      elim (lookup name t.buckets) [
        | none ↦
            put_bucket name
              (record { tokens = one_token; updated = until; rate = rate; burst = burst }) t
        | some bucket ↦
            put_bucket name
              (record bucket {
                tokens = one_token;
                updated = until;
                rate = if bucket.rate == 0 then rate else bucket.rate;
              })
              t
      ]

  abbrev pub later_deadline : String → ℕ → Throttle → Throttle
  later_deadline name until t =
      if ltb (get_or name 0 t.retry_until) until
      then record t { retry_until = insert name until t.retry_until }
      else t

  unfoldable pub note_retry_after : String → ℤ → Throttle → Throttle
  unfolding read_clock
  note_retry_after provider seconds t =
      let name = lower (strip provider) in
      if str_eq name ""
      then t
      else let (now, t') = read_clock t in
        let until = now + pos_part seconds in armed name until (later_deadline name until t')

  abbrev delays_after : ℕ → Dict ℕ → List ℕ
  delays_after now [] = []
  delays_after now ((_, until) ∷ rest) =
      let more = delays_after now rest in if ltb now until then (until - now) ∷ more else more

  -- `min(delays)`, of a list that is not empty.
  abbrev least : ℕ → List ℕ → ℕ
  least d [] = d
  least d (e ∷ es) = least (min d e) es

  abbrev wake_delay : List ℕ → Option ℕ
  wake_delay [] = none
  wake_delay (d ∷ ds) = some (max least_delay (least d ds))

  -- A bucket that is short of a token asks to be looked at when it has one again.
  bucket_delay : String → Throttle → List ℕ × Throttle
  bucket_delay provider t =
      if has_bucket t provider
      then (let (bucket, t') = bucket_of provider (refill provider t) in
          if ltb bucket.tokens one_token && ltb 0 bucket.rate
          then (((one_token - bucket.tokens) / bucket.rate) ∷ [], t')
          else ([], t'))
      else ([], t)

  retry_delay : String → ℕ → Throttle → List ℕ
  retry_delay provider now t =
      let until = get_or provider 0 t.retry_until in
      if ltb now until then (until - now) ∷ [] else []

  -- `_next_wake_delay`; the quotient is rounded down to a microsecond.
  unfoldable pub next_wake_delay : Option String → Throttle → Option ℕ × Throttle
  unfolding bucket_delay retry_delay
  next_wake_delay none t =
      let (now, t') = read_clock t in (wake_delay (delays_after now t'.retry_until), t')
  next_wake_delay (some provider) t =
      let (now, t₁) = read_clock t in
      let (short, t₂) = bucket_delay provider t₁ in
      (wake_delay (retry_delay provider now t₁ ++ short ++ delays_after now t₂.retry_until), t₂)
