-- ===== src/Governor/Slots.antt =====
-- The limits of the governor and the slots in use (`_fits`, `_enter`, the counters of `_release`).
use readyagents_core.Common.{
  ℕ, ◌+◌, ◌-◌, String, Bool, true, false, Option, none, some, ℤ, pos, negsuc, min, max, leb, str_eq,
  if◌then◌else◌,
}

-- `max(1, min(x, ceiling))`, with which every limit is read.
unfoldable pub clamp_limit : ℤ → ℕ → ℕ
clamp_limit (pos n) ceiling = max 1 (min n ceiling)
clamp_limit (negsuc n) ceiling = 1

pub record Limits : Type 0 where
  pub max_concurrency : ℕ
  pub global_limit : ℕ
  pub per_workflow_limit : Option ℕ
  pub per_provider_limit : Option ℕ
  pub queue_bound : ℕ

-- `_wf_used` and `_prov_used` are `defaultdict(int)`: every key has a count.
pub record Slots : Type 0 where
  pub global_used : ℕ
  pub wf_used : String → ℕ
  pub prov_used : String → ℕ

abbrev pub no_slots : Slots
no_slots = record { global_used = 0; wf_used = λ _. 0; prov_used = λ _. 0 }

abbrev pub update : (String → ℕ) → String → ℕ → String → ℕ
update f k v j = if str_eq k j then v else f j

-- A limit that is not set refuses nobody.
unfoldable pub is_full : Option ℕ → ℕ → Bool
is_full none used = false
is_full (some limit) used = leb limit used

unfoldable pub provider_full : Limits → Slots → Option String → Bool
unfolding is_full
provider_full l s none = false
provider_full l s (some p) = is_full l.per_provider_limit (s.prov_used p)

unfoldable pub fits : Limits → Slots → String → Option String → Bool
unfolding is_full provider_full
fits l s workflow provider =
    if leb l.global_limit s.global_used
    then false
    else if is_full l.per_workflow_limit (s.wf_used workflow)
    then false
    else if provider_full l s provider
    then false
    else true

-- `if provider: self._prov_used[provider] += 1`, and its counterpart on release.
abbrev pub count_up : Option String → (String → ℕ) → String → ℕ
count_up none f = f
count_up (some p) f = update f p (f p + 1)

abbrev pub count_down : Option String → (String → ℕ) → String → ℕ
count_down none f = f
count_down (some p) f = update f p (f p - 1)

unfoldable pub enter : Slots → String → Option String → Slots
enter s workflow provider = record {
  global_used = s.global_used + 1;
  wf_used = update s.wf_used workflow (s.wf_used workflow + 1);
  prov_used = count_up provider s.prov_used;
}

-- `max(0, n - 1)` on each counter.
unfoldable pub leave : Slots → String → Option String → Slots
leave s workflow provider = record {
  global_used = s.global_used - 1;
  wf_used = update s.wf_used workflow (s.wf_used workflow - 1);
  prov_used = count_down provider s.prov_used;
}
