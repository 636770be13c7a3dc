-- ===== src/Governor/Nesting.antt =====
-- Leases: nested ones, and giving back what was taken.
use readyagents_core.Common.{
  ℕ, zero, suc, ◌+◌, ◌-◌, ◌<◌, ◌≡◌, refl, String, true, false, Option, none, some, arith, ℤ, eq_iff,
  eq_refl,
}
use mathlib.Core.Path.{fun_ext}
use readyagents_core.Governor.Slots.{Slots, enter, leave, update, count_up, count_down}
use readyagents_core.Governor.State.{Governor}
use readyagents_core.Governor.Lease.{Lease, leased, acquire, release_lease}

update-update_self :
    (f : String → ℕ) (k j : String) → update (update f k (f k + 1)) k (f k + 1 - 1) j ≡ f j
update-update_self f k j = ground (arith, eq_iff k j)

leave-enter_provs :
    (f : String → ℕ) (provider : Option String) (j : String)
    → count_down provider (count_up provider f) j ≡ f j
leave-enter_provs f none j = refl
leave-enter_provs f (some p) j = ground (arith, eq_iff p j, eq_refl p)

leave-enter_wfs :
    (f : String → ℕ) (k j : String)
    → update (update f k (f k + 1)) k (update f k (f k + 1) k - 1) j ≡ f j
leave-enter_wfs f k j = ground (arith, eq_iff k j, eq_refl k)

-- Giving back a slot that was taken, for the same workflow and provider, restores every count.
pub leave-enter :
    (s : Slots) (workflow : String) (provider : Option String)
    → leave (enter s workflow provider) workflow provider ≡ s
unfolding leave enter
leave-enter s workflow provider = λ i. record {
  global_used = total i;
  wf_used = fun_ext (leave-enter_wfs s.wf_used workflow) i;
  prov_used = fun_ext (leave-enter_provs s.prov_used provider) i;
}
  where
    total : s.global_used + 1 - 1 ≡ s.global_used
    total = omega arith

module _ (clock : ℕ → ℕ) where
  -- A thread that holds a lease gets another at once, whatever the limits and the queue, also from a
  -- closed governor; neither taking it nor giving it back touches the governor, and the depth is again
  -- what it was.
  pub nested_lease :
      (depth : ℕ) (workflow : String) (provider : Option String) (priority : ℤ) (timeout : Option ℤ)
      (g : Governor)
      → 0 < depth
      → (lease : Lease) × (acquire clock depth workflow provider priority timeout g
          ≡ (leased lease, depth + 1, g))
        × ((h : Governor)
            → release_lease clock lease (depth + 1) h
              ≡ (record lease { released = true }, depth, h))
  nested_lease zero workflow provider priority timeout g held = absurd (omega arith)
  nested_lease (suc depth) workflow provider priority timeout g held = (
    record { workflow = workflow; provider = provider; nested = true; released = false },
    unfold acquire in refl,
    λ h. unfold release_lease in ground arith,
  )

  -- A second release of a lease does nothing.
  pub release_lease_twice :
      (lease : Lease) (depth depth' : ℕ) (g h : Governor)
      → release_lease clock (release_lease clock lease depth g).0 depth' h
        ≡ ((release_lease clock lease depth g).0, depth', h)
  unfolding release_lease
  release_lease_twice lease depth depth' g h = ground arith
