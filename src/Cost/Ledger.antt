-- ===== src/Cost/Ledger.antt =====
-- The shared cap over any interleaving of calls that each commit or release what they reserved.
use readyagents_core.Common.{
  ℕ, zero, suc, ◌+◌, ◌-◌, ◌≤◌, ◌≡◌, refl, arith, ◌||◌, Option, none, some, List, [], ◌∷◌, ltb, leb,
  ℤ, if_cases, option_cases,
}
use readyagents_core.Cost.Shared.{Shared, Exceeded, new_shared, reserve, commit, release}

-- What the callers of a budget hold: the budget, and the reservations that are out.
pub record Books : Type 0 where
  pub budget : Shared
  pub out : List ℕ

unfoldable pub sum : List ℕ → ℕ
sum [] = 0
sum (c ∷ cs) = c + sum cs

-- The n-th reservation, and the list without it.
unfoldable pub nth : ℕ → List ℕ → Option ℕ
nth n [] = none
nth zero (c ∷ cs) = some c
nth (suc n) (c ∷ cs) = nth n cs

unfoldable pub without : ℕ → List ℕ → List ℕ
without n [] = []
without zero (c ∷ cs) = cs
without (suc n) (c ∷ cs) = c ∷ without n cs

-- A caller reserves an estimate, commits an actual cost for the n-th reservation that is out, or releases it.
pub data Call : Type 0 where
  reserves : Option ℕ → Call
  commits : ℕ → ℕ → Call
  releases : ℕ → Call

abbrev with_reserved : List ℕ → Option ℕ → Option Exceeded × Shared → Books
with_reserved out (some cost) (none, b) = record { budget = b; out = cost ∷ out }
with_reserved out estimate (refusal, b) = record { budget = b; out = out }

-- An actual cost counts as far as it was reserved: no call costs more than its estimate.
unfoldable pub perform : Call → Books → Books
unfolding nth
perform (reserves estimate) k = with_reserved k.out estimate (reserve estimate k.budget)
perform (commits n saved) k = elim (nth n k.out) [
  | none ↦ k
  | some cost ↦ record { budget = commit (cost - saved) cost k.budget; out = without n k.out }
]
perform (releases n) k = elim (nth n k.out) [
  | none ↦ k
  | some cost ↦ record { budget = release cost k.budget; out = without n k.out }
]

unfoldable pub run : List Call → Books → Books
run [] k = k
run (c ∷ cs) k = run cs (perform c k)

pub record IsBalanced (k : Books) : Type 0 where
  pub booked : k.budget.reserved ≡ sum k.out
  pub within : k.budget.cost_micros + k.budget.reserved ≤ k.budget.max_spend_micros

sum-without :
    (n : ℕ) (out : List ℕ) (cost : ℕ) → nth n out ≡ some cost → cost + sum (without n out) ≡ sum out
unfolding sum nth without
sum-without n [] cost h = absurd (cc)
sum-without zero (c ∷ cs) cost h = grind arith
sum-without (suc n) (c ∷ cs) cost h = omega (arith, sum-without n cs cost h)

reserve-IsBalanced :
    (estimate : Option ℕ) (k : Books)
    → IsBalanced k
    → IsBalanced (with_reserved k.out estimate (reserve estimate k.budget))
unfolding reserve
reserve-IsBalanced none k h = record { booked = h.booked; within = h.within }
reserve-IsBalanced (some cost) k h =
    if_cases (λ (x : Option Exceeded × Shared). IsBalanced (with_reserved k.out (some cost) x))
      (leb k.budget.max_spend_micros (k.budget.cost_micros + k.budget.reserved)
        || ltb k.budget.max_spend_micros (k.budget.cost_micros + k.budget.reserved + cost))
      (λ _. record { booked = h.booked; within = h.within })
      (λ free. record { booked = unfold sum in omega (arith, h.booked); within = ground arith })

perform-IsBalanced : (c : Call) (k : Books) → IsBalanced k → IsBalanced (perform c k)
unfolding perform
perform-IsBalanced (reserves estimate) k h = reserve-IsBalanced estimate k h
perform-IsBalanced (commits n saved) k h =
    option_cases IsBalanced (nth n k.out) (λ _. h)
      λ cost found.
        let total = sum-without n k.out cost found in
        record {
          booked = unfold commit in omega (arith, total, h.booked);
          within = unfold commit in omega (arith, total, h.booked, h.within);
        }
perform-IsBalanced (releases n) k h =
    option_cases IsBalanced (nth n k.out) (λ _. h)
      λ cost found.
        let total = sum-without n k.out cost found in
        record {
          booked = unfold release in omega (arith, total, h.booked);
          within = unfold release in omega (arith, total, h.booked, h.within);
        }

run-IsBalanced : (calls : List Call) (k : Books) → IsBalanced k → IsBalanced (run calls k)
unfolding run
run-IsBalanced [] k h = h
run-IsBalanced (c ∷ calls) k h = run-IsBalanced calls (perform c k) (perform-IsBalanced c k h)

-- Over any interleaving of calls on a new shared budget, where each reservation is committed, at no more
-- than was reserved, or released: what is reserved is the sum of the reservations that are out, and it is
-- within the cap together with what was spent.
pub run-new_shared :
    (calls : List Call) (max_spend : ℤ)
    → let k = run calls (record { budget = new_shared max_spend; out = [] }) in
      (k.budget.reserved ≡ sum k.out)
      × (k.budget.cost_micros + k.budget.reserved ≤ k.budget.max_spend_micros)
run-new_shared calls max_spend =
    let h =
      run-IsBalanced calls (record { budget = new_shared max_spend; out = [] })
        (record {
          booked = unfold new_shared sum in refl;
          within = unfold new_shared in omega arith;
        }) in
    (h.booked, h.within)
