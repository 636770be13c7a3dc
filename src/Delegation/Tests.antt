-- ===== src/Delegation/Tests.antt =====
-- A store with one delegation.
use readyagents_core.Common.{
  ◌≡◌, refl, false, none, some, [], ◌∷◌, contains, strip, lower, All, eq_iff, arith,
}
use readyagents_core.Delegation.Store.{
  Delegation, normalize_actor, is_active, serves, first_serving, find_delegation, wanted_roles,
  conflict, first_conflict, add_delegation, same_scope,
}
use readyagents_core.Delegation.Finding.{
  Finds, find_delegation-Finds, IsNoChain, add_delegation-IsNoChain,
}

abbrev from_ada : Delegation
from_ada = record {
  id = "d1";
  from_actor = "Ada";
  to_actor = "Bob";
  until = some 100;
  scope = some "legal";
  revoked = false;
}

found : find_delegation " BOB" ("Legal" ∷ []) 50 (from_ada ∷ []) ≡ some from_ada
unfolding find_delegation first_serving serves is_active normalize_actor wanted_roles contains strip
    lower
found = refl

find_delegation-Finds_example :
    Finds "bob"
      ("legal" ∷ [])
      50
      (from_ada ∷ [])
      (find_delegation " BOB" ("Legal" ∷ []) 50 (from_ada ∷ []))
unfolding normalize_actor wanted_roles lower strip
find_delegation-Finds_example =
    find_delegation-Finds " BOB" ("Legal" ∷ []) 50 (from_ada ∷ [])
      (λ h. ground (arith, eq_iff "bob" ""))

accepted : (add_delegation "d2" "Cleo" "Bob" (some 90) none 50 (from_ada ∷ [])).0 ≡ none
unfolding add_delegation first_conflict conflict is_active normalize_actor same_scope strip lower
accepted = refl

add_delegation-IsNoChain_example : All (IsNoChain "cleo" 50) (from_ada ∷ [])
unfolding normalize_actor lower strip
add_delegation-IsNoChain_example =
    add_delegation-IsNoChain "d2" "Cleo" "Bob" (some 90) none 50 (from_ada ∷ []) accepted
