-- ===== src/Routing/Matching.antt =====
-- When a rule matches a node, without the code's test: every condition that is given is met. And the first
-- rule of a list that does.
use readyagents_core.Common.{
  ◌≡◌, refl, ◌↔◌, String, true, false, ◌||◌, ◌&&◌, Bool, Option, none, some, List, ◌∷◌, ◌⊎◌, arith,
  eq_iff, str_eq, contains,
}
use readyagents_core.Routing.Rules.{
  Taint, trusted, untrusted, indeterminate, RouteMatch, RouteRule, Node, rule_matches,
  effective_untrusted, wants_taint,
}

-- Untrusted and indeterminate data are both taken for untrusted.
abbrev pub IsTainted : Taint → Type 0
IsTainted trusted = ⊥
IsTainted untrusted = Unit
IsTainted indeterminate = Unit

abbrev pub MeetsTaint : Option Bool → Taint → Type 0
MeetsTaint none taint = Unit
MeetsTaint (some true) taint = IsTainted taint
MeetsTaint (some false) taint = ¬ IsTainted taint

-- The node, the tag and the role that a rule names are those of the node, and its taint is that of the data.
abbrev pub Matches : Node → Taint → Option RouteMatch → Type 0
Matches node taint none = Unit
Matches node taint (some m) =
    ((m.node ≡ "") ⊎ (m.node ≡ node.id))
    × ((m.node_tag ≡ "") ⊎ (contains m.node_tag node.tags ≡ true))
    × ((m.role ≡ "") ⊎ (m.role ≡ node.role))
    × MeetsTaint m.taint taint

-- `rule` is the first of the rules that matches.
pub data FirstMatch (node : Node) (taint : Taint) (rule : RouteRule) : List RouteRule → Type 0 where
  here :
      {rules : List RouteRule}
      → Matches node taint rule.matching
      → FirstMatch node taint rule (rule ∷ rules)
  later :
      {other : RouteRule} {rules : List RouteRule}
      → ¬ Matches node taint other.matching
      → FirstMatch node taint rule rules
      → FirstMatch node taint rule (other ∷ rules)

wants_taint-MeetsTaint :
    (wanted : Option Bool) (taint : Taint)
    → wants_taint wanted taint ≡ true
    → MeetsTaint wanted taint
unfolding effective_untrusted
wants_taint-MeetsTaint none taint h = tt
wants_taint-MeetsTaint (some true) trusted h = absurd (cc)
wants_taint-MeetsTaint (some true) untrusted h = tt
wants_taint-MeetsTaint (some true) indeterminate h = tt
wants_taint-MeetsTaint (some false) trusted h = λ bad. bad
wants_taint-MeetsTaint (some false) untrusted h = absurd (cc)
wants_taint-MeetsTaint (some false) indeterminate h = absurd (cc)

MeetsTaint-wants_taint :
    (wanted : Option Bool) (taint : Taint)
    → MeetsTaint wanted taint
    → wants_taint wanted taint ≡ true
unfolding effective_untrusted
MeetsTaint-wants_taint none taint h = refl
MeetsTaint-wants_taint (some true) trusted h = absurd h
MeetsTaint-wants_taint (some true) untrusted h = refl
MeetsTaint-wants_taint (some true) indeterminate h = refl
MeetsTaint-wants_taint (some false) trusted h = refl
MeetsTaint-wants_taint (some false) untrusted h = absurd (h tt)
MeetsTaint-wants_taint (some false) indeterminate h = absurd (h tt)

wants-given :
    (field : String) (b : Bool) {C : Type 0}
    → ((b ≡ true) ↔ C)
    → ((str_eq field "" || b) ≡ true) ↔ ((field ≡ "") ⊎ C)
wants-given field b same = ground (arith, eq_iff field "", same)

all_four :
    (a b c d : Bool) {A B C D : Type 0}
    → (a ≡ true) ↔ A
    → (b ≡ true) ↔ B
    → (c ≡ true) ↔ C
    → (d ≡ true) ↔ D
    → ((a && b && c && d) ≡ true) ↔ (A × B × C × D)
all_four a b c d p q r s = ground (arith, p, q, r, s)

met :
    (matching : Option RouteMatch) (node : Node) (taint : Taint)
    → (elim matching as (λ _. Bool) [
      | none ↦ true
      | some m ↦
          (str_eq m.node "" || str_eq m.node node.id)
          && (str_eq m.node_tag "" || contains m.node_tag node.tags)
          && (str_eq m.role "" || str_eq m.role node.role)
          && wants_taint m.taint taint
    ]
        ≡ true)
      ↔ Matches node taint matching
met none node taint = (λ _. tt, λ _. refl)
met (some m) node taint =
    all_four _ _ _ _ (wants-given m.node _ (eq_iff m.node node.id))
      (wants-given m.node_tag _ (λ h. h, λ h. h)) (wants-given m.role _ (eq_iff m.role node.role))
      (wants_taint-MeetsTaint m.taint taint, MeetsTaint-wants_taint m.taint taint)

pub rule_matches-Matches :
    (rule : RouteRule) (node : Node) (taint : Taint)
    → (rule_matches rule node taint ≡ true) ↔ Matches node taint rule.matching
unfolding rule_matches
rule_matches-Matches rule node taint = met rule.matching node taint
