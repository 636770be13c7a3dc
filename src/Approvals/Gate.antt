-- ===== src/Approvals/Gate.antt =====
-- `evaluate_gate`, `actor_is_eligible` and `apply_escalation`. Instants are natural numbers; a text that is
-- missing is the empty one. `parse_clock` reads a time stamp and `format_clock` writes one.
use Prim.Native.String.{◌++◌ as concat}
use readyagents_core.Common.{
  ℕ, ◌-◌, String, Bool, true, false, not, ◌&&◌, ◌||◌, Option, none, some, List, [], ◌∷◌, map,
  if◌then◌else◌, str_eq, leb, strip, lower, length, filter, any, all, contains,
}
use readyagents_core.Delegation.Store.{normalize_actor}

pub record Vote : Type 0 where
  pub actor : String
  pub decision : String
  pub role : String

pub data GateStatus : Type 0 where
  pending : GateStatus
  approved : GateStatus
  rejected : GateStatus
  expired : GateStatus
  escalated : GateStatus

pub record GateOutcome : Type 0 where
  pub status : GateStatus
  pub reason : String
  pub elapsed_seconds : Option ℕ
  pub expires_at : String

pub record PauseState : Type 0 where
  pub approvals_required : ℕ
  pub approvals_received : List Vote
  pub distinct_actors : Bool
  pub deny_actor : List String
  pub approver_roles : List String
  pub require : String
  pub eligible_actors : List String
  pub expires_at : String
  pub on_expire : String
  pub escalated_to : List String
  pub paused_at : String
  pub reject_short_circuit : Bool
  pub escalated_at : String

abbrev pub is_given : String → Bool
is_given s = not (str_eq s "")

abbrev on_expire_names : List String
on_expire_names = "reject" ∷ "fail" ∷ "escalate" ∷ []

unfoldable pub on_expire_of : String → String
unfolding contains strip lower
on_expire_of s =
    let action = lower (strip (if str_eq s "" then "reject" else s)) in
    if contains action on_expire_names then action else "reject"

abbrev pub has_decision : String → Vote → Bool
has_decision decision vote = str_eq vote.decision decision

-- The votes of actors that are not among those seen, the first of each actor.
unfoldable pub unique_votes : List String → List Vote → List Vote
unfolding normalize_actor contains
unique_votes seen [] = []
unique_votes seen (vote ∷ votes) =
    let key = normalize_actor vote.actor in
    let without = unique_votes seen votes in
    let later = unique_votes (key ∷ seen) votes in
    if contains key seen then without else vote ∷ later

unfoldable pub counted : PauseState → List Vote
unfolding filter unique_votes
counted pause =
    let approves = filter (has_decision "approve") pause.approvals_received in
    if pause.distinct_actors then unique_votes [] approves else approves

abbrev is_some_vote : List Vote → Bool
is_some_vote [] = false
is_some_vote (vote ∷ votes) = true

unfoldable pub has_reject : PauseState → Bool
unfolding filter
has_reject pause = is_some_vote (filter (has_decision "reject") pause.approvals_received)

-- The role under which a vote counts.
abbrev vote_role : Vote → String
vote_role vote = normalize_actor (if str_eq vote.role "" then vote.actor else vote.role)

abbrev is_some_name : List String → Bool
is_some_name [] = false
is_some_name (name ∷ names) = true

-- `need.issubset(have)`.
unfoldable pub has_roles : List String → List Vote → Bool
unfolding all contains normalize_actor
has_roles roles votes = all (λ role. contains (normalize_actor role) (map vote_role votes)) roles

unfoldable pub lacks_role : PauseState → Bool
unfolding has_roles counted
lacks_role pause =
    str_eq pause.require "all"
    && is_some_name pause.approver_roles
    && not (has_roles pause.approver_roles (counted pause))

abbrev pub reached : Option ℕ → ℕ → Bool
reached none stamp = false
reached (some expires_at) stamp = leb expires_at stamp

module _ (parse_clock : String → Option ℕ) where
  abbrev seconds_since : ℕ → Option ℕ → Option ℕ
  seconds_since stamp none = none
  seconds_since stamp (some paused_at) = some (stamp - paused_at)

  abbrev pub outcome : PauseState → ℕ → GateStatus → String → GateOutcome
  outcome pause stamp status reason = record {
    status = status;
    reason = reason;
    elapsed_seconds = seconds_since stamp (parse_clock pause.paused_at);
    expires_at = pause.expires_at;
  }

  unfoldable pub is_expired : PauseState → ℕ → Bool → Bool
  is_expired pause stamp ignore_expiry =
      not ignore_expiry && reached (parse_clock pause.expires_at) stamp

  unfoldable pub on_expiry : PauseState → GateStatus
  unfolding on_expire_of
  on_expiry pause =
      let action = on_expire_of pause.on_expire in
      if str_eq action "escalate" && not (is_given pause.escalated_at)
      then escalated
      else if str_eq action "fail" || str_eq action "escalate" && is_given pause.escalated_at
      then expired
      else rejected

  -- What the votes come to before the gate expires.
  unfoldable pub by_votes : PauseState → ℕ → GateOutcome
  unfolding has_reject lacks_role counted
  by_votes pause stamp =
      if has_reject pause && pause.reject_short_circuit
      then outcome pause stamp rejected "rejected"
      else if lacks_role pause
      then (if has_reject pause && not pause.reject_short_circuit
          then outcome pause stamp rejected "rejected"
          else outcome pause stamp pending "")
      else if leb pause.approvals_required (length (counted pause))
      then outcome pause stamp approved ""
      else if has_reject pause
          && not pause.reject_short_circuit
          && leb pause.approvals_required (length pause.approvals_received)
      then outcome pause stamp rejected "rejected"
      else outcome pause stamp pending ""

  unfoldable pub evaluate_gate : PauseState → ℕ → Bool → GateOutcome
  unfolding is_expired on_expiry by_votes
  evaluate_gate pause stamp ignore_expiry =
      if is_expired pause stamp ignore_expiry
      then outcome pause stamp (on_expiry pause) "expired"
      else by_votes pause stamp

unfoldable pub eligible_labels : List String → List String
eligible_labels [] = "*" ∷ []
eligible_labels (role ∷ roles) = map (λ name. concat "role:" name) (role ∷ roles)

abbrev is_everyone : List String → Bool
is_everyone (label ∷ []) = str_eq label "*"
is_everyone labels = false

abbrev add_role : String → List String → List String
add_role role held = if str_eq role "" then held else normalize_actor role ∷ held

unfoldable pub actor_is_eligible : String → PauseState → List String → String → Bool
unfolding normalize_actor contains any
actor_is_eligible actor pause roles delegated_role =
    let norm = normalize_actor actor in
    let held = norm ∷ add_role delegated_role (map normalize_actor roles) in
    if str_eq norm ""
    then false
    else if contains norm (map normalize_actor pause.deny_actor)
    then false
    else if not (is_some_name pause.approver_roles) || is_everyone pause.eligible_actors
    then true
    else any (λ name. contains name (map normalize_actor pause.approver_roles)) held

unfoldable pub apply_escalation : (ℕ → String) → PauseState → ℕ → List String → PauseState
unfolding eligible_labels
apply_escalation format_clock pause now targets = record pause {
  escalated_to = targets;
  escalated_at = format_clock now;
  eligible_actors = eligible_labels targets;
  approver_roles = targets;
}
