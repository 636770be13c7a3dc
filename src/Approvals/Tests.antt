-- ===== src/Approvals/Tests.antt =====
-- A gate that wants two approvals, and one that nobody answers.
use readyagents_core.Common.{
  ℕ, ◌≡◌, ◌≢◌, refl, String, true, false, Option, none, some, [], ◌∷◌, if◌then◌else◌, str_eq, arith,
}
use readyagents_core.Approvals.Gate.{
  Vote, expired, escalated, PauseState, on_expire_of, counted, is_expired, by_votes, evaluate_gate,
  apply_escalation,
}
use readyagents_core.Approvals.Quorum.{IsAgreed, HasQuorum, evaluate_gate-HasQuorum}
use readyagents_core.Approvals.Expiry.{evaluate_gate-apply_escalation}

abbrev clock : String → Option ℕ
clock s = if str_eq s "noon" then some 12 else none

abbrev written : ℕ → String
written now = "noon"

abbrev approves : String → Vote
approves actor = record { actor = actor; decision = "approve"; role = "" }

abbrev unanswered : PauseState
unanswered = record {
  approvals_required = 2;
  approvals_received = [];
  distinct_actors = true;
  deny_actor = [];
  approver_roles = [];
  require = "any";
  eligible_actors = [];
  expires_at = "noon";
  on_expire = "escalate";
  escalated_to = [];
  paused_at = "";
  reject_short_circuit = true;
  escalated_at = "";
}

abbrev answered : PauseState
answered = record unanswered {
  approvals_received = approves "ada" ∷ approves " Ada" ∷ approves "bob" ∷ [];
}

evaluate_gate-HasQuorum_example :
    (is_expired clock answered 3 false ≡ false) × IsAgreed answered × HasQuorum answered
unfolding evaluate_gate counted
evaluate_gate-HasQuorum_example = evaluate_gate-HasQuorum clock answered 3 false refl refl

evaluate_gate-apply_escalation_example :
    let after = apply_escalation written unanswered 13 ("boss" ∷ []) in
    let touched = evaluate_gate clock after 14 true in
    ((evaluate_gate clock unanswered 13 false).status ≡ escalated)
    × ((evaluate_gate clock after 14 false).status ≡ expired)
    × (touched ≡ by_votes clock after 14)
    × (after.approver_roles ≡ "boss" ∷ [])
    × (touched.status ≢ expired)
    × (touched.status ≢ escalated)
unfolding is_expired on_expire_of apply_escalation
evaluate_gate-apply_escalation_example =
    evaluate_gate-apply_escalation clock written unanswered 13 14 ("boss" ∷ []) (omega arith) refl
      refl refl refl
