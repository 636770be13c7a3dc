-- ===== src/Approvals/Expiry.antt =====
-- What becomes of a gate that nobody answers.
use readyagents_core.Common.{
  ℕ, ◌≤◌, ◌≡◌, ◌≢◌, refl, sym, ◌∙◌, String, true, false, Option, none, some, List, arith,
}
use readyagents_core.Approvals.Gate.{
  pending, approved, expired, escalated, PauseState, is_given, on_expire_of, reached, is_expired,
  on_expiry, by_votes, evaluate_gate, apply_escalation,
}
use readyagents_core.Approvals.Quorum.{on_expiry-rule}

module _ (parse_clock : String → Option ℕ) (format_clock : ℕ → String) where
  evaluate_gate-on_expiry :
      (pause : PauseState) (stamp : ℕ)
      → is_expired parse_clock pause stamp false ≡ true
      → (evaluate_gate parse_clock pause stamp false).status ≡ on_expiry parse_clock pause
  unfolding evaluate_gate
  evaluate_gate-on_expiry pause stamp over = rw over refl

  -- Once a gate has expired its votes are not looked at: it is neither approved nor pending.
  pub evaluate_gate_expired :
      (pause : PauseState) (stamp : ℕ)
      → is_expired parse_clock pause stamp false ≡ true
      → ((evaluate_gate parse_clock pause stamp false).status ≢ approved)
        × ((evaluate_gate parse_clock pause stamp false).status ≢ pending)
  evaluate_gate_expired pause stamp over =
      let same = evaluate_gate-on_expiry pause stamp over in
      (
        λ h.
            on_expiry-rule parse_clock (λ status. status ≢ approved) pause (λ e. absurd (cc))
              (λ e. absurd (cc)) (λ e. absurd (cc)) (sym same ∙ h),
        λ h.
            on_expiry-rule parse_clock (λ status. status ≢ pending) pause (λ e. absurd (cc))
              (λ e. absurd (cc)) (λ e. absurd (cc)) (sym same ∙ h),
      )

  reached_later :
      (at : Option ℕ) (now later : ℕ)
      → now ≤ later
      → reached at now ≡ true
      → reached at later ≡ true
  reached_later none now later order h = h
  reached_later (some at) now later order h = ground (arith, order, h)

  expired_later :
      (pause : PauseState) (now later : ℕ) (targets : List String)
      → now ≤ later
      → is_expired parse_clock pause now false ≡ true
      → is_expired parse_clock (apply_escalation format_clock pause now targets) later false ≡ true
  unfolding is_expired apply_escalation
  expired_later pause now later targets order h =
      reached_later (parse_clock pause.expires_at) now later order h

  -- The votes are never what makes a gate expire or escalate.
  by_votes-status :
      (pause : PauseState) (stamp : ℕ)
      → ((by_votes parse_clock pause stamp).status ≢ expired)
        × ((by_votes parse_clock pause stamp).status ≢ escalated)
  unfolding by_votes
  by_votes-status pause stamp = (λ h. ground (arith, h), λ h. ground (arith, h))

  ignoring_expiry :
      (pause : PauseState) (stamp : ℕ)
      → evaluate_gate parse_clock pause stamp true ≡ by_votes parse_clock pause stamp
  unfolding evaluate_gate is_expired
  ignoring_expiry pause stamp = refl

  -- A gate that escalates when it expires does so once: it is escalated, and from then on, since the
  -- escalation leaves its deadline as it was, it is expired whenever it is asked with its expiry in force. The touch
  -- that escalated it ignores the expiry: what it finds is decided by the votes, for the roles that the gate was escalated to,
  -- and is neither expired nor escalated.
  pub evaluate_gate-apply_escalation :
      (pause : PauseState) (now later : ℕ) (targets : List String)
      → now ≤ later
      → on_expire_of pause.on_expire ≡ "escalate"
      → is_given pause.escalated_at ≡ false
      → is_given (format_clock now) ≡ true
      → is_expired parse_clock pause now false ≡ true
      → let after = apply_escalation format_clock pause now targets in
        let touched = evaluate_gate parse_clock after later true in
        ((evaluate_gate parse_clock pause now false).status ≡ escalated)
        × ((evaluate_gate parse_clock after later false).status ≡ expired)
        × (touched ≡ by_votes parse_clock after later)
        × (after.approver_roles ≡ targets)
        × (touched.status ≢ expired)
        × (touched.status ≢ escalated)
  unfolding on_expiry apply_escalation
  evaluate_gate-apply_escalation pause now later targets order action first written over =
      let after = apply_escalation format_clock pause now targets in
      let votes = by_votes-status after later in
      (
        evaluate_gate-on_expiry pause now over ∙ rw (action, first) refl,
        evaluate_gate-on_expiry after later (expired_later pause now later targets order over)
            ∙ rw (action, written) refl,
        ignoring_expiry after later,
        refl,
        rw (ignoring_expiry after later) (votes.0),
        rw (ignoring_expiry after later) (votes.1),
      )
