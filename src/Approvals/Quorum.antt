-- ===== src/Approvals/Quorum.antt =====
-- What an approved gate has seen.
use readyagents_core.Common.{
  ℕ, ◌≤◌, ◌≡◌, refl, ap, String, Bool, true, false, not, ◌&&◌, ◌||◌, Option, List, [], ◌∷◌, map,
  str_eq, leb, leb→le, length, filter, any, all, contains, All, if_cases, eq_iff, arith,
}
use readyagents_core.Delegation.Store.{normalize_actor}
use readyagents_core.Approvals.Gate.{
  Vote, GateStatus, approved, rejected, expired, escalated, is_given, on_expire_of, GateOutcome,
  PauseState, has_decision, unique_votes, counted, has_reject, lacks_role, is_expired, on_expiry,
  by_votes, evaluate_gate,
}

abbrev AreDistinct : List String → Type 0
AreDistinct [] = Unit
AreDistinct (key ∷ keys) = (contains key keys ≡ false) × AreDistinct keys

abbrev keys_of : List Vote → List String
keys_of votes = map (λ v. normalize_actor v.actor) votes

abbrev votes_as : String → Vote → Bool
votes_as key v = str_eq (normalize_actor v.actor) key

-- Some vote of this actor approves.
abbrev pub HasApproved : List Vote → String → Type 0
HasApproved votes key = any (λ v. has_decision "approve" v && votes_as key v) votes ≡ true

not_among :
    (key : String) (seen keys : List String)
    → All (λ k. contains k (key ∷ seen) ≡ false) keys
    → contains key keys ≡ false
unfolding contains
not_among key seen [] all = refl
not_among key seen (k ∷ keys) all =
    ground (arith, not_among key seen keys all.1, all.0, eq_iff k key, eq_iff key k)

not_seen :
    (key : String) (seen keys : List String)
    → All (λ k. contains k (key ∷ seen) ≡ false) keys
    → All (λ k. contains k seen ≡ false) keys
unfolding contains
not_seen key seen [] all = tt
not_seen key seen (k ∷ keys) all = (ground (arith, all.0), not_seen key seen keys all.1)

abbrev NewKeys : List String → List Vote → Type 0
NewKeys seen votes =
    AreDistinct (keys_of votes) × All (λ k. contains k seen ≡ false) (keys_of votes)

unique_votes-NewKeys :
    (seen : List String) (votes : List Vote) → NewKeys seen (unique_votes seen votes)
unfolding unique_votes
unique_votes-NewKeys seen [] = (tt, tt)
unique_votes-NewKeys seen (vote ∷ votes) =
    let key = normalize_actor vote.actor in
    let later = unique_votes-NewKeys (key ∷ seen) votes in
    let keys = keys_of (unique_votes (key ∷ seen) votes) in
    if_cases (NewKeys seen) (contains key seen) (λ _. unique_votes-NewKeys seen votes)
      (λ is_new.
        ((not_among key seen keys later.1, later.0), (is_new, not_seen key seen keys later.1)))

-- Each key that is kept is that of a vote.
abbrev AreFrom : List Vote → List Vote → Type 0
AreFrom votes kept = All (λ key. any (votes_as key) votes ≡ true) (keys_of kept)

weaken :
    (vote : Vote) (votes : List Vote) (keys : List String)
    → All (λ key. any (votes_as key) votes ≡ true) keys
    → All (λ key. any (votes_as key) (vote ∷ votes) ≡ true) keys
unfolding any
weaken vote votes [] all = tt
weaken vote votes (key ∷ keys) all = (ground (arith, all.0), weaken vote votes keys all.1)

unique_votes-AreFrom :
    (seen : List String) (votes : List Vote) → AreFrom votes (unique_votes seen votes)
unfolding unique_votes any
unique_votes-AreFrom seen [] = tt
unique_votes-AreFrom seen (vote ∷ votes) =
    let key = normalize_actor vote.actor in
    if_cases (AreFrom (vote ∷ votes)) (contains key seen)
      (λ _. weaken vote votes _ (unique_votes-AreFrom seen votes))
      (λ _. (
        ground (arith, eq_iff key key),
        weaken vote votes _ (unique_votes-AreFrom (key ∷ seen) votes),
      ))

any-filter :
    (key : String) (votes : List Vote)
    → any (votes_as key) (filter (has_decision "approve") votes) ≡ true
    → HasApproved votes key
unfolding any filter
any-filter key [] h = h
any-filter key (vote ∷ votes) h = ground (arith, any-filter key votes, h)

All-filter :
    (votes : List Vote) (keys : List String)
    → All (λ key. any (votes_as key) (filter (has_decision "approve") votes) ≡ true) keys
    → All (HasApproved votes) keys
All-filter votes [] all = tt
All-filter votes (key ∷ keys) all = (any-filter key votes all.0, All-filter votes keys all.1)

length-keys_of : (votes : List Vote) → length (keys_of votes) ≡ length votes
length-keys_of [] = refl
length-keys_of (v ∷ votes) = omega (arith, length-keys_of votes)

-- As many different actors as are required have a vote that approves.
pub record HasQuorum (pause : PauseState) : Type 0 where
  pub actors : List String
  pub are_distinct : AreDistinct actors
  pub have_approved : All (HasApproved pause.approvals_received) actors
  pub enough : pause.approvals_required ≤ length actors

counted-HasQuorum :
    (pause : PauseState)
    → pause.distinct_actors ≡ true
    → pause.approvals_required ≤ length (counted pause)
    → HasQuorum pause
unfolding counted
counted-HasQuorum pause distinct enough =
    let approves = filter (has_decision "approve") pause.approvals_received in
    let kept = unique_votes [] approves in
    let same : counted pause ≡ kept = rw distinct refl in
    record {
      actors = keys_of kept;
      are_distinct = (unique_votes-NewKeys [] approves).0;
      have_approved =
          All-filter pause.approvals_received (keys_of kept) (unique_votes-AreFrom [] approves);
      enough = omega (arith, enough, ap (λ votes. length votes) same, length-keys_of kept);
    }

-- What the votes of an approved gate are like.
pub record IsAgreed (pause : PauseState) : Type 0 where
  pub no_reject : (has_reject pause && pause.reject_short_circuit) ≡ false
  pub has_roles : lacks_role pause ≡ false
  pub enough : pause.approvals_required ≤ length (counted pause)

module _ (parse_clock : String → Option ℕ) where
  by_votes-IsAgreed :
      (pause : PauseState) (stamp : ℕ)
      → (by_votes parse_clock pause stamp).status ≡ approved
      → IsAgreed pause
  unfolding by_votes
  by_votes-IsAgreed pause stamp =
      let P : GateOutcome → Type 0 = λ o. o.status ≡ approved → IsAgreed pause in
      if_cases P (has_reject pause && pause.reject_short_circuit) (λ _ h. absurd (cc))
        λ no_reject.
          if_cases P (lacks_role pause)
            (λ _.
              if_cases P (has_reject pause && not pause.reject_short_circuit) (λ _ h. absurd (cc))
                (λ _ h. absurd (cc)))
            λ has_roles.
              if_cases P (leb pause.approvals_required (length (counted pause)))
                (λ enough h. record {
                  no_reject = no_reject;
                  has_roles = has_roles;
                  enough = leb→le pause.approvals_required (length (counted pause)) enough;
                })
                (λ _.
                  if_cases P
                    (has_reject pause
                      && not pause.reject_short_circuit
                      && leb pause.approvals_required (length pause.approvals_received))
                    (λ _ h. absurd (cc)) (λ _ h. absurd (cc)))

  -- A rule for what the expiry of a gate comes to.
  pub on_expiry-rule :
      (P : GateStatus → Type 0) (pause : PauseState)
      → P escalated
      → P expired
      → P rejected
      → P (on_expiry parse_clock pause)
  unfolding on_expiry
  on_expiry-rule P pause again over refused =
      let action = on_expire_of pause.on_expire in
      if_cases P (str_eq action "escalate" && not (is_given pause.escalated_at)) (λ _. again)
        (λ _.
          if_cases P
            (str_eq action "fail" || str_eq action "escalate" && is_given pause.escalated_at)
            (λ _. over) (λ _. refused))

  -- A gate that counts each actor once is approved only if it is not expired, or its expiry is ignored, no
  -- vote rejects where one is enough to reject, each role that is needed has a vote, and as many different
  -- actors as are required have a vote that approves.
  pub evaluate_gate-HasQuorum :
      (pause : PauseState) (stamp : ℕ) (ignore_expiry : Bool)
      → pause.distinct_actors ≡ true
      → (evaluate_gate parse_clock pause stamp ignore_expiry).status ≡ approved
      → (is_expired parse_clock pause stamp ignore_expiry ≡ false)
        × IsAgreed pause
        × HasQuorum pause
  unfolding evaluate_gate
  evaluate_gate-HasQuorum pause stamp ignore_expiry distinct =
      let Goal : Type 0 =
        (is_expired parse_clock pause stamp ignore_expiry ≡ false)
        × IsAgreed pause
        × HasQuorum pause in
      if_cases (λ (o : GateOutcome). o.status ≡ approved → Goal)
        (is_expired parse_clock pause stamp ignore_expiry)
        (λ _.
          on_expiry-rule (λ status. status ≡ approved → Goal) pause (λ h. absurd (cc))
            (λ h. absurd (cc)) (λ h. absurd (cc)))
        (λ open_ h.
          let agreed = by_votes-IsAgreed pause stamp h in
          (open_, agreed, counted-HasQuorum pause distinct agreed.enough))
