-- ===== src/Cancellation/Listeners.antt =====
-- Whom a token has called, over any requests and registrations.
use mathlib.Core.List.{append_assoc}
use readyagents_core.Common.{
  ℕ, ◌≡◌, refl, ◌∙◌, String, Bool, true, false, Option, none, some, List, [], ◌∷◌, ◌++◌,
  if◌then◌else◌,
}
use readyagents_core.Cancellation.Token.{Token, new, request, add_listener, raise_if_requested}

pub data Call : Type 0 where
  requests : Option String → Option String → Call
  adds : ℕ → Call

abbrev pub perform : Call → Token → List ℕ × Token
perform (requests actor reason) t = request actor reason t
perform (adds callback) t = add_listener callback t

-- The listeners called and the token, after some calls.
unfoldable pub run : List Call → Token → List ℕ × Token
run [] t = ([], t)
run (c ∷ cs) t = let later = run cs (perform c t).1 in ((perform c t).0 ++ later.0, later.1)

-- All that were registered, in order.
unfoldable pub added : List Call → List ℕ
added [] = []
added (requests actor reason ∷ cs) = added cs
added (adds callback ∷ cs) = callback ∷ added cs

-- The first request's reason, if there was a request.
unfoldable pub first_reason : List Call → Option (Option String)
first_reason [] = none
first_reason (requests actor reason ∷ cs) = some reason
first_reason (adds callback ∷ cs) = first_reason cs

abbrev pub is_requested : List Call → Bool
is_requested cs = elim (first_reason cs) [ none ↦ false | some reason ↦ true ]

abbrev set_token : Option String → Option String → List ℕ → Token
set_token actor reason listeners = record {
  is_set = true;
  actor = actor;
  reason = reason;
  listeners = listeners;
}

abbrev unset_token : List ℕ → Token
unset_token listeners = record {
  is_set = false;
  actor = none;
  reason = none;
  listeners = listeners;
}

run-set_token :
    (cs : List Call) (actor reason : Option String) (listeners : List ℕ)
    → let x = run cs (set_token actor reason listeners) in
      (x.0 ≡ added cs) × (raise_if_requested x.1 ≡ some reason)
unfolding run added request add_listener raise_if_requested
run-set_token [] actor reason listeners = (refl, refl)
run-set_token (requests a r ∷ cs) actor reason listeners = run-set_token cs actor reason listeners
run-set_token (adds callback ∷ cs) actor reason listeners =
    let later = run-set_token cs actor reason (listeners ++ callback ∷ []) in (rw later.0, later.1)

run-unset_token :
    (cs : List Call) (listeners : List ℕ)
    → let x = run cs (unset_token listeners) in
      (x.0 ≡ (if is_requested cs then listeners ++ added cs else []))
      × (raise_if_requested x.1 ≡ first_reason cs)
unfolding run added first_reason request add_listener raise_if_requested
run-unset_token [] listeners = (refl, refl)
run-unset_token (requests actor reason ∷ cs) listeners =
    let later = run-set_token cs actor reason listeners in (rw later.0, later.1)
run-unset_token (adds callback ∷ cs) listeners =
    let later = run-unset_token cs (listeners ++ callback ∷ []) in
    (later.0 ∙ rw (append_assoc listeners (callback ∷ []) (added cs)), later.1)

-- Of a new token, over any requests and registrations in any order: if there was a request, every
-- listener has been called exactly once for each time it was registered, in the order of registration,
-- before and after the request alike; and if there was none, none has been called. The token then raises
-- exactly if there was a request, with the reason of the first.
pub listeners_called_once :
    (cs : List Call)
    → ((run cs new).0 ≡ (if is_requested cs then added cs else []))
      × (raise_if_requested (run cs new).1 ≡ first_reason cs)
listeners_called_once cs = run-unset_token cs []
