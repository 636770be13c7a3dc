-- ===== src/Cancellation/Tests.antt =====
-- Tokens and sleeps at concrete inputs.
use readyagents_core.Common.{◌≡◌, refl, none, some, List, [], ◌∷◌}
use readyagents_core.Cancellation.Token.{new, request, add_listener, raise_if_requested}
use readyagents_core.Cancellation.Listeners.{
  Call, requests, adds, run, added, first_reason, listeners_called_once,
}
use readyagents_core.Cancellation.Sleep.{
  slept, cancelled, cancellable_sleep, sleep_with, sleep_loop, raise_or_end,
}
use readyagents_core.Cancellation.Naps.{nap_of, cancellable_sleep-nap_of}

abbrev two_requests : List Call
two_requests =
    adds 1 ∷ requests (some "ada") (some "stop") ∷ adds 2 ∷ requests none (some "again") ∷ []

first_wins : (run two_requests new).0 ≡ 1 ∷ 2 ∷ []
unfolding run request add_listener
first_wins = refl

listeners_called_once_example :
    ((run two_requests new).0 ≡ 1 ∷ 2 ∷ [])
    × (raise_if_requested (run two_requests new).1 ≡ some (some "stop"))
unfolding added first_reason
listeners_called_once_example = listeners_called_once two_requests

stops_at_the_request : cancellable_sleep 200 (some (some 120)) 0 ≡ (cancelled, 120)
unfolding cancellable_sleep sleep_with sleep_loop raise_or_end
stops_at_the_request = refl

sleeps_on : cancellable_sleep 200 (some (some 320)) 10 ≡ (slept, 210)
unfolding cancellable_sleep sleep_with sleep_loop raise_or_end
sleeps_on = refl

cancellable_sleep-nap_of_example :
    cancellable_sleep 200 (some (some 120)) 0 ≡ nap_of (some 120) 0 200
cancellable_sleep-nap_of_example = cancellable_sleep-nap_of 200 0 (some 120)
