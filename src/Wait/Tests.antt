-- ===== src/Wait/Tests.antt =====
-- A wait for a message or a file.
use readyagents_core.Common.{
  ℕ, ◌≡◌, refl, String, true, false, Option, none, some, List, [], ◌∷◌, ◌++◌, if◌then◌else◌, str_eq,
  inl, inr,
}
use readyagents_core.Wait.Json.{Json, text, end, field}
use readyagents_core.Wait.Record.{WaitRecord, as_dict, from_dict}
use readyagents_core.Wait.Evaluation.{WaitWorld, conditions, is_past, outcome_of, evaluate_wait}
use readyagents_core.Wait.Reading.{from_dict-as_dict}
use readyagents_core.Wait.Readiness.{holds, IsOutcome, evaluate_wait-IsOutcome, evaluate_wait_stays}

abbrev shown : Json → String
shown value = "..."

abbrev zero_of : Json → ℕ
zero_of value = 0

abbrev nothing_of : Json → List String
nothing_of value = []

abbrev instant : Json → Option ℕ
instant value = none

abbrev clock : String → Option ℕ
clock s = if str_eq s "noon" then some 12 else none

abbrev for_reply : WaitRecord
for_reply = record {
  node_id = "n";
  until = "12h";
  deadline_at = "noon";
  on_deadline = "branch";
  whichever = "first";
  for_event = some (field "name" (text "reply") end);
  for_file = some (field "path" (text "out.txt") end);
  for_run = none;
  default = text "no answer";
  escalate_to = "ada" ∷ [];
  created_at = "";
  wait_record_version = 1;
  dormant_since = "";
  rebroker = true;
}

from_dict-as_dict_example : from_dict shown zero_of nothing_of (as_dict for_reply) ≡ for_reply
from_dict-as_dict_example = from_dict-as_dict shown zero_of nothing_of for_reply (record {
  on_deadline = inr (inr (inr (inl refl)));
  whichever = inl refl;
  version = refl;
  for_event = refl;
  for_file = refl;
  for_run = tt;
})

abbrev quiet : WaitWorld
quiet = record { events = []; files = []; runs = [] }

abbrev replied : WaitWorld
replied = record { events = field "name" (text "reply") end ∷ []; files = []; runs = [] }

evaluate_wait-IsOutcome_example :
    IsOutcome
      (holds false (conditions shown instant for_reply quiet))
      (is_past (clock "noon") 13)
      for_reply
      (conditions shown instant for_reply quiet)
      (evaluate_wait shown instant clock for_reply 13 quiet)
evaluate_wait-IsOutcome_example = evaluate_wait-IsOutcome shown instant clock for_reply 13 quiet

evaluate_wait_stays_example :
    (evaluate_wait shown instant clock for_reply 20 (record replied {
      events = replied.events ++ field "name" (text "other") end ∷ [];
    })).satisfied
    ≡ true
unfolding evaluate_wait outcome_of
evaluate_wait_stays_example =
    evaluate_wait_stays shown instant clock for_reply 3 20 replied
      (field "name" (text "other") end ∷ []) refl
