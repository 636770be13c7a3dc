-- ===== src/Cancellation/Token.antt =====
-- `CancellationToken`. A listener is a number; each operation says which listeners it calls, in order.
-- What an operation does under the lock is one step. A listener that raises, and so keeps the later ones from being
-- called, is not modelled: every listener returns.
use readyagents_core.Common.{
  ℕ, String, Bool, true, false, Option, none, some, List, [], ◌∷◌, ◌++◌, if◌then◌else◌,
}

pub record Token : Type 0 where
  pub is_set : Bool
  pub actor : Option String
  pub reason : Option String
  pub listeners : List ℕ

abbrev pub new : Token
new = record { is_set = false; actor = none; reason = none; listeners = [] }

-- Only the first request leaves its actor and reason, and calls the listeners.
unfoldable pub request : Option String → Option String → Token → List ℕ × Token
request actor reason t =
    if t.is_set
    then ([], t)
    else (t.listeners, record t { is_set = true; actor = actor; reason = reason })

unfoldable pub add_listener : ℕ → Token → List ℕ × Token
add_listener callback t =
    (if t.is_set then callback ∷ [] else [], record t { listeners = t.listeners ++ callback ∷ [] })

unfoldable pub clear_listeners : Token → Token
clear_listeners t = record t { listeners = [] }

-- `raise_if_requested`: nothing, or `CancellationRequested` with the reason.
unfoldable pub raise_if_requested : Token → Option (Option String)
raise_if_requested t = if t.is_set then some t.reason else none
