-- ===== src/Events/Tests.antt =====
-- The event bus at concrete messages.
use fastapi_asyncpg_template.Base.{
  ℕ, String, some, none, List, [], ◌∷◌, ◌++◌, ◌≡◌, ◌==◌, refl, str_eq, if◌then◌else◌, arith,
}
use fastapi_asyncpg_template.Events.Bus.{
  Event, LockKey, LockKey-discrete, LockValue, Message, Subscribers, subscribe, BusState,
  BusServices, handle_messages,
}
use fastapi_asyncpg_template.Events.Dispatch.{runs_of, pairs}
use fastapi_asyncpg_template.Events.Once.{ids, handle_messages-once}
use fastapi_asyncpg_template.Redis.{Memory, in_memory}

abbrev created : Event
created = record { event_id = 1; event_name = "user.created" }

abbrev changed : Event
changed = record { event_id = 2; event_name = "user.password_changed" }

-- The handler 11 raises.
abbrev services : BusServices
services = record {
  redis = in_memory LockKey-discrete;
  parse = λ s.
      if str_eq s "created"
      then some created
      else (if str_eq s "changed" then some changed else none);
  raises = λ h e. h == 11;
}

abbrev subscribers : Subscribers
subscribers = ("user.created", 11 ∷ 12 ∷ []) ∷ ("user.password_changed", 13 ∷ []) ∷ []

twice : subscribe "user.created" 12 subscribers ≡ subscribers
unfolding subscribe
twice = refl

abbrev message : ℕ → String → Message
message i s = record { message_id = i; raw_data = some s }

abbrev quiet : BusState (Memory LockKey LockValue)
quiet = record { redis = λ k. none; ran = []; raised = []; acknowledged = [] }

-- The event is delivered again, and another one and a broken entry come between.
abbrev later : List (ℕ × Message)
later = (20, message 6 "changed") ∷ (20, message 7 "broken") ∷ (69, message 8 "created") ∷ []

handle_messages-once_example :
    (let w' = handle_messages services subscribers ((10, message 5 "created") ∷ later) quiet in
      (runs_of 1 w'.ran ≡ [] ++ pairs 1 (11 ∷ 12 ∷ []))
      × (w'.acknowledged ≡ [] ++ ids services subscribers ((10, message 5 "created") ∷ later)))
handle_messages-once_example =
    handle_messages-once services subscribers quiet 10 (message 5 "created") "created" created 11
      (12 ∷ []) later refl refl refl refl refl (omega arith)
