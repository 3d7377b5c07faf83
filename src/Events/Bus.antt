-- ===== src/Events/Bus.antt =====
-- `EventBus` of api/core/events/bus.py: handlers and ids are numbers. The consumer group of the
-- stream gives the entries to the workers, which share one Redis server; here they are the entries
-- in the order in which their events are processed, each with the second in which it is.
use fastapi_asyncpg_template.Base.{
  ℕ, String, Bool, Option, some, none, List, [], ◌∷◌, ◌++◌, ℕ_discrete, str_eq, nat_mem, truthy,
  if◌then◌else◌,
}
use fastapi_asyncpg_template.Redis.{Redis}

-- `ApplicationEvent`, less its payload.
pub record Event : Type 0 where
  pub event_id : ℕ
  pub event_name : String

-- The key event_bus:lock:{event_id}.
pub data LockKey : Type 0 where
  lock : ℕ → LockKey

unfoldable pub LockKey-discrete : Discrete LockKey
LockKey-discrete = hlevel ℕ_discrete

pub data LockValue : Type 0 where
  one : LockValue

-- An entry of the stream: its id and its field `data`.
pub record Message : Type 0 where
  pub message_id : ℕ
  pub raw_data : Option String

abbrev pub Subscribers : Type 0
Subscribers = List (String × List ℕ)

-- `self._subscribers.get(event_name, [])`
abbrev pub handlers_of : String → Subscribers → List ℕ
handlers_of name [] = []
handlers_of name ((n, hs) ∷ subs) = if str_eq n name then hs else handlers_of name subs

abbrev pub add_handler : ℕ → List ℕ → List ℕ
add_handler h hs = if nat_mem h hs then hs else hs ++ (h ∷ [])

-- `subscribe`
unfoldable pub subscribe : String → ℕ → Subscribers → Subscribers
subscribe name h [] = (name, h ∷ []) ∷ []
subscribe name h ((n, hs) ∷ subs) =
    let rest = subscribe name h subs in
    if str_eq n name then (n, add_handler h hs) ∷ subs else (n, hs) ∷ rest

-- Redis' locks, the runs of a handler for an event, those that raised, and what is acknowledged.
pub record BusState (Store : Type 0) : Type 0 where
  pub redis : Store
  pub ran : List (ℕ × ℕ)
  pub raised : List (ℕ × ℕ)
  pub acknowledged : List ℕ

-- Redis; how an event is read from JSON; and whether a handler raises for an event.
pub record BusServices : Type 1 where
  pub redis : Redis LockKey LockValue LockKey-discrete
  pub parse : String → Option Event
  pub raises : ℕ → Event → Bool

module _ (x : BusServices) (subscribers : Subscribers) where
  -- The loop over the handlers.
  unfoldable pub run_handlers : Event → List ℕ → BusState x.redis.Store → BusState x.redis.Store
  run_handlers e [] w = w
  run_handlers e (h ∷ hs) w = run_handlers e hs (record w {
    ran = w.ran ++ ((h, e.event_id) ∷ []);
    raised = if x.raises h e then w.raised ++ ((h, e.event_id) ∷ []) else w.raised;
  })

  -- `_process_remote_event`, once the event is read.
  unfoldable pub dispatch :
      (now : ℕ) → Event → List ℕ → BusState x.redis.Store → BusState x.redis.Store
  dispatch now e [] w = w
  dispatch now e (h ∷ hs) w =
      let (acquired, store) = x.redis.set_nx w.redis now (lock e.event_id) one 60 in
      let w' = record w { redis = store } in if acquired then run_handlers e (h ∷ hs) w' else w'

  -- `_process_remote_event`
  unfoldable pub process_remote_event :
      (now : ℕ) → String → BusState x.redis.Store → BusState x.redis.Store
  process_remote_event now raw w = elim (x.parse raw) [
    | none ↦ w
    | some e ↦ dispatch now e (handlers_of e.event_name subscribers) w
  ]

  -- `if raw_data: …`
  unfoldable pub process_data :
      (now : ℕ) → Option String → BusState x.redis.Store → BusState x.redis.Store
  process_data now none w = w
  process_data now (some raw) w = if truthy raw then process_remote_event now raw w else w

  -- One turn of the inner loop of `_redis_listener`.
  unfoldable pub handle_message :
      (now : ℕ) → Message → BusState x.redis.Store → BusState x.redis.Store
  handle_message now m w =
      let w' = process_data now m.raw_data w in
      record w' { acknowledged = w'.acknowledged ++ (m.message_id ∷ []) }

  unfoldable pub handle_messages :
      List (ℕ × Message) → BusState x.redis.Store → BusState x.redis.Store
  handle_messages [] w = w
  handle_messages ((now, m) ∷ ms) w = handle_messages ms (handle_message now m w)
