-- ===== src/WebSocket/Manager.antt =====
-- `ConnectionManager`: sockets and users are numbers; `text` is whether `send_text` goes through.
use fastapi_asyncpg_template.Base.{
  ℕ, ◌+◌, String, Bool, true, false, some, none, List, [], ◌∷◌, ◌++◌, length, ◌==◌, nat_mem,
  if◌then◌else◌, ◌&&◌,
}
use fastapi_asyncpg_template.Base.Http.{ok, err, error, Handler}
use fastapi_asyncpg_template.WebSocket.Dict.{lookup, put, remove_key}

-- The manager, with what its Pub/Sub connection is subscribed to and what its sockets got.
pub record Manager : Type 0 where
  pub active_connections : List (ℕ × List ℕ)
  pub pubsub : Bool
  pub listeners : ℕ
  pub to_broadcast : Bool
  pub to_user : ℕ → Bool
  pub received : List (ℕ × String)

abbrev pub connections : Manager → ℕ → List ℕ
connections m u = elim (lookup u m.active_connections) [ none ↦ [] | some cs ↦ cs ]

-- cs.remove(s)
abbrev pub remove_first : ℕ → List ℕ → List ℕ
remove_first s [] = []
remove_first s (c ∷ cs) = let rest = remove_first s cs in if c == s then cs else c ∷ rest

-- `connect` up to the check of `_ensure_listener`: the socket is in the list, and whether the
-- listener has to be started.
unfoldable pub connect_start : (user_id socket : ℕ) → Manager → Bool × Manager
connect_start u s m =
    let needed = m.listeners == 0 in
    (
      needed,
      record m {
        active_connections = put u (connections m u ++ (s ∷ [])) m.active_connections;
        pubsub = if needed then true else m.pubsub;
      },
    )

-- The rest of `_ensure_listener`, once Redis has answered: it runs only if the listener has to be
-- started.
unfoldable pub start_listener : Bool → Manager → Manager
start_listener needed m =
    if needed then record m { listeners = m.listeners + 1; to_broadcast = true } else m

-- The subscription to the user's channel, where it is the first connection.
unfoldable pub subscribe_first : (user_id : ℕ) → Handler Manager (Unit {0})
subscribe_first u m = elim (lookup u m.active_connections) [
  | none ↦ (err (error "KeyError"), m)
  | some cs ↦
      if (length cs == 1) && m.pubsub
      then (ok tt, record m { to_user = λ v. if u == v then true else m.to_user v })
      else (ok tt, m)
]

-- `connect` from where `_ensure_listener` goes on.
unfoldable pub connect_finish : Bool → (user_id : ℕ) → Handler Manager (Unit {0})
connect_finish needed u m = subscribe_first u (start_listener needed m)

-- `connect`, with no other task between.
unfoldable pub connect : (user_id socket : ℕ) → Handler Manager (Unit {0})
connect u s m = let (needed, m') = connect_start u s m in connect_finish needed u m'

-- The end of `disconnect`: the list without the socket is stored, or the key is deleted.
unfoldable pub store_connections : (user_id : ℕ) → List ℕ → Manager → Manager
store_connections u [] m = record m {
  active_connections = remove_key u m.active_connections;
  to_user = λ v. if u == v && m.pubsub then false else m.to_user v;
}
store_connections u (c ∷ cs) m = record m {
  active_connections = put u (c ∷ cs) m.active_connections;
}

-- `disconnect`
unfoldable pub disconnect : (user_id socket : ℕ) → Manager → Manager
disconnect u s m = elim (lookup u m.active_connections) [
  | none ↦ m
  | some cs ↦ store_connections u (if nat_mem s cs then remove_first s cs else cs) m
]

-- What happens to the manager, one after another.
pub data Event : Type 0 where
  joins : ℕ → ℕ → Event
  leaves : ℕ → ℕ → Event
  message_to : ℕ → String → Event
  message_to_all : String → Event

module _ (sends : ℕ → Bool) where
  -- The loop of `_local_send` over a copy of the list.
  unfoldable pub send_loop : (user_id : ℕ) → (message : String) → List ℕ → Manager → Manager
  send_loop u message [] m = m
  send_loop u message (c ∷ cs) m = send_loop u message cs (
      if sends c
      then record m { received = m.received ++ ((c, message) ∷ []) }
      else disconnect u c m)

  -- `_local_send`
  unfoldable pub local_send : (user_id : ℕ) → (message : String) → Manager → Manager
  local_send u message m = send_loop u message (connections m u) m

  -- `_local_broadcast`, over a copy of the keys.
  unfoldable pub broadcast_loop : (message : String) → List (ℕ × List ℕ) → Manager → Manager
  broadcast_loop message [] m = m
  broadcast_loop message ((u, cs) ∷ d) m = broadcast_loop message d (local_send u message m)

  unfoldable pub local_broadcast : (message : String) → Manager → Manager
  local_broadcast message m = broadcast_loop message m.active_connections m

  -- `_redis_listener` at a message on a user's channel: Redis sends it to those that are subscribed.
  unfoldable pub on_user_message : (user_id : ℕ) → (message : String) → Manager → Manager
  on_user_message u message m = if m.to_user u then local_send u message m else m

  unfoldable pub on_broadcast : (message : String) → Manager → Manager
  on_broadcast message m = if m.to_broadcast then local_broadcast message m else m

  unfoldable pub handle : Event → Manager → Manager
  handle (joins u s) m = (connect u s m).1
  handle (leaves u s) m = disconnect u s m
  handle (message_to u message) m = on_user_message u message m
  handle (message_to_all message) m = on_broadcast message m

  unfoldable pub handle_all : List Event → Manager → Manager
  handle_all [] m = m
  handle_all (e ∷ es) m = handle_all es (handle e m)
