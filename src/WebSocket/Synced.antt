-- ===== src/WebSocket/Synced.antt =====
-- A worker is subscribed to a user's channel exactly while the user has a connection on it.
use fastapi_asyncpg_template.Base.{
  ℕ, ◌<◌, ◌≡◌, ◌≢◌, refl, sym, subst, String, Bool, true, false, some, none, List, [], ◌∷◌, ◌++◌,
  ◌==◌, nat_mem, is_some, if◌then◌else◌, arith, Bool-cases, Option-cases, inl, inr, ◌⊎◌,
}
use fastapi_asyncpg_template.Base.Http.{ok}
use fastapi_asyncpg_template.WebSocket.Dict.{lookup, lookup-put, lookup-remove_key}
use fastapi_asyncpg_template.WebSocket.Manager.{
  Manager, connections, connect_start, connect_finish, start_listener, subscribe_first, connect,
  store_connections, disconnect, remove_first, send_loop, local_send, local_broadcast,
  broadcast_loop, on_user_message, on_broadcast, Event, joins, leaves, message_to, message_to_all,
  handle, handle_all,
}

pub record Synced (m : Manager) : Type 0 where
  pub subscribed : (u : ℕ) → m.to_user u ≡ is_some (lookup u m.active_connections)
  pub occupied : (u : ℕ) → lookup u m.active_connections ≢ some []
  pub started : (u : ℕ) → is_some (lookup u m.active_connections) ≡ true → m.pubsub ≡ true
  pub listening : 0 < m.listeners → m.pubsub ≡ true

pub store_connections-Synced :
    (u : ℕ) (cs : List ℕ) (m : Manager)
    → Synced m
    → is_some (lookup u m.active_connections) ≡ true
    → Synced (store_connections u cs m)
unfolding store_connections
store_connections-Synced u [] m s h = record {
  subscribed =
      λ v. ground (arith, lookup-remove_key v u m.active_connections, s.subscribed v, s.started u);
  occupied = λ v. ground (arith, lookup-remove_key v u m.active_connections, s.occupied v);
  started = λ v. ground (arith, lookup-remove_key v u m.active_connections, s.started v);
  listening = s.listening;
}
store_connections-Synced u (c ∷ cs) m s h = record {
  subscribed = λ v.
      ground (arith, lookup-put v u (c ∷ cs) m.active_connections, s.subscribed v, s.started u);
  occupied = λ v. ground (arith, lookup-put v u (c ∷ cs) m.active_connections, s.occupied v);
  started =
      λ v. ground (arith, lookup-put v u (c ∷ cs) m.active_connections, s.started v, s.started u);
  listening = s.listening;
}

pub disconnect_at :
    (u s : ℕ) (m : Manager) (cs : List ℕ)
    → lookup u m.active_connections ≡ some cs
    → disconnect u s m ≡ store_connections u (if nat_mem s cs then remove_first s cs else cs) m
unfolding disconnect
disconnect_at u s m cs e = ground arith

disconnect-none :
    (u s : ℕ) (m : Manager) → lookup u m.active_connections ≡ none → disconnect u s m ≡ m
unfolding disconnect
disconnect-none u s m e = ground arith

pub disconnect-Synced : (u s : ℕ) (m : Manager) → Synced m → Synced (disconnect u s m)
disconnect-Synced u s m h = elim (Option-cases (lookup u m.active_connections)) [
  | inl e ↦ subst Synced (sym (disconnect-none u s m e)) h
  | inr (cs, e) ↦
      subst Synced (sym (disconnect_at u s m cs e)) (
        store_connections-Synced u (if nat_mem s cs then remove_first s cs else cs) m h (rw e refl))
]

-- The state of `connect` before the subscription.
abbrev pub ready : ℕ → ℕ → Manager → Manager
ready u s m = start_listener (connect_start u s m).0 (connect_start u s m).1

abbrev pub OthersSynced : ℕ → Manager → Type 0
OthersSynced u m =
    (v : ℕ) → (u == v) ≡ false → m.to_user v ≡ is_some (lookup v m.active_connections)

subscribe_first-Synced :
    (u : ℕ) (c : ℕ) (cs : List ℕ) (m : Manager)
    → lookup u m.active_connections ≡ some (c ∷ cs)
    → m.pubsub ≡ true
    → OthersSynced u m
    → (m.to_user u ≡ true) ⊎ (cs ≡ [])
    → ((v : ℕ) → lookup v m.active_connections ≢ some [])
    → ((subscribe_first u m).0 ≡ ok tt) × Synced (subscribe_first u m).1
unfolding subscribe_first
subscribe_first-Synced u c cs m e p o old occ = (
  ground arith,
  record {
    subscribed = λ v. ground (arith, o v);
    occupied = λ v. ground (arith, occ v);
    started = λ v. ground (arith);
    listening = ground arith;
  },
)

module _ (u s : ℕ) (m : Manager) (h : Synced m) where
  lookup-ready :
      (v : ℕ)
      → lookup v (ready u s m).active_connections
        ≡ (if u == v then some (connections m u ++ (s ∷ [])) else lookup v m.active_connections)
  unfolding start_listener connect_start
  lookup-ready v = ground (arith, lookup-put v u (connections m u ++ (s ∷ [])) m.active_connections)

  ready_pubsub : (ready u s m).pubsub ≡ true
  unfolding start_listener connect_start
  ready_pubsub = ground (arith, h.listening)

  ready_to_user : (v : ℕ) → (ready u s m).to_user v ≡ m.to_user v
  unfolding start_listener connect_start
  ready_to_user v = ground arith

  connect_from :
      (c : ℕ) (cs : List ℕ)
      → connections m u ++ (s ∷ []) ≡ c ∷ cs
      → (m.to_user u ≡ true) ⊎ (cs ≡ [])
      → ((connect u s m).0 ≡ ok tt) × Synced (connect u s m).1
  unfolding connect connect_finish
  connect_from c cs e old =
      subscribe_first-Synced u c cs (ready u s m) (ground (arith, lookup-ready u)) ready_pubsub
        (λ v n. ground (arith, ready_to_user v, lookup-ready v, h.subscribed v))
        (ground (arith, ready_to_user u)) (λ v. ground (arith, lookup-ready v, h.occupied v))

  -- A connection succeeds and keeps the subscriptions.
  pub connect-Synced : ((connect u s m).0 ≡ ok tt) × Synced (connect u s m).1
  connect-Synced = elim (Option-cases (lookup u m.active_connections)) [
    | inl e ↦ connect_from s [] (ground arith) (inr refl)
    | inr (c ∷ cs, e) ↦
        connect_from c (cs ++ (s ∷ [])) (ground arith) (inl (ground (arith, h.subscribed u)))
    | inr ([], e) ↦ absurd (h.occupied u e)
  ]

if-Synced : (b : Bool) (m m' : Manager) → Synced m → Synced m' → Synced (if b then m else m')
if-Synced true m m' h h' = h
if-Synced false m m' h h' = h'

module _ (sends : ℕ → Bool) where
  send_loop-Synced :
      (u : ℕ) (message : String) (cs : List ℕ) (m : Manager)
      → Synced m
      → Synced (send_loop sends u message cs m)
  unfolding send_loop
  send_loop-Synced u message [] m h = h
  send_loop-Synced u message (c ∷ cs) m h = elim (Bool-cases (sends c)) [
    | inl e ↦ rw e (
        send_loop-Synced u message cs (record m { received = m.received ++ ((c, message) ∷ []) })
          (record {
            subscribed = h.subscribed;
            occupied = h.occupied;
            started = h.started;
            listening = h.listening;
          }))
    | inr e ↦ rw e (send_loop-Synced u message cs (disconnect u c m) (disconnect-Synced u c m h))
  ]

  broadcast_loop-Synced :
      (message : String) (d : List (ℕ × List ℕ)) (m : Manager)
      → Synced m
      → Synced (broadcast_loop sends message d m)
  unfolding broadcast_loop local_send
  broadcast_loop-Synced message [] m h = h
  broadcast_loop-Synced message ((u, cs) ∷ d) m h =
      broadcast_loop-Synced message d (local_send sends u message m)
        (send_loop-Synced u message (connections m u) m h)

  handle-Synced : (e : Event) (m : Manager) → Synced m → Synced (handle sends e m)
  unfolding handle on_user_message on_broadcast local_send local_broadcast
  handle-Synced (joins u s) m h = (connect-Synced u s m h).1
  handle-Synced (leaves u s) m h = disconnect-Synced u s m h
  handle-Synced (message_to u message) m h =
      if-Synced (m.to_user u) _ m (send_loop-Synced u message (connections m u) m h) h
  handle-Synced (message_to_all message) m h =
      if-Synced m.to_broadcast _ m (broadcast_loop-Synced message m.active_connections m h) h

  -- Whatever connections, disconnections and messages a worker handles, one after another,
  -- from a state in which it is subscribed to a user's channel exactly while the user has a
  -- connection on it, no user is kept without a connection, and the Pub/Sub client is there
  -- where it is needed: the state after them is of the same kind.
  pub handle_all-Synced :
      (es : List Event) (m : Manager) → Synced m → Synced (handle_all sends es m)
  unfolding handle_all
  handle_all-Synced [] m h = h
  handle_all-Synced (e ∷ es) m h = handle_all-Synced es (handle sends e m) (handle-Synced e m h)
