-- ===== src/WebSocket/Overlap.antt =====
-- Two first connections of one user that overlap while the listener is started.
use fastapi_asyncpg_template.Base.{
  some, ℕ, ◌≡◌, refl, ap, ◌∙◌, String, Bool, true, false, none, List, [], ◌∷◌, arith,
}
use fastapi_asyncpg_template.WebSocket.Dict.{lookup, put, lookup-put}
use fastapi_asyncpg_template.WebSocket.Manager.{
  Manager, connections, connect_start, start_listener, subscribe_first, connect_finish,
  on_user_message,
}
use fastapi_asyncpg_template.WebSocket.Synced.{Synced}

-- Both connections are stored before Redis answers the first; then each goes on.
abbrev pub overlapped : ℕ → ℕ → ℕ → Manager → Manager
overlapped u a b m =
    let (needed_a, m1) = connect_start u a m in
    let (needed_b, m2) = connect_start u b m1 in
    let m3 = (connect_finish needed_a u m2).1 in (connect_finish needed_b u m3).1

-- Where the user has two connections or more, nothing is subscribed.
subscribe_first_two :
    (u a b : ℕ) (cs : List ℕ) (m : Manager)
    → lookup u m.active_connections ≡ some (a ∷ b ∷ cs)
    → (subscribe_first u m).1 ≡ m
unfolding subscribe_first
subscribe_first_two u a b cs m e = ground arith

start_listener_lem :
    (needed : Bool) (m : Manager)
    → ((start_listener needed m).active_connections ≡ m.active_connections)
      × ((start_listener needed m).to_user ≡ m.to_user)
unfolding start_listener
start_listener_lem true m = (refl, refl)
start_listener_lem false m = (refl, refl)

-- What the rest of `connect` keeps, where the user has two connections by then.
connect_finish_two :
    (needed : Bool) (u a b : ℕ) (cs : List ℕ) (m : Manager)
    → lookup u m.active_connections ≡ some (a ∷ b ∷ cs)
    → ((connect_finish needed u m).1.active_connections ≡ m.active_connections)
      × ((connect_finish needed u m).1.to_user ≡ m.to_user)
unfolding connect_finish
connect_finish_two needed u a b cs m e =
    let (x, y) = start_listener_lem needed m in
    let same = subscribe_first_two u a b cs (start_listener needed m) (ap (lookup u) x ∙ e) in
    (ap (λ (n : Manager). n.active_connections) same ∙ x, ap (λ (n : Manager). n.to_user) same ∙ y)

module _ (u a b : ℕ) (m : Manager) (e : lookup u m.active_connections ≡ none) where
  stored :
      (lookup u (connect_start u b (connect_start u a m).1).1.active_connections
        ≡ some (a ∷ b ∷ []))
      × ((connect_start u b (connect_start u a m).1).1.to_user ≡ m.to_user)
  unfolding connect_start
  stored = (
    ground (
      arith,
      lookup-put u u (a ∷ []) m.active_connections,
      lookup-put u u (a ∷ b ∷ []) (put u (a ∷ []) m.active_connections),
    ),
    refl,
  )

  -- A user without a connection on a worker makes two connections, and both are stored before
  -- either goes on to the subscription. Then both are connected, but the worker is not
  -- subscribed to the user's channel: a message to the user reaches neither.
  pub connect_overlapped :
      (sends : ℕ → Bool) (message : String)
      → Synced m
      → let m' = overlapped u a b m in
        (connections m' u ≡ a ∷ b ∷ [])
        × (m'.to_user u ≡ false)
        × (on_user_message sends u message m' ≡ m')
  unfolding on_user_message
  connect_overlapped sends message h =
      let m2 = (connect_start u b (connect_start u a m).1).1 in
      let na = (connect_start u a m).0 in
      let nb = (connect_start u b (connect_start u a m).1).0 in
      let m3 = (connect_finish na u m2).1 in
      let (s, t) = stored in
      let (x, y) = connect_finish_two na u a b [] m2 s in
      let (x', y') = connect_finish_two nb u a b [] m3 (ap (lookup u) x ∙ s) in
      let there : lookup u (overlapped u a b m).active_connections ≡ some (a ∷ b ∷ []) =
        ap (lookup u) (x' ∙ x) ∙ s in
      let off : (overlapped u a b m).to_user u ≡ false =
        (λ i. (y' ∙ y ∙ t) i u) ∙ h.subscribed u ∙ rw e refl in
      (rw (there, connections) refl, off, rw off refl)
