-- ===== src/WebSocket/Delivery.antt =====
-- What a message on a user's channel does.
use mathlib.Core.List.{append_assoc, append-nil}
use fastapi_asyncpg_template.Base.{
  ℕ, ◌≡◌, refl, sym, ap, ◌∙◌, subst, String, Bool, true, false, some, List, [], ◌∷◌, ◌++◌, map,
  keep, ◌==◌, nat_mem, if◌then◌else◌, arith, Bool-cases, inl, inr,
}
use fastapi_asyncpg_template.WebSocket.Dict.{lookup, lookup-put, lookup-remove_key}
use fastapi_asyncpg_template.WebSocket.Manager.{
  Manager, connections, remove_first, store_connections, disconnect, send_loop, local_send,
  on_user_message,
}
use fastapi_asyncpg_template.WebSocket.Synced.{Synced, disconnect_at}

store_connections_lem :
    (u : ℕ) (cs : List ℕ) (m : Manager)
    → (connections (store_connections u cs m) u ≡ cs)
      × ((store_connections u cs m).received ≡ m.received)
      × ((v : ℕ)
          → (u == v) ≡ false
          → lookup v (store_connections u cs m).active_connections ≡ lookup v m.active_connections)
unfolding store_connections
store_connections_lem u [] m = (
  ground (arith, lookup-remove_key u u m.active_connections),
  refl,
  λ v n. ground (arith, lookup-remove_key v u m.active_connections),
)
store_connections_lem u (c ∷ cs) m = (
  ground (arith, lookup-put u u (c ∷ cs) m.active_connections),
  refl,
  λ v n. ground (arith, lookup-put v u (c ∷ cs) m.active_connections),
)

module _ (sends : ℕ → Bool) where
  abbrev All : List ℕ → Type 0
  All [] = Unit {0}
  All (c ∷ cs) = (sends c ≡ true) × All cs

  All-append : (pre : List ℕ) (c : ℕ) → All pre → sends c ≡ true → All (pre ++ (c ∷ []))
  All-append [] c h e = (e, tt)
  All-append (d ∷ pre) c (p, h) e = (p, All-append pre c h e)

  other_socket : (c d : ℕ) → sends c ≡ false → sends d ≡ true → (d == c) ≡ false
  other_socket c d e p = ground arith

  nat_mem-middle : (pre : List ℕ) (c : ℕ) (post : List ℕ) → nat_mem c (pre ++ (c ∷ post)) ≡ true
  nat_mem-middle [] c post = ground arith
  nat_mem-middle (d ∷ pre) c post = ground (arith, nat_mem-middle pre c post)

  remove_first-middle :
      (pre : List ℕ) (c : ℕ) (post : List ℕ)
      → All pre
      → sends c ≡ false
      → remove_first c (pre ++ (c ∷ post)) ≡ pre ++ post
  remove_first-middle [] c post h e = ground arith
  remove_first-middle (d ∷ pre) c post (p, h) e =
      ground (arith, other_socket c d e p, remove_first-middle pre c post h e)

  connected :
      (m : Manager) (u c : ℕ) (pre post : List ℕ)
      → connections m u ≡ pre ++ (c ∷ post)
      → lookup u m.active_connections ≡ some (pre ++ (c ∷ post))
  connected m u c [] post e = ground arith
  connected m u c (d ∷ pre) post e = ground arith

  -- What the loop over the connections `cs` leaves, after those in `pre` took the message.
  abbrev pub Sent : ℕ → String → List ℕ → Manager → Manager → Type 0
  Sent u message cs m m' =
      (m'.received ≡ m.received ++ map (λ c. (c, message)) (keep sends cs))
      × ((v : ℕ)
          → (u == v) ≡ false
          → lookup v m'.active_connections ≡ lookup v m.active_connections)

  -- The loop over what is left of `cs`, from the state `m1`.
  abbrev Done : ℕ → String → List ℕ → List ℕ → Manager → List ℕ → Manager → Type 0
  Done u message pre cs m left m1 =
      (connections (send_loop sends u message left m1) u ≡ pre ++ keep sends cs)
      × Sent u message cs m (send_loop sends u message left m1)

  send_loop_lem :
      (u : ℕ) (message : String) (pre cs : List ℕ) (m : Manager)
      → connections m u ≡ pre ++ cs
      → All pre
      → (connections (send_loop sends u message cs m) u ≡ pre ++ keep sends cs)
        × Sent u message cs m (send_loop sends u message cs m)
  unfolding send_loop
  send_loop_lem u message pre [] m e h = (e, (sym (append-nil m.received), λ v n. refl))
  send_loop_lem u message pre (c ∷ cs) m e h = elim (Bool-cases (sends c)) [
    | inl y ↦
        let m1 = record m { received = m.received ++ ((c, message) ∷ []) } in
        let next : (if sends c then m1 else disconnect u c m) ≡ m1 = rw y refl in
        let (a, (b, d)) =
          send_loop_lem u message (pre ++ (c ∷ [])) cs m1 (e ∙ sym (append_assoc pre (c ∷ []) cs))
            (All-append pre c h y) in
        subst (Done u message pre (c ∷ cs) m cs) (sym next) (
          rw y (
            a ∙ append_assoc pre (c ∷ []) (keep sends cs),
            (
              b
                  ∙ append_assoc m.received ((c, message) ∷ [])
                      (map (λ k. (k, message)) (keep sends cs)),
              d,
            ),
          ))
    | inr n ↦
        let m1 = store_connections u (pre ++ cs) m in
        let gone : disconnect u c m ≡ m1 =
          disconnect_at u c m (pre ++ (c ∷ cs)) (connected m u c pre cs e)
          ∙ rw (nat_mem-middle pre c cs, remove_first-middle pre c cs h n) refl in
        let next : (if sends c
              then record m { received = m.received ++ ((c, message) ∷ []) }
              else disconnect u c m)
            ≡ m1 =
          rw n gone in
        let (x, y, z) = store_connections_lem u (pre ++ cs) m in
        let (a, (b, d)) = send_loop_lem u message pre cs m1 x h in
        subst (Done u message pre (c ∷ cs) m cs) (sym next) (
          rw n (
            a,
            (b ∙ ap (λ r. r ++ map (λ k. (k, message)) (keep sends cs)) y, λ v k. d v k ∙ z v k),
          ))
  ]

  -- Where a worker is subscribed to a user's channel exactly while the user has a connection
  -- on it, a message on the channel is sent once and in order to those connections of the
  -- user that take it, and to no other socket; the connections of the user that fail are
  -- dropped and the others kept; and the connections of the other users stay as they are.
  pub on_user_message_lem :
      (u : ℕ) (message : String) (m : Manager)
      → Synced m
      → (connections (on_user_message sends u message m) u ≡ keep sends (connections m u))
        × Sent u message (connections m u) m (on_user_message sends u message m)
  unfolding on_user_message local_send
  on_user_message_lem u message m h = elim (Bool-cases (m.to_user u)) [
    | inl e ↦ rw e (send_loop_lem u message [] (connections m u) m refl tt)
    | inr e ↦
        let absent : connections m u ≡ [] = ground (arith, h.subscribed u) in
        rw (e, absent) (refl, (sym (append-nil m.received), λ v n. refl))
  ]
