-- ===== src/Events/Once.antt =====
-- How often the handlers of an event run.
use mathlib.Core.List.{append_assoc, append-nil}
use fastapi_asyncpg_template.Base.{
  ℕ, ◌+◌, ◌≤◌, ◌<◌, ◌≡◌, refl, sym, ap, ◌∙◌, subst, String, true, false, Option, some, none, List,
  [], ◌∷◌, ◌++◌, map, ◌==◌, truthy, arith, Bool-cases, Option-cases, inl, inr,
}
use fastapi_asyncpg_template.Events.Bus.{
  Event, lock, one, Message, Subscribers, handlers_of, BusState, BusServices, dispatch,
  process_remote_event, process_data, handle_message, handle_messages,
}
use fastapi_asyncpg_template.Events.Dispatch.{
  runs_of, runs_of-append, pairs, runs_of-pairs, ite-lock, dispatch_free, dispatch_taken,
}

module _ (x : BusServices) (subscribers : Subscribers) where
  -- The lock of the event `i` is held from `t` until `end`.
  abbrev Held : ℕ → ℕ → ℕ → x.redis.Store → Type 0
  Held i t end s = (now : ℕ) → t ≤ now → now < end → x.redis.get s now (lock i) ≡ some one

  -- What leaves the event `i` alone.
  abbrev Keeps : ℕ → ℕ → ℕ → BusState x.redis.Store → BusState x.redis.Store → Type 0
  Keeps i now end w w' =
      Held i now end w'.redis
      × (runs_of i w'.ran ≡ runs_of i w.ran)
      × (w'.acknowledged ≡ w.acknowledged)

  other_event :
      (i now : ℕ) (end : ℕ) (e : Event) (s : x.redis.Store)
      → Held i now end s
      → now < end
      → x.redis.get s now (lock e.event_id) ≡ none
      → (e.event_id == i) ≡ false
  other_event i now end e s h p f = ground (arith, h now)

  dispatch-Keeps :
      (i now end : ℕ) (e : Event) (hs : List ℕ) (w : BusState x.redis.Store)
      → Held i now end w.redis
      → now < end
      → Keeps i now end w (dispatch x subscribers now e hs w)
  dispatch-Keeps i now end e [] w h p = unfold dispatch in (h, refl, refl)
  dispatch-Keeps i now end e (k ∷ hs) w h p =
      elim (Option-cases (x.redis.get w.redis now (lock e.event_id))) [
        | inr (v, t) ↦
            subst (Keeps i now end w) (sym (dispatch_taken x subscribers now e (k ∷ hs) w v t))
              (h, refl, refl)
        | inl f ↦
            let (a, b, c) = dispatch_free x subscribers now e k hs w f in
            let other = other_event i now end e w.redis h p f in
            let nothing : runs_of i (pairs e.event_id (k ∷ hs)) ≡ [] =
              runs_of-pairs i e.event_id (k ∷ hs) ∙ rw other refl in
            (
              (λ n q l.
                  ap (λ s. x.redis.get s n (lock i)) b
                  ∙ x.redis.get-set w.redis now (lock e.event_id) one 60 n (lock i) (omega arith) q
                  ∙ ite-lock e.event_id i _ _
                  ∙ rw other (h n q l)),
              ap (runs_of i) a
                  ∙ runs_of-append i w.ran (pairs e.event_id (k ∷ hs))
                  ∙ ap (λ ys. runs_of i w.ran ++ ys) nothing
                  ∙ append-nil (runs_of i w.ran),
              c,
            )
      ]

  process_data_at :
      (now : ℕ) (raw : String) (e : Event) (w : BusState x.redis.Store)
      → truthy raw ≡ true
      → x.parse raw ≡ some e
      → process_data x subscribers now (some raw) w
        ≡ dispatch x subscribers now e (handlers_of e.event_name subscribers) w
  unfolding process_data process_remote_event
  process_data_at now raw e w y q = ground arith

  process_data-Keeps :
      (i now end : ℕ) (raw : Option String) (w : BusState x.redis.Store)
      → Held i now end w.redis
      → now < end
      → Keeps i now end w (process_data x subscribers now raw w)
  unfolding process_data process_remote_event
  process_data-Keeps i now end none w h p = (h, refl, refl)
  process_data-Keeps i now end (some raw) w h p = elim (Bool-cases (truthy raw)) [
    | inr n ↦ rw n (h, refl, refl)
    | inl y ↦ elim (Option-cases (x.parse raw)) [
      | inl n ↦
          let nothing : process_data x subscribers now (some raw) w ≡ w = ground arith in
          subst (Keeps i now end w) (sym nothing) (h, refl, refl)
      | inr (e, q) ↦
          subst (Keeps i now end w) (sym (process_data_at now raw e w y q))
            (dispatch-Keeps i now end e (handlers_of e.event_name subscribers) w h p)
    ]
  ]

  -- Messages that come one after another from `now` on and before `end`.
  abbrev pub Within : ℕ → ℕ → List (ℕ × Message) → Type 0
  Within now end [] = Unit {0}
  Within now end ((n, m) ∷ ms) = (now ≤ n) × (n < end) × Within n end ms

  abbrev pub ids : List (ℕ × Message) → List ℕ
  ids ms = map (λ m. m.1.message_id) ms

  handle_messages-Keeps :
      (i now end : ℕ) (ms : List (ℕ × Message)) (w : BusState x.redis.Store)
      → Held i now end w.redis
      → Within now end ms
      → (runs_of i (handle_messages x subscribers ms w).ran ≡ runs_of i w.ran)
        × ((handle_messages x subscribers ms w).acknowledged ≡ w.acknowledged ++ ids ms)
  unfolding handle_messages handle_message
  handle_messages-Keeps i now end [] w h l = (refl, sym (append-nil w.acknowledged))
  handle_messages-Keeps i now end ((n, m) ∷ ms) w h (a, b, l) =
      let (held, runs, acks) =
        process_data-Keeps i n end m.raw_data w (λ k p q. h k (omega arith) q) b in
      let (rest, acked) =
        handle_messages-Keeps i n end ms (handle_message x subscribers n m w) held l in
      (
        rest ∙ runs,
        acked
            ∙ ap (λ k. (k ++ (m.message_id ∷ [])) ++ ids ms) acks
            ∙ append_assoc w.acknowledged (m.message_id ∷ []) (ids ms),
      )

  -- A message whose event has handlers and whose lock is free, and any messages that are processed
  -- after it and within a minute, by whatever workers, the same event among them or not, and whatever
  -- handlers raise: each handler of the event runs exactly once for it, in the order of subscription,
  -- and every message is acknowledged once.
  pub handle_messages-once :
      (w : BusState x.redis.Store) (t : ℕ) (m : Message) (raw : String) (e : Event) (h : ℕ)
      (hs : List ℕ) (ms : List (ℕ × Message))
      → m.raw_data ≡ some raw
      → truthy raw ≡ true
      → x.parse raw ≡ some e
      → handlers_of e.event_name subscribers ≡ h ∷ hs
      → x.redis.get w.redis t (lock e.event_id) ≡ none
      → Within t (t + 60) ms
      → let w' = handle_messages x subscribers ((t, m) ∷ ms) w in
        (runs_of e.event_id w'.ran ≡ runs_of e.event_id w.ran ++ pairs e.event_id (h ∷ hs))
        × (w'.acknowledged ≡ w.acknowledged ++ ids ((t, m) ∷ ms))
  unfolding handle_messages handle_message
  handle_messages-once w t m raw e h hs ms r y q s f l =
      let first : process_data x subscribers t m.raw_data w
          ≡ dispatch x subscribers t e (h ∷ hs) w =
        ap (λ k. process_data x subscribers t k w) r
        ∙ process_data_at t raw e w y q
        ∙ ap (λ k. dispatch x subscribers t e k w) s in
      let (a, b, c) = dispatch_free x subscribers t e h hs w f in
      let held : Held e.event_id t (t + 60) (process_data x subscribers t m.raw_data w).redis =
        λ n p u.
          ap (λ k. x.redis.get k n (lock e.event_id))
            (ap (λ (k : BusState x.redis.Store). k.redis) first ∙ b)
          ∙ x.redis.get-set w.redis t (lock e.event_id) one 60 n (lock e.event_id) (omega arith) p
          ∙ ite-lock e.event_id e.event_id _ _
          ∙ ground arith in
      let (rest, acked) =
        handle_messages-Keeps e.event_id t (t + 60) ms (handle_message x subscribers t m w) held
          l in
      let own : runs_of e.event_id (pairs e.event_id (h ∷ hs)) ≡ pairs e.event_id (h ∷ hs) =
        runs_of-pairs e.event_id e.event_id (h ∷ hs) ∙ ground arith in
      (
        rest
            ∙ ap (λ (k : BusState x.redis.Store). runs_of e.event_id k.ran) first
            ∙ ap (runs_of e.event_id) a
            ∙ runs_of-append e.event_id w.ran (pairs e.event_id (h ∷ hs))
            ∙ ap (λ ys. runs_of e.event_id w.ran ++ ys) own,
        acked
            ∙ ap (λ k. (k ++ (m.message_id ∷ [])) ++ ids ms)
                (ap (λ (k : BusState x.redis.Store). k.acknowledged) first ∙ c)
            ∙ append_assoc w.acknowledged (m.message_id ∷ []) (ids ms),
      )
