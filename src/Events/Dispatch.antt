-- ===== src/Events/Dispatch.antt =====
-- What an event does whose lock is free or taken.
use mathlib.Core.List.{append_assoc, append-nil}
use fastapi_asyncpg_template.Base.{
  ℕ, ◌≡◌, refl, sym, ◌∙◌, some, none, List, [], ◌∷◌, ◌++◌, map, keep, ◌==◌, ite, if◌then◌else◌,
  arith,
}
use fastapi_asyncpg_template.Events.Bus.{
  Event, lock, LockKey-discrete, LockValue, one, Subscribers, BusState, BusServices, run_handlers,
  dispatch,
}

-- The runs for the event with the id `i`.
abbrev pub runs_of : ℕ → List (ℕ × ℕ) → List (ℕ × ℕ)
runs_of i = keep (λ r. r.1 == i)

pub runs_of-append :
    (i : ℕ) (xs ys : List (ℕ × ℕ)) → runs_of i (xs ++ ys) ≡ runs_of i xs ++ runs_of i ys
runs_of-append i [] ys = refl
runs_of-append i (x ∷ xs) ys = ground (arith, runs_of-append i xs ys)

abbrev pub pairs : ℕ → List ℕ → List (ℕ × ℕ)
pairs i hs = map (λ h. (h, i)) hs

pub runs_of-pairs :
    (i j : ℕ) (hs : List ℕ) → runs_of i (pairs j hs) ≡ (if j == i then pairs j hs else [])
runs_of-pairs i j [] = ground arith
runs_of-pairs i j (h ∷ hs) = ground (arith, runs_of-pairs i j hs)

pub ite-lock :
    {A : Type 0} (i j : ℕ) (a b : A)
    → ite (LockKey-discrete (lock i) (lock j)) a b ≡ (if i == j then a else b)
unfolding LockKey-discrete
ite-lock i j a b = ground arith

module _ (x : BusServices) (subscribers : Subscribers) where
  run_handlers_lem :
      (e : Event) (hs : List ℕ) (w : BusState x.redis.Store)
      → ((run_handlers x subscribers e hs w).ran ≡ w.ran ++ pairs e.event_id hs)
        × ((run_handlers x subscribers e hs w).redis ≡ w.redis)
        × ((run_handlers x subscribers e hs w).acknowledged ≡ w.acknowledged)
  unfolding run_handlers
  run_handlers_lem e [] w = (sym (append-nil w.ran), refl, refl)
  run_handlers_lem e (h ∷ hs) w =
      let (a, b, c) = run_handlers_lem e hs (record w {
        ran = w.ran ++ ((h, e.event_id) ∷ []);
        raised = if x.raises h e then w.raised ++ ((h, e.event_id) ∷ []) else w.raised;
      }) in
      (a ∙ append_assoc w.ran ((h, e.event_id) ∷ []) (pairs e.event_id hs), b, c)

  -- An event whose lock is free: its handlers run and the lock is set for a minute.
  pub dispatch_free :
      (now : ℕ) (e : Event) (h : ℕ) (hs : List ℕ) (w : BusState x.redis.Store)
      → x.redis.get w.redis now (lock e.event_id) ≡ none
      → ((dispatch x subscribers now e (h ∷ hs) w).ran ≡ w.ran ++ pairs e.event_id (h ∷ hs))
        × ((dispatch x subscribers now e (h ∷ hs) w).redis
            ≡ x.redis.set w.redis now (lock e.event_id) one 60)
        × ((dispatch x subscribers now e (h ∷ hs) w).acknowledged ≡ w.acknowledged)
  unfolding dispatch
  dispatch_free now e h hs w f = rw (x.redis.set_nx_free w.redis now (lock e.event_id) one 60 f) (
      run_handlers_lem e (h ∷ hs)
        (record w { redis = x.redis.set w.redis now (lock e.event_id) one 60 }))

  pub dispatch_taken :
      (now : ℕ) (e : Event) (hs : List ℕ) (w : BusState x.redis.Store) (v : LockValue)
      → x.redis.get w.redis now (lock e.event_id) ≡ some v
      → dispatch x subscribers now e hs w ≡ w
  unfolding dispatch
  dispatch_taken now e [] w v t = refl
  dispatch_taken now e (h ∷ hs) w v t =
      rw (x.redis.set_nx_taken w.redis now (lock e.event_id) one v 60 t) refl
