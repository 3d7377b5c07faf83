-- ===== src/PeriodicTasks/Seen.antt =====
-- The scheduler never sees a version that is newer than the one in Redis.
use fastapi_asyncpg_template.Base.{
  ℕ, ◌≤◌, ◌≡◌, String, Bool, Option, none, some, List, [], ◌∷◌, arith, Bool-cases, Option-cases,
  inl, inr, truthy,
}
use fastapi_asyncpg_template.PeriodicTasks.Beat.{
  Loaded, load_tasks, load_from_db, fetch_tasks_from_db, same_version, tick, reload_schedule,
}
use fastapi_asyncpg_template.PeriodicTasks.Changes.{count, Seen, change-Seen}
use fastapi_asyncpg_template.PeriodicTasks.Service.{Change, change}
use fastapi_asyncpg_template.PeriodicTasks.World.{PeriodicTask, BeatServices, World}

module _ (x : BeatServices) where
  -- What is loaded comes with a version that is not newer than the one in Redis.
  abbrev NotNewer : Loaded x → Type 0
  NotNewer (ts, store, version) = count version ≤ count (x.redis.get_version store)

  load_from_db-NotNewer :
      (a : Bool) (now : ℕ) (w : World x) (ts : List (PeriodicTask x.Json))
      → Seen x w
      → NotNewer (load_from_db x a now w ts)
  load_from_db-NotNewer a now w [] s = omega arith
  load_from_db-NotNewer a now w (t ∷ ts) s = elim (Option-cases (x.dumps (t ∷ ts))) [
    | inl n ↦ rw n s
    | inr (d, y) ↦ rw y (omega arith)
  ]

  load_tasks-NotNewer :
      (r a : Bool) (now : ℕ) (w : World x) (cached : Option String)
      → Seen x w
      → NotNewer (load_tasks x r a now w cached)
  load_tasks-NotNewer r a now w none s =
      load_from_db-NotNewer a now w (fetch_tasks_from_db x r w.rows) s
  load_tasks-NotNewer r a now w (some d) s = elim (Bool-cases (truthy d)) [
    | inr n ↦ rw n (load_from_db-NotNewer a now w (fetch_tasks_from_db x r w.rows) s)
    | inl y ↦ elim (Option-cases (x.loads d)) [
      | inl n ↦ rw (y, n) s
      | inr (ts, l) ↦ rw (y, l) (omega arith)
    ]
  ]

  reload_schedule-Seen :
      (r a : Bool) (now : ℕ) (w : World x) → Seen x w → Seen x (reload_schedule x r a now w)
  unfolding reload_schedule
  reload_schedule-Seen r a now w s = load_tasks-NotNewer r a now w (x.redis.get_data w.store now) s

  tick-Seen : (r a : Bool) (now : ℕ) (w : World x) → Seen x w → Seen x (tick x r a now w)
  unfolding tick
  tick-Seen r a now w s =
      elim (Bool-cases (same_version (x.redis.get_version w.store) w.last_version)) [
        | inl y ↦ rw y s
        | inr n ↦ rw n (reload_schedule-Seen r a now w s)
      ]

  -- What happens one after another: a request, which may fail, or a tick.
  pub data Step : Type 0 where
    requested : Change x → Step
    ticked : (reached again : Bool) (now : ℕ) → Step

  abbrev pub step : Step → World x → World x
  step (requested c) w = (change x c w).1
  step (ticked r a now) w = tick x r a now w

  unfoldable pub run : List Step → World x → World x
  run [] w = w
  run (s ∷ ss) w = run ss (step s w)

  step-Seen : (s : Step) (w : World x) → Seen x w → Seen x (step s w)
  step-Seen (requested c) w h = change-Seen x c w h
  step-Seen (ticked r a now) w h = tick-Seen r a now w h

  run-Seen : (ss : List Step) (w : World x) → Seen x w → Seen x (run ss w)
  unfolding run
  run-Seen [] w h = h
  run-Seen (s ∷ ss) w h = run-Seen ss (step s w) (step-Seen s w h)

  -- The scheduler is set up, and anything happens after it.
  pub set_up-Seen :
      (r a : Bool) (now : ℕ) (ss : List Step) (w : World x)
      → w.last_version ≡ none
      → Seen x (run ss (reload_schedule x r a now w))
  set_up-Seen r a now ss w n =
      run-Seen ss (reload_schedule x r a now w)
        (reload_schedule-Seen r a now w (rw n (omega arith)))
