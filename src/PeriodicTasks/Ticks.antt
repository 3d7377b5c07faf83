-- ===== src/PeriodicTasks/Ticks.antt =====
-- The schedule at the ticks after a change of the periodic tasks.
use fastapi_asyncpg_template.Base.{
  ℕ, ◌≡◌, refl, sym, ap, ◌∙◌, subst, ◌⊎◌, inl, inr, Bool, true, false, none, List, [], ◌∷◌,
  Bool-cases, Option-cases,
}
use fastapi_asyncpg_template.Base.Http.{ok}
use fastapi_asyncpg_template.PeriodicTasks.Beat.{
  fetch_tasks_from_db, new_schedule, reload_schedule, same_version, tick, load_from_db,
}
use fastapi_asyncpg_template.PeriodicTasks.Changes.{
  same_version_refl, change-Notifies, Notified-stale,
}
use fastapi_asyncpg_template.PeriodicTasks.Entries.{Named, Matches, new_schedule-Matches}
use fastapi_asyncpg_template.PeriodicTasks.Seen.{Step, run, set_up-Seen}
use fastapi_asyncpg_template.PeriodicTasks.Service.{Change, change}
use fastapi_asyncpg_template.PeriodicTasks.World.{PeriodicTask, BeatServices, World}

module _ (x : BeatServices) where
  -- Ticks one after another, at each the same reads of the table succeeding.
  unfoldable pub ticks : (reached again : Bool) → List ℕ → World x → World x
  ticks reached again [] w = w
  ticks reached again (now ∷ ns) w = ticks reached again ns (tick x reached again now w)

  tick-seen :
      (r a : Bool) (now : ℕ) (w : World x)
      → same_version (x.redis.get_version w.store) w.last_version ≡ true
      → tick x r a now w ≡ w
  unfolding tick
  tick-seen r a now w h = rw h refl

  ticks-seen :
      (r a : Bool) (ns : List ℕ) (w : World x)
      → same_version (x.redis.get_version w.store) w.last_version ≡ true
      → ticks r a ns w ≡ w
  unfolding ticks
  ticks-seen r a [] w h = refl
  ticks-seen r a (n ∷ ns) w h = ap (ticks r a ns) (tick-seen r a n w h) ∙ ticks-seen r a ns w h

  -- Nothing is cached, or the version is the one that the scheduler has seen.
  abbrev Current : World x → Type 0
  Current w =
      (same_version (x.redis.get_version w.store) w.last_version ≡ true)
      ⊎ ((n : ℕ) → x.redis.get_data w.store n ≡ none)

  abbrev Follows : World x → World x → Type 0
  Follows w w' =
      (w'.schedule ≡ new_schedule x (fetch_tasks_from_db x true w.rows) [])
      × (w'.rows ≡ w.rows)
      × Current w'

  loaded-Follows :
      (now : ℕ) (w : World x) (ts : List (PeriodicTask x.Json))
      → ((n : ℕ) → x.redis.get_data w.store n ≡ none)
      → ts ≡ fetch_tasks_from_db x true w.rows
      → let (us, store, version) = load_from_db x true now w ts in
        Follows w
          (record w { store = store; last_version = version; schedule = new_schedule x us [] })
  loaded-Follows now w [] h e = (
    ap (λ us. new_schedule x us []) e,
    refl,
    inl (same_version_refl (x.redis.get_version w.store)),
  )
  loaded-Follows now w (t ∷ ts) h e = elim (Option-cases (x.dumps (t ∷ ts))) [
    | inl n ↦ rw n (refl, refl, inr h)
    | inr (d, y) ↦ rw y (
      ap (λ us. new_schedule x us []) e,
      refl,
      inl (same_version_refl (x.redis.get_version (x.redis.set_data w.store now d 3600))),
    )
  ]

  reload_schedule-Follows :
      (now : ℕ) (w : World x)
      → ((n : ℕ) → x.redis.get_data w.store n ≡ none)
      → Follows w (reload_schedule x true true now w)
  unfolding reload_schedule
  reload_schedule-Follows now w h =
      rw (h now) (loaded-Follows now w (fetch_tasks_from_db x true w.rows) h refl)

  tick-stale :
      (r a : Bool) (now : ℕ) (w : World x)
      → same_version (x.redis.get_version w.store) w.last_version ≡ false
      → tick x r a now w ≡ reload_schedule x r a now w
  unfolding tick
  tick-stale r a now w h = rw h refl

  tick-Follows : (now : ℕ) (w w' : World x) → Follows w w' → Follows w (tick x true true now w')
  tick-Follows now w w' (e, q, c) =
      elim (Bool-cases (same_version (x.redis.get_version w'.store) w'.last_version)) [
        | inl y ↦ subst (Follows w) (sym (tick-seen true true now w' y)) (e, q, c)
        | inr n ↦ subst (Follows w) (sym (tick-stale true true now w' n)) (stale-Follows c n)
      ]
    where
      stale-Follows :
          Current w'
          → same_version (x.redis.get_version w'.store) w'.last_version ≡ false
          → Follows w (reload_schedule x true true now w')
      stale-Follows (inl y) n = absurd (cc (y, n))
      stale-Follows (inr h) n =
          let (e', q', c') = reload_schedule-Follows now w' h in
          (e' ∙ ap (λ rs. new_schedule x (fetch_tasks_from_db x true rs) []) q, q' ∙ q, c')

  ticks-Follows : (ns : List ℕ) (w w' : World x) → Follows w w' → Follows w (ticks true true ns w')
  unfolding ticks
  ticks-Follows [] w w' f = f
  ticks-Follows (n ∷ ns) w w' f = ticks-Follows ns w (tick x true true n w') (tick-Follows n w w' f)

  change-stale :
      (r a : Bool) (start : ℕ) (steps : List (Step x)) (v : World x) (c : Change x) (w' : World x)
      → v.last_version ≡ none
      → change x c (run x steps (reload_schedule x r a start v)) ≡ (ok tt, w')
      → ((n : ℕ) → x.redis.get_data w'.store n ≡ none)
        × (same_version (x.redis.get_version w'.store) w'.last_version ≡ false)
  change-stale r a start steps v c w' n h =
      let w = run x steps (reload_schedule x r a start v) in
      Notified-stale x w w' (set_up-Seen x r a start steps v n) (change-Notifies x c w w' tt h)

  -- The scheduler is set up, then requests and ticks come in any order, whether or not they fail or
  -- can read the table and whether or not rows can be cached. After a creation, an update or a
  -- deletion of a periodic task that returns and leaves distinct names, and a first tick and any further
  -- ticks that can read the table: under the name of each row of the table the schedule has an entry
  -- exactly if the row is enabled and its schedule can be parsed, with the row's task, schedule and
  -- arguments; it has no entry of another name; and the table is as the change left it.
  pub change-ticks :
      (r a : Bool) (start : ℕ) (steps : List (Step x)) (v : World x) (c : Change x) (w' : World x)
      (now : ℕ) (ns : List ℕ)
      → v.last_version ≡ none
      → change x c (run x steps (reload_schedule x r a start v)) ≡ (ok tt, w')
      → Named x w'.rows
      → Matches x w'.rows (ticks true true (now ∷ ns) w').schedule
        × ((ticks true true (now ∷ ns) w').rows ≡ w'.rows)
  unfolding ticks
  change-ticks r a start steps v c w' now ns n h d =
      let (none_cached, stale) = change-stale r a start steps v c w' n h in
      let first : Follows w' (tick x true true now w') =
        subst (Follows w') (sym (tick-stale true true now w' stale))
          (reload_schedule-Follows now w' none_cached) in
      let (e, q, k) = ticks-Follows ns w' (tick x true true now w') first in
      (subst (Matches x w'.rows) (sym e) (new_schedule-Matches x w'.rows d), q)

  reload_schedule-unreached :
      (a : Bool) (now : ℕ) (w : World x)
      → ((n : ℕ) → x.redis.get_data w.store n ≡ none)
      → reload_schedule x false a now w
        ≡ record w { last_version = x.redis.get_version w.store; schedule = [] }
  unfolding reload_schedule fetch_tasks_from_db new_schedule
  reload_schedule-unreached a now w h = rw (h now) refl

  -- The scheduler is set up, then requests and ticks come in any order, whether or not they fail or
  -- can read the table. After a change of the periodic tasks that returns and a tick that cannot read
  -- the table: the schedule is empty, and it stays empty at all further ticks up to the next change,
  -- though these could read the table.
  pub change-unreached :
      (r a : Bool) (start : ℕ) (steps : List (Step x)) (v : World x) (c : Change x) (w' : World x)
      (again reached again' : Bool) (now : ℕ) (ns : List ℕ)
      → v.last_version ≡ none
      → change x c (run x steps (reload_schedule x r a start v)) ≡ (ok tt, w')
      → (ticks reached again' ns (tick x false again now w')).schedule ≡ []
  change-unreached r a start steps v c w' again reached again' now ns n h =
      let (none_cached, stale) = change-stale r a start steps v c w' n h in
      let w'' = record w' { last_version = x.redis.get_version w'.store; schedule = [] } in
      ap (λ (k : World x). (ticks reached again' ns k).schedule)
        (tick-stale false again now w' stale ∙ reload_schedule-unreached again now w' none_cached)
      ∙ ap (λ (k : World x). k.schedule)
          (ticks-seen reached again' ns w'' (same_version_refl (x.redis.get_version w'.store)))
