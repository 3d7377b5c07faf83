-- ===== src/PeriodicTasks/Beat.antt =====
-- `DatabaseBeatScheduler` of api/core/celery_scheduler.py. Whether a read of the table succeeds is
-- an argument; what `Scheduler.tick` of Celery does with the schedule is not modelled.
use fastapi_asyncpg_template.Base.{
  ℕ, suc, zero, ◌*◌, String, Bool, true, false, Option, none, some, List, [], ◌∷◌, keep, str_eq,
  ◌==◌, truthy, ltb, if◌then◌else◌,
}
use fastapi_asyncpg_template.PeriodicTasks.World.{
  PeriodicTask, BeatServices, Schedule, run_every, cron, ScheduleEntry, World,
}

-- `int(task_row.get("interval_every") or 60)`
abbrev pub every_of : Option ℕ → ℕ
every_of none = 60
every_of (some zero) = 60
every_of (some (suc n)) = suc n

-- `seconds_multiplier`; a period that is NULL is the text None.
abbrev pub seconds_multiplier : Option String → ℕ
seconds_multiplier none = 60
seconds_multiplier (some p) =
    if str_eq p "seconds"
    then 1
    else (if str_eq p "minutes"
        then 60
        else (if str_eq p "hours" then 3600 else (if str_eq p "days" then 86400 else 60)))

-- `task_row.get(…) or "*"`
abbrev pub or_star : Option String → String
or_star none = "*"
or_star (some s) = if truthy s then s else "*"

-- `current_version != self._last_version`, denied.
abbrev pub same_version : Option ℕ → Option ℕ → Bool
same_version none none = true
same_version none (some v) = false
same_version (some u) none = false
same_version (some u) (some v) = u == v

module _ (x : BeatServices) where
  abbrev pub crontab_of : PeriodicTask x.Json → Option x.Cron
  crontab_of t =
      x.crontab (or_star t.cron_minute) (or_star t.cron_hour) (or_star t.cron_day_of_week)
        (or_star t.cron_day_of_month) (or_star t.cron_month_of_year)

  abbrev pub as_cron : Option x.Cron → Option (Schedule x.Cron)
  as_cron none = none
  as_cron (some c) = some (cron c)

  -- `schedule(run_every=timedelta(seconds=total_seconds))`, for which 10 ^ 9 days overflow.
  abbrev pub run_every_of : (total_seconds : ℕ) → Option (Schedule x.Cron)
  run_every_of n = if ltb n 86400000000000 then some (run_every n) else none

  -- `parse_schedule`, none where it raises.
  unfoldable pub parse_schedule : PeriodicTask x.Json → Option (Schedule x.Cron)
  parse_schedule t =
      if str_eq t.schedule_type "interval"
      then run_every_of (every_of t.interval_every * seconds_multiplier t.interval_period)
      else as_cron (crontab_of t)

  -- `new_schedule[name] = entry`
  abbrev pub assign :
      ScheduleEntry x.Json x.Cron
      → List (ScheduleEntry x.Json x.Cron)
      → List (ScheduleEntry x.Json x.Cron)
  assign e [] = e ∷ []
  assign e (f ∷ fs) = let rest = assign e fs in if str_eq f.name e.name then e ∷ fs else f ∷ rest

  abbrev pub add_entry :
      PeriodicTask x.Json
      → Option (Schedule x.Cron)
      → List (ScheduleEntry x.Json x.Cron)
      → List (ScheduleEntry x.Json x.Cron)
  add_entry t none es = es
  add_entry t (some s) es =
      assign
        (record { name = t.name; task = t.task; schedule = s; args = t.args; kwargs = t.kwargs }) es

  -- The loop of `reload_schedule` over the tasks.
  unfoldable pub new_schedule :
      List (PeriodicTask x.Json)
      → List (ScheduleEntry x.Json x.Cron)
      → List (ScheduleEntry x.Json x.Cron)
  new_schedule [] es = es
  new_schedule (t ∷ ts) es = new_schedule ts (add_entry t (parse_schedule t) es)

  -- `fetch_tasks_from_db`
  unfoldable pub fetch_tasks_from_db :
      (reached : Bool) → List (PeriodicTask x.Json) → List (PeriodicTask x.Json)
  fetch_tasks_from_db reached rows = if reached then keep (λ t. t.enabled) rows else []

  -- `tasks_data` with what the `try` block leaves in Redis and in `_last_version`.
  abbrev pub Loaded : Type 0
  Loaded = List (PeriodicTask x.Json) × x.redis.Store × Option ℕ

  abbrev pub fall_back : (again : Bool) → World x → Loaded
  fall_back again w = (fetch_tasks_from_db again w.rows, w.store, w.last_version)

  abbrev pub cache_tasks :
      (again : Bool) (now : ℕ) → World x → List (PeriodicTask x.Json) → Option String → Loaded
  cache_tasks again now w ts none = fall_back again w
  cache_tasks again now w ts (some d) =
      let store = x.redis.set_data w.store now d 3600 in (ts, store, x.redis.get_version store)

  abbrev pub load_from_db : (again : Bool) (now : ℕ) → World x → List (PeriodicTask x.Json) → Loaded
  load_from_db again now w [] = ([], w.store, x.redis.get_version w.store)
  load_from_db again now w (t ∷ ts) = cache_tasks again now w (t ∷ ts) (x.dumps (t ∷ ts))

  abbrev pub load_cached : (again : Bool) → World x → Option (List (PeriodicTask x.Json)) → Loaded
  load_cached again w none = fall_back again w
  load_cached again w (some ts) = (ts, w.store, x.redis.get_version w.store)

  abbrev pub load_tasks : (reached again : Bool) (now : ℕ) → World x → Option String → Loaded
  load_tasks reached again now w none =
      load_from_db again now w (fetch_tasks_from_db reached w.rows)
  load_tasks reached again now w (some d) =
      if truthy d
      then load_cached again w (x.loads d)
      else load_from_db again now w (fetch_tasks_from_db reached w.rows)

  -- `reload_schedule`: whether the first read of the table and the one after an error succeed.
  unfoldable pub reload_schedule : (reached again : Bool) (now : ℕ) → World x → World x
  reload_schedule reached again now w =
      let (ts, store, version) = load_tasks reached again now w (x.redis.get_data w.store now) in
      record w { store = store; last_version = version; schedule = new_schedule ts [] }

  -- `tick`
  unfoldable pub tick : (reached again : Bool) (now : ℕ) → World x → World x
  tick reached again now w =
      if same_version (x.redis.get_version w.store) w.last_version
      then w
      else reload_schedule reached again now w
