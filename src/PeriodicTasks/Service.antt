-- ===== src/PeriodicTasks/Service.antt =====
-- `PeriodicTaskDAO` and `PeriodicTaskService`. A read of the table sees what was written before, and
-- a row becomes a response without a check (`model_construct`).
use fastapi_asyncpg_template.Base.{
  coalesce, coalesce_null, ℕ, String, Bool, true, not, ◌&&◌, Option, none, some, List, [], ◌∷◌,
  ◌++◌, find, keep, any, str_eq, ◌==◌, is_some, if◌then◌else◌,
}
use fastapi_asyncpg_template.Base.Http.{
  gets, Result, ok, err, http, error, Raised, Handler, raise_if, or_raise, ◌>>=◌, ◌>>◌, pure,
  modify,
}
use fastapi_asyncpg_template.PeriodicTasks.World.{PeriodicTask, BeatServices, World}

-- `PeriodicTaskUpdate`
pub record PeriodicTaskUpdate (Json : Type 0) : Type 0 where
  pub name : Option String
  pub task : Option String
  pub schedule_type : Option String
  pub cron_minute : Option String
  pub cron_hour : Option String
  pub cron_day_of_week : Option String
  pub cron_day_of_month : Option String
  pub cron_month_of_year : Option String
  pub interval_every : Option ℕ
  pub interval_period : Option String
  pub args : Option Json
  pub kwargs : Option Json
  pub enabled : Option Bool

abbrev pub encoded_or_null : {Json : Type 0} → (Json → Json) → Option Json → Option Json
encoded_or_null encoded none = none
encoded_or_null encoded (some j) = some (encoded j)

-- The columns that `update_task` sets: the JSON columns are encoded by json.dumps and then again by
-- the codec of api/core/database.py, and read they are decoded once.
abbrev pub updated :
    {Json : Type 0}
    → (encoded : Json → Json) → PeriodicTaskUpdate Json
    → PeriodicTask Json
    → PeriodicTask Json
updated encoded u t = record {
  id = t.id;
  name = coalesce u.name t.name;
  task = coalesce u.task t.task;
  schedule_type = coalesce u.schedule_type t.schedule_type;
  cron_minute = coalesce_null u.cron_minute t.cron_minute;
  cron_hour = coalesce_null u.cron_hour t.cron_hour;
  cron_day_of_week = coalesce_null u.cron_day_of_week t.cron_day_of_week;
  cron_day_of_month = coalesce_null u.cron_day_of_month t.cron_day_of_month;
  cron_month_of_year = coalesce_null u.cron_month_of_year t.cron_month_of_year;
  interval_every = coalesce_null u.interval_every t.interval_every;
  interval_period = coalesce_null u.interval_period t.interval_period;
  args = coalesce (encoded_or_null encoded u.args) t.args;
  kwargs = coalesce (encoded_or_null encoded u.kwargs) t.kwargs;
  enabled = coalesce u.enabled t.enabled;
}

abbrev replace :
    {Json : Type 0} → PeriodicTask Json → List (PeriodicTask Json) → List (PeriodicTask Json)
replace t [] = []
replace t (r ∷ rs) = let rest = replace t rs in if r.id == t.id then t ∷ rest else r ∷ rest

abbrev pub task_exists : Raised
task_exists = http 400 "Periodic task already exists"

abbrev pub task_not_found : Raised
task_not_found = http 404 "Periodic task not found"

module _ (x : BeatServices) where
  -- `get_task_by_name`
  unfoldable pub get_task_by_name : String → Handler (World x) (Option (PeriodicTask x.Json))
  get_task_by_name n = gets λ w. find (λ t. str_eq t.name n) w.rows

  -- `get_task_by_id`
  unfoldable pub get_task_by_id : ℕ → Handler (World x) (Option (PeriodicTask x.Json))
  get_task_by_id i = gets λ w. find (λ t. t.id == i) w.rows

  -- The row of `create_task`, as it is read back.
  abbrev pub inserted : PeriodicTask x.Json → PeriodicTask x.Json
  inserted t = record t { args = x.encoded t.args; kwargs = x.encoded t.kwargs }

  -- The INSERT of `create_task`.
  unfoldable pub insert_task : PeriodicTask x.Json → Handler (World x) (PeriodicTask x.Json)
  insert_task t w = (ok (inserted t), record w { rows = w.rows ++ (inserted t ∷ []) })

  -- The UPDATE of `update_task`, for the row that it finds; names are unique.
  abbrev pub write_task : PeriodicTask x.Json → Handler (World x) (Option (PeriodicTask x.Json))
  write_task t w =
      if any (λ r. str_eq r.name t.name && not (r.id == t.id)) w.rows
      then (err (error "UniqueViolationError"), w)
      else (ok (some t), record w { rows = replace t w.rows })

  abbrev pub write_found :
      PeriodicTaskUpdate x.Json
      → Option (PeriodicTask x.Json)
      → Handler (World x) (Option (PeriodicTask x.Json))
  write_found u none w = (ok none, w)
  write_found u (some t) w = write_task (updated x.encoded u t) w

  -- `update_task` of the DAO
  unfoldable pub update_row :
      ℕ → PeriodicTaskUpdate x.Json → Handler (World x) (Option (PeriodicTask x.Json))
  update_row i u w = write_found u (find (λ t. t.id == i) w.rows) w

  -- `delete_task` of the DAO
  unfoldable pub delete_row : ℕ → Handler (World x) Bool
  delete_row i w =
      (ok (any (λ t. t.id == i) w.rows), record w { rows = keep (λ t. not (t.id == i)) w.rows })

  -- `_validate_task_exists`
  abbrev pub validate_task_exists : String → Handler (World x) (Unit {0})
  validate_task_exists n = raise_if (not (x.registered n)) (http 400 "not a registered Celery task")

  -- `if task_in.task is not None: …`
  abbrev pub validate_new_task : Option String → Handler (World x) (Unit {0})
  validate_new_task none = pure tt
  validate_new_task (some n) = validate_task_exists n

  -- `_notify_schedule_changed`
  abbrev pub notify_schedule_changed : World x → World x
  notify_schedule_changed w = record w {
    store = x.redis.incr_version (x.redis.delete_data w.store);
  }

  -- `get_task`
  unfoldable pub get_task : ℕ → Handler (World x) (PeriodicTask x.Json)
  get_task i = do t ← get_task_by_id i; or_raise t task_not_found

  -- `create_task`: the payload with the id that the table gives it.
  unfoldable pub create_task : PeriodicTask x.Json → Handler (World x) (PeriodicTask x.Json)
  create_task c = do
    validate_task_exists c.task
    existing ← get_task_by_name c.name
    raise_if (is_some existing) task_exists
    t ← insert_task c
    modify notify_schedule_changed
    pure t

  -- `update_task`
  unfoldable pub update_task :
      ℕ → PeriodicTaskUpdate x.Json → Handler (World x) (PeriodicTask x.Json)
  update_task i u = do
    validate_new_task u.task
    found ← update_row i u
    t ← or_raise found task_not_found
    modify notify_schedule_changed
    pure t

  -- `delete_task`
  unfoldable pub delete_task : ℕ → Handler (World x) Bool
  delete_task i = do
    deleted ← delete_row i
    raise_if (not deleted) task_not_found
    modify notify_schedule_changed
    pure true

  -- A request that changes the periodic tasks.
  pub data Change : Type 0 where
    created : PeriodicTask x.Json → Change
    edited : ℕ → PeriodicTaskUpdate x.Json → Change
    removed : ℕ → Change

  abbrev pub forget : {A : Type 0} → Result A × World x → Result (Unit {0}) × World x
  forget (ok a, w) = (ok tt, w)
  forget (err e, w) = (err e, w)

  unfoldable pub change : Change → Handler (World x) (Unit {0})
  change (created c) w = forget (create_task c w)
  change (edited i u) w = forget (update_task i u w)
  change (removed i) w = forget (delete_task i w)
