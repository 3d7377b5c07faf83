-- ===== src/PeriodicTasks/World.antt =====
-- What the service of periodic tasks and the scheduler share: the table of
-- api/migrations/004_periodic_tasks.sql, the two keys in Redis, and what the scheduler keeps.
use fastapi_asyncpg_template.Base.{ℕ, ◌≡◌, suc, String, Bool, Option, none, some, List}

-- A row, less when it was made and ran. `args` and `kwargs` are as they are read.
pub record PeriodicTask (Json : Type 0) : Type 0 where
  pub id : ℕ
  pub name : String
  pub task : String
  pub schedule_type : String
  pub cron_minute : Option String
  pub cron_hour : Option String
  pub cron_day_of_week : Option String
  pub cron_day_of_month : Option String
  pub cron_month_of_year : Option String
  pub interval_every : Option ℕ
  pub interval_period : Option String
  pub args : Json
  pub kwargs : Json
  pub enabled : Bool

abbrev pub next_version : Option ℕ → ℕ
next_version none = 1
next_version (some v) = suc v

-- GET, SET with EX and DEL of celery:beat_schedule_data; GET and INCR of celery:schedule_version.
pub record ScheduleRedis : Type 1 where
  pub Store : Type 0
  pub get_data : Store → (now : ℕ) → Option String
  pub set_data : Store → (now : ℕ) → String → (ex : ℕ) → Store
  pub delete_data : Store → Store
  pub get_version : Store → Option ℕ
  pub incr_version : Store → Store
  pub get_data-delete : (s : Store) (now : ℕ) → get_data (delete_data s) now ≡ none
  pub get_data-incr : (s : Store) (now : ℕ) → get_data (incr_version s) now ≡ get_data s now
  pub get_version-delete : (s : Store) → get_version (delete_data s) ≡ get_version s
  pub get_version-set :
      (s : Store) (now : ℕ) (d : String) (ex : ℕ)
      → get_version (set_data s now d ex) ≡ get_version s
  pub get_version-incr :
      (s : Store) → get_version (incr_version s) ≡ some (next_version (get_version s))

-- Redis, `json.dumps` and `json.loads` of the rows and `crontab`, which may raise, the tasks that are
-- registered with Celery, and the JSON of a value as a text, which is a JSON value itself.
pub record BeatServices : Type 1 where
  pub redis : ScheduleRedis
  pub Json : Type 0
  pub Cron : Type 0
  pub dumps : List (PeriodicTask Json) → Option String
  pub loads : String → Option (List (PeriodicTask Json))
  pub crontab : (minute hour day_of_week day_of_month month_of_year : String) → Option Cron
  pub registered : String → Bool
  pub encoded : Json → Json

pub data Schedule (Cron : Type 0) : Type 0 where
  run_every : ℕ → Schedule Cron
  cron : Cron → Schedule Cron

-- `ScheduleEntry`
pub record ScheduleEntry (Json Cron : Type 0) : Type 0 where
  pub name : String
  pub task : String
  pub schedule : Schedule Cron
  pub args : Json
  pub kwargs : Json

-- The table, Redis, and the scheduler's `_last_version` and `schedule`.
pub record World (x : BeatServices) : Type 0 where
  pub rows : List (PeriodicTask x.Json)
  pub store : x.redis.Store
  pub last_version : Option ℕ
  pub schedule : List (ScheduleEntry x.Json x.Cron)
