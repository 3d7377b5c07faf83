-- ===== src/PeriodicTasks/Tests.antt =====
-- Periodic tasks and their scheduler at a concrete table.
use fastapi_asyncpg_template.Base.{
  List, ℕ, suc, eq_iff, ◌+◌, ◌≡◌, refl, String, true, false, Option, none, some, [], ◌∷◌, ltb,
  if◌then◌else◌,
}
use fastapi_asyncpg_template.Base.Http.{ok}
use fastapi_asyncpg_template.PeriodicTasks.Beat.{
  reload_schedule, fetch_tasks_from_db, new_schedule, parse_schedule, tick,
}
use fastapi_asyncpg_template.PeriodicTasks.Entries.{Matches}
use fastapi_asyncpg_template.PeriodicTasks.Seen.{Step, requested, ticked, run}
use fastapi_asyncpg_template.PeriodicTasks.Service.{
  removed, delete_task, delete_row, PeriodicTaskUpdate, edited, change, update_task, update_row,
}
use fastapi_asyncpg_template.PeriodicTasks.Ticks.{ticks, change-ticks, change-unreached}
use fastapi_asyncpg_template.PeriodicTasks.World.{
  PeriodicTask, ScheduleRedis, BeatServices, run_every, ScheduleEntry, World, next_version,
}

-- The cached schedule with the time at which it goes, and the version.
abbrev Memory : Type 0
Memory = Option (String × ℕ) × Option ℕ

abbrev cached : Option (String × ℕ) → ℕ → Option String
cached none now = none
cached (some (d, gone)) now = if ltb now gone then some d else none

abbrev in_memory : ScheduleRedis
in_memory = record {
  Store = Memory;
  get_data = λ s now. cached s.0 now;
  set_data = λ s now d ex. (some (d, now + ex), s.1);
  delete_data = λ s. (none, s.1);
  get_version = λ s. s.1;
  incr_version = λ s. (s.0, some (next_version s.1));
  get_data-delete = λ s now. refl;
  get_data-incr = λ s now. refl;
  get_version-delete = λ s. refl;
  get_version-set = λ s now d ex. refl;
  get_version-incr = λ s. refl;
}

-- Rows with an id and times are no JSON.
abbrev services : BeatServices
services = record {
  redis = in_memory;
  Json = ℕ;
  Cron = String;
  dumps = λ ts. none;
  loads = λ s. none;
  crontab = λ a b c d e. some a;
  registered = λ s. true;
  encoded = λ j. suc j;
}

abbrev task : ℕ → String → PeriodicTask ℕ
task i n = record {
  id = i;
  name = n;
  task = "common.clean";
  schedule_type = "interval";
  cron_minute = none;
  cron_hour = none;
  cron_day_of_week = none;
  cron_day_of_month = none;
  cron_month_of_year = none;
  interval_every = some 5;
  interval_period = some "minutes";
  args = 0;
  kwargs = 0;
  enabled = true;
}

-- The task is switched off.
abbrev off : PeriodicTaskUpdate ℕ
off = record {
  name = none;
  task = none;
  schedule_type = none;
  cron_minute = none;
  cron_hour = none;
  cron_day_of_week = none;
  cron_day_of_month = none;
  cron_month_of_year = none;
  interval_every = none;
  interval_period = none;
  args = none;
  kwargs = none;
  enabled = some false;
}

abbrev entry : String → ScheduleEntry ℕ String
entry n = record { name = n; task = "common.clean"; schedule = run_every 300; args = 0; kwargs = 0 }

abbrev world_off : World services
world_off = record {
  rows = record (task 1 "logs") { enabled = false } ∷ task 2 "sessions" ∷ [];
  store = (none, some 5);
  last_version = none;
  schedule = entry "logs" ∷ entry "sessions" ∷ [];
}

five_minutes : parse_schedule services (task 1 "logs") ≡ some (run_every 300)
unfolding parse_schedule
five_minutes = refl

-- What there is when the scheduler starts.
abbrev start : World services
start = record {
  rows = task 1 "logs" ∷ task 2 "sessions" ∷ [];
  store = (some ("old", 3600), some 4);
  last_version = none;
  schedule = [];
}

-- The scheduler is set up and cannot read the table; then a task is not found, and there is a tick.
abbrev steps : List (Step services)
steps = requested (removed 7) ∷ ticked true true 5 ∷ []

changed :
    change services
      (edited 1 off)
      (run services steps (reload_schedule services false false 0 start))
    ≡ (ok tt, world_off)
unfolding change update_task update_row delete_task delete_row run reload_schedule tick
    fetch_tasks_from_db new_schedule parse_schedule
changed = refl

change-ticks_example :
    Matches services world_off.rows (ticks services true true (10 ∷ 15 ∷ []) world_off).schedule
    × ((ticks services true true (10 ∷ 15 ∷ []) world_off).rows ≡ world_off.rows)
change-ticks_example =
    change-ticks services false false 0 steps start (edited 1 off) world_off 10 (15 ∷ []) refl
      changed (((λ q. absurd (cc ((eq_iff "sessions" "logs").1 q))), tt), (tt, tt))

-- An interval of 10 ^ 9 days overflows.
overflow :
    parse_schedule services
      (record (task 1 "logs") { interval_every = some 1000000000; interval_period = some "days" })
    ≡ none
unfolding parse_schedule
overflow = refl

change-unreached_example :
    (ticks services true true (15 ∷ 20 ∷ []) (tick services false false 10 world_off)).schedule ≡ []
change-unreached_example =
    change-unreached services false false 0 steps start (edited 1 off) world_off false true true 10
      (15 ∷ 20 ∷ []) refl changed
