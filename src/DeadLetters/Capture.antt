-- ===== src/DeadLetters/Capture.antt =====
-- The signal handler `handle_task_failure` of api/core/celery_app.py, which writes a failed task into
-- the table. It runs the insertion on one of three event loops; here it has run.
use fastapi_asyncpg_template.Base.{
  ℕ, String, Bool, true, false, ◌||◌, not, Option, none, some, List, [], ◌∷◌, ◌++◌, str_mem, truthy,
  if◌then◌else◌,
}
use fastapi_asyncpg_template.DeadLetters.Dao.{Postgres, Task}
use fastapi_asyncpg_template.DeadLetters.Service.{Letters}
use fastapi_asyncpg_template.DeadLetters.Values.{
  Value, Values, Fields, no_values, no_fields, list, mapping, json_serialize_safe,
}

-- `DLQConstants.EXCLUDED_TASKS`
abbrev pub excluded_tasks : List String
excluded_tasks =
    "celery.ping" ∷ "celery.backend_cleanup" ∷ "celery.chain" ∷ "celery.group" ∷ "celery.chord"
    ∷ "dlq_tasks.clean_old_dlq_tasks" ∷ []

-- An exception: the name of its type, its text and its formatted traceback.
pub record Raising : Type 0 where
  pub type_name : String
  pub message : String
  pub formatted : String

-- `sender.request`, with what `getattr` finds of it.
pub record TaskRequest : Type 0 where
  pub headers : Option Fields
  pub retries : Option ℕ

pub record Sender : Type 0 where
  pub name : Option String
  pub str : String
  pub queue : Option String
  pub request : Option TaskRequest

-- What the signal says.
pub record Failure : Type 0 where
  pub sender : Option Sender
  pub task_id : Option String
  pub exception : Option Raising
  pub args : Option Values
  pub kwargs : Option Fields
  pub traceback : Option String
  pub einfo_traceback : Option String

-- `_format_task_traceback`
unfoldable pub format_task_traceback : Option Raising → Option String → Option String → String
format_task_traceback exception traceback (some t) = t
format_task_traceback exception (some t) none = t
format_task_traceback (some e) none none = e.formatted
format_task_traceback none none none = ""

abbrev pub task_name_of : Sender → String
task_name_of s = elim s.name [ some n ↦ n | none ↦ s.str ]

-- `getattr(sender, "queue", None) or "default"`
abbrev pub queue_or_default : Option String → String
queue_or_default none = "default"
queue_or_default (some q) = if truthy q then q else "default"

abbrev pub or_no_values : Option Values → Values
or_no_values none = no_values
or_no_values (some vs) = vs

abbrev pub or_no_fields : Option Fields → Fields
or_no_fields none = no_fields
or_no_fields (some fs) = fs

abbrev pub headers_of : Option TaskRequest → Option Fields
headers_of none = none
headers_of (some r) = r.headers

abbrev pub retries_of : Option TaskRequest → ℕ
retries_of none = 0
retries_of (some r) = elim r.retries [ none ↦ 0 | some n ↦ n ]

abbrev pub type_of : Option Raising → String
type_of none = "UnknownException"
type_of (some e) = e.type_name

abbrev pub message_text : Option Raising → String
message_text none = "Task failed without exception message"
message_text (some e) = e.message

-- `json.dumps` as PostgreSQL reads it, with what the table draws: an id and the time.
module _ (db : Postgres) (dumps : Value → db.Json) (now id : ℕ) where
  -- The row of `_save_dead_letter_task`.
  unfoldable pub dead_letter : Sender → (task_id : String) → Failure → Task db
  unfolding format_task_traceback
  dead_letter s task_id f = record {
    id = id;
    task_id = task_id;
    task_name = task_name_of s;
    queue = queue_or_default s.queue;
    args = dumps (json_serialize_safe (list (or_no_values f.args)));
    kwargs = dumps (json_serialize_safe (mapping (or_no_fields f.kwargs)));
    headers = dumps (json_serialize_safe (mapping (or_no_fields (headers_of s.request))));
    exception_type = some (type_of f.exception);
    exception_message = some (message_text f.exception);
    traceback = some (format_task_traceback f.exception f.traceback f.einfo_traceback);
    retry_count = retries_of s.request;
    failed_at = now;
    created_at = now;
    updated_at = now;
  }

  -- `_save_dead_letter_task`: an insertion that fails is logged.
  abbrev pub save_dead_letter_task : (written : Bool) → Task db → Letters db → Letters db
  save_dead_letter_task true t w = record w { rows = w.rows ++ t ∷ [] }
  save_dead_letter_task false t w = w

  abbrev pub capture_from :
      (initialized written : Bool) → Sender → String → Failure → Letters db → Letters db
  capture_from initialized written s task_id f w =
      if not (truthy task_id) || str_mem (task_name_of s) excluded_tasks || not initialized
      then w
      else save_dead_letter_task written (dead_letter s task_id f) w

  -- `handle_task_failure`; `initialized` says whether the worker has its database.
  unfoldable pub handle_task_failure :
      (initialized written : Bool) → Failure → Letters db → Letters db
  handle_task_failure initialized written f w = elim f.sender [
    | none ↦ w
    | some s ↦ elim f.task_id [
      | none ↦ w
      | some task_id ↦ capture_from initialized written s task_id f w
    ]
  ]
