-- ===== src/DeadLetters/Tests.antt =====
-- Dead letter tasks at concrete tables.
use fastapi_asyncpg_template.Base.{
  true, ◌==◌, ℕ, ◌+◌, String, Option, some, none, List, [], ◌∷◌, ◌++◌, ◌≡◌, refl, keep, length, map,
  str_eq, arith, if◌then◌else◌,
}
use fastapi_asyncpg_template.Base.Http.{ok, err, error, Raised}
use fastapi_asyncpg_template.DeadLetters.Dao.{
  selected, Postgres, Task, Filter, matches, count_tasks,
}
use fastapi_asyncpg_template.DeadLetters.Capture.{Sender, Failure, handle_task_failure}
use fastapi_asyncpg_template.DeadLetters.Recovery.{resent, capture-retrigger}
use fastapi_asyncpg_template.DeadLetters.Values.{
  Value, null, list, tuple, number, no_values, value_then, IsJson, AllJson, json_serialize_safe,
  json_serialize_safe-IsJson,
}
use fastapi_asyncpg_template.DeadLetters.Lists.{fetch, list_tasks-follow}
use fastapi_asyncpg_template.DeadLetters.Retrigger.{
  chosen, others, reply_for, retrigger_tasks_conserves, retrigger_tasks_loses,
}
use fastapi_asyncpg_template.DeadLetters.Service.{
  Message, Letters, Request, message_of, retrigger_tasks,
}
use fastapi_asyncpg_template.Pagination.Follow.{follow}
use fastapi_asyncpg_template.Pagination.Page.{Base64}
use fastapi_asyncpg_template.Pagination.Select.{order_desc}
use fastapi_asyncpg_template.Pagination.Unary.{unary, read_unary, read_unary-unary, truthy-unary}

abbrev db : Postgres
db = record { Json = ℕ; merge = λ a b. a + b; ilike = str_eq; uuid = read_unary }

abbrev task : ℕ → String → Task db
task i name = record {
  id = i;
  task_id = "c";
  task_name = name;
  queue = "default";
  args = i;
  kwargs = 1;
  headers = 0;
  exception_type = none;
  exception_message = none;
  traceback = none;
  retry_count = 3;
  failed_at = 10;
  created_at = 10;
  updated_at = 10;
}

abbrev table : List (Task db)
table = task 1 "mail" ∷ task 3 "sync" ∷ task 2 "mail" ∷ task 4 "mail" ∷ []

abbrev letters : Letters db
letters = record { rows = table; sent = [] }

abbrev mail : Filter
mail = record {
  task_name = some "mail";
  exception_type = none;
  search = none;
  date_from = none;
  date_to = some 20;
}

abbrev base64 : Base64
base64 = record {
  encode_cursor = λ s. s;
  decode_cursor = λ s. some s;
  decode-encode = λ s. refl;
  encode_truthy = λ s h. h;
}

list_tasks-follow_example :
    (follow base64 (fetch db mail table) (λ t. unary t.id) 2 4 none
      ≡ some (keep (matches db mail) (order_desc (λ t. t.id) table)))
    × (length (keep (matches db mail) (order_desc (λ t. t.id) table)) ≡ count_tasks db mail table)
unfolding matches count_tasks
list_tasks-follow_example =
    list_tasks-follow db unary (record { uuid-text = read_unary-unary; truthy-text = truthy-unary })
      mail table (omega arith) base64 1 4 (omega arith)

abbrev mails : Option Request
mails = some (record { task_ids = some []; task_name = some "mail" })

abbrev taken : Message db → Option Raised
taken m = none

-- The broker refuses the message of the task 2.
abbrev flaky : Message db → Option Raised
flaky m = if m.args == 2 then some (error "OperationalError") else none

retrigger_tasks_conserves_example : retrigger_tasks db taken mails none letters ≡ (
  reply_for db taken none (chosen db taken mails none table),
  record {
    rows = others db taken mails none table;
    sent = [] ++ map (message_of db) (chosen db taken mails none table);
  },
)
unfolding message_of selected
retrigger_tasks_conserves_example =
    retrigger_tasks_conserves db taken mails none letters (refl, (refl, (refl, tt)))

retrigger_tasks_loses_example : retrigger_tasks db flaky mails none letters ≡ (
  err (error "OperationalError"),
  record {
    rows = others db flaky mails none table;
    sent = [] ++ map (message_of db) (task 1 "mail" ∷ []);
  },
)
unfolding message_of selected
retrigger_tasks_loses_example =
    retrigger_tasks_loses db flaky mails none letters (task 1 "mail" ∷ []) (task 2 "mail")
      (task 4 "mail" ∷ []) (error "OperationalError") refl (refl, tt) refl

abbrev worker : Sender
worker = record { name = some "mail"; str = "mail"; queue = none; request = none }

abbrev failure : Failure
failure = record {
  sender = some worker;
  task_id = some "d1";
  exception = some (record { type_name = "OSError"; message = "no route"; formatted = "OSError" });
  args = some (value_then (number 7) no_values);
  kwargs = none;
  traceback = none;
  einfo_traceback = none;
}

abbrev dumps : Value → ℕ
dumps (list (value_then (number n) vs)) = n
dumps v = 0

capture-retrigger_example :
    retrigger_tasks db taken none
      (some 9)
      (handle_task_failure db dumps 50 9 true true failure letters)
    ≡ (ok 1, record { rows = letters.rows; sent = [] ++ resent db dumps taken worker failure ∷ [] })
capture-retrigger_example =
    capture-retrigger db dumps taken 50 9 worker "d1" failure letters refl refl refl refl
      (refl, (refl, (refl, (refl, tt)))) refl

safe_tuple :
    IsJson (json_serialize_safe (tuple (value_then (number 1) no_values)))
    × (json_serialize_safe (list (value_then null no_values)) ≡ list (value_then null no_values))
unfolding IsJson AllJson
safe_tuple =
    json_serialize_safe-IsJson (tuple (value_then (number 1) no_values))
      (list (value_then null no_values)) (tt, tt)
