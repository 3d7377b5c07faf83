-- ===== src/DeadLetters/Service.antt =====
-- api/apps/common/v0/service/dead_letter_task.py
use fastapi_asyncpg_template.Base.{ℕ, suc, String, Option, some, none, List, [], ◌∷◌, ◌++◌}
use fastapi_asyncpg_template.Base.Http.{Result, ok, err, http, Raised, Handler, or_raise}
use fastapi_asyncpg_template.DeadLetters.Dao.{
  Postgres, Task, Payload, get_task_by_id, update_rows, delete_rows, fetch_and_delete_tasks, ids_of,
}

-- What `celery_app.send_task` is called with.
pub record Message (db : Postgres) : Type 0 where
  pub task_name : String
  pub args : db.Json
  pub kwargs : db.Json
  pub queue : String

-- The table and what the broker has taken.
pub record Letters (db : Postgres) : Type 0 where
  pub rows : List (Task db)
  pub sent : List (Message db)

-- `DLQTargetBase`
pub record Request : Type 0 where
  pub task_ids : Option (List ℕ)
  pub task_name : Option String

abbrev pub not_found : Raised
not_found = http 404 "Dead letter task not found."

module _ (db : Postgres) where
  unfoldable pub message_of : Task db → Message db
  message_of t = record {
    task_name = t.task_name;
    args = t.args;
    kwargs = t.kwargs;
    queue = t.queue;
  }

  abbrev pub task_ids_of : Option Request → Option (List ℕ)
  task_ids_of none = none
  task_ids_of (some r) = r.task_ids

  abbrev pub task_name_of : Option Request → Option String
  task_name_of none = none
  task_name_of (some r) = r.task_name

  -- The loop of `retrigger_tasks`; `broker` says what `send_task` raises for a message, if it does.
  unfoldable pub send_tasks :
      (broker : Message db → Option Raised)
      → List (Task db)
      → (retriggered_count : ℕ) → List (Message db)
      → Result ℕ × List (Message db)
  send_tasks broker [] retriggered_count sent = (ok retriggered_count, sent)
  send_tasks broker (t ∷ ts) retriggered_count sent = elim (broker (message_of t)) [
    | some e ↦ (err e, sent)
    | none ↦ send_tasks broker ts (suc retriggered_count) (sent ++ (message_of t ∷ []))
  ]

  -- `retrigger_tasks`: its affected_count.
  unfoldable pub retrigger_tasks :
      (broker : Message db → Option Raised)
      → Option Request
      → (task_id : Option ℕ) → Handler (Letters db) ℕ
  retrigger_tasks broker request task_id w =
      let (tasks, rows) =
        fetch_and_delete_tasks db (ids_of db task_id (task_ids_of request)) (task_name_of request)
          w.rows in
      elim tasks [
        | [] ↦ (elim task_id [ none ↦ ok 0 | some i ↦ err not_found ], record w { rows = rows })
        | t ∷ ts ↦
            let (r, sent) = send_tasks broker (t ∷ ts) 0 w.sent in
            (r, record { rows = rows; sent = sent })
      ]

  -- `get_task_by_id`
  unfoldable pub find_task : ℕ → Handler (Letters db) (Task db)
  find_task i w = or_raise (get_task_by_id db i w.rows) not_found w

  -- `update_task_payload`: its affected_count.
  unfoldable pub update_task_payload :
      (now : ℕ) → Payload db → (task_id : Option ℕ) → Handler (Letters db) ℕ
  update_task_payload now payload task_id w =
      let (count, rows) = update_rows db now payload task_id w.rows in
      (ok count, record w { rows = rows })

  -- `task_ids or (request.task_ids if request else None)`
  abbrev pub or_ids : Option (List ℕ) → Option (List ℕ) → Option (List ℕ)
  or_ids (some (i ∷ is)) other = some (i ∷ is)
  or_ids (some []) other = other
  or_ids none other = other

  -- `delete_tasks`: its affected_count.
  unfoldable pub delete_tasks :
      Option Request → (task_id : Option ℕ) → (task_ids : Option (List ℕ)) → Handler (Letters db) ℕ
  delete_tasks request task_id task_ids w =
      let (count, rows) =
        delete_rows db (ids_of db task_id (or_ids task_ids (task_ids_of request)))
          (task_name_of request) w.rows in
      (ok count, record w { rows = rows })
