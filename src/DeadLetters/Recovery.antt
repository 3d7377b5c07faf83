-- ===== src/DeadLetters/Recovery.antt =====
-- A task that fails and is sent again.
use fastapi_asyncpg_template.Base.{
  ℕ, ◌≡◌, refl, ap, ◌∙◌, String, true, false, Option, some, none, List, [], ◌∷◌, ◌++◌, ◌==◌,
  str_mem, truthy, arith,
}
use fastapi_asyncpg_template.Base.Http.{ok, Raised}
use fastapi_asyncpg_template.DeadLetters.Capture.{
  Failure, Sender, task_name_of, queue_or_default, or_no_values, or_no_fields, dead_letter,
  handle_task_failure, excluded_tasks,
}
use fastapi_asyncpg_template.DeadLetters.Dao.{Postgres, Task, selected}
use fastapi_asyncpg_template.DeadLetters.Retrigger.{chosen, others, retrigger_tasks_conserves}
use fastapi_asyncpg_template.DeadLetters.Service.{Message, Letters, message_of, retrigger_tasks}
use fastapi_asyncpg_template.DeadLetters.Values.{Value, list, mapping, json_serialize_safe}

module _ (db : Postgres) (dumps : Value → db.Json) (broker : Message db → Option Raised) where
  -- No row has the id.
  abbrev pub Fresh : ℕ → List (Task db) → Type 0
  Fresh i [] = Unit {0}
  Fresh i (t ∷ ts) = ((t.id == i) ≡ false) × Fresh i ts

  keep-Fresh :
      (i : ℕ) (t : Task db) (ts : List (Task db))
      → (t.id == i) ≡ true
      → Fresh i ts
      → (chosen db broker none (some i) (ts ++ t ∷ []) ≡ t ∷ [])
        × (others db broker none (some i) (ts ++ t ∷ []) ≡ ts)
  unfolding selected
  keep-Fresh i t [] e f = rw e (refl, refl)
  keep-Fresh i t (u ∷ ts) e (n, f) =
      rw n ((keep-Fresh i t ts e f).0, ap (λ us. u ∷ us) (keep-Fresh i t ts e f).1)

  -- The message that a failed task is sent again with.
  abbrev pub resent : Sender → Failure → Message db
  resent s f = record {
    task_name = task_name_of s;
    args = dumps (json_serialize_safe (list (or_no_values f.args)));
    kwargs = dumps (json_serialize_safe (mapping (or_no_fields f.kwargs)));
    queue = queue_or_default s.queue;
  }

  -- A task with an id and a name that is not excluded fails on a worker that has its database, and
  -- the row is written under a fresh id; then a retrigger of that id, of which the broker takes the
  -- message, counts one, sends one message, with the task's name, the arguments of the call as JSON
  -- and the queue that the task declares or else default, and leaves the table as it was before.
  pub capture-retrigger :
      (now i : ℕ) (s : Sender) (task_id : String) (f : Failure) (w : Letters db)
      → f.sender ≡ some s
      → f.task_id ≡ some task_id
      → truthy task_id ≡ true
      → str_mem (task_name_of s) excluded_tasks ≡ false
      → Fresh i w.rows
      → broker (resent s f) ≡ none
      → retrigger_tasks db broker none (some i) (handle_task_failure db dumps now i true true f w)
        ≡ (ok 1, record { rows = w.rows; sent = w.sent ++ resent s f ∷ [] })
  unfolding handle_task_failure dead_letter message_of
  capture-retrigger now i s task_id f w a b c d fresh taken =
      let t = dead_letter db dumps now i s task_id f in
      let (picked, left) = keep-Fresh i t w.rows (ground arith) fresh in
      let caught : handle_task_failure db dumps now i true true f w
          ≡ record w { rows = w.rows ++ t ∷ [] } =
        rw (a, b, c, d) refl in
      ap (retrigger_tasks db broker none (some i)) caught
      ∙ retrigger_tasks_conserves db broker none (some i) (record w { rows = w.rows ++ t ∷ [] })
          (rw picked (taken, tt))
      ∙ rw (picked, left) refl
