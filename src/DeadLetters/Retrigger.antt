-- ===== src/DeadLetters/Retrigger.antt =====
-- `retrigger_tasks`: what is sent, what stays in the table, and what is lost when the broker refuses.
use mathlib.Core.List.{append_assoc, append-nil}
use fastapi_asyncpg_template.Base.{
  ℕ, suc, ◌+◌, ◌≡◌, refl, sym, ap, ◌∙◌, true, not, Option, some, none, List, [], ◌∷◌, ◌++◌, map,
  keep, length, arith,
}
use fastapi_asyncpg_template.Base.Http.{Result, ok, err, Raised}
use fastapi_asyncpg_template.DeadLetters.Dao.{
  Postgres, Task, selected, ids_of, fetch_and_delete_tasks,
}
use fastapi_asyncpg_template.DeadLetters.Service.{
  Message, Letters, Request, not_found, message_of, task_ids_of, task_name_of, send_tasks,
  retrigger_tasks,
}

module _ (db : Postgres) (broker : Message db → Option Raised) where
  -- The broker takes every one of the tasks.
  abbrev pub Taken : List (Task db) → Type 0
  Taken [] = Unit {0}
  Taken (t ∷ ts) = (broker (message_of db t) ≡ none) × Taken ts

  -- The tasks that a retrigger selects.
  abbrev pub chosen : Option Request → Option ℕ → List (Task db) → List (Task db)
  chosen request task_id =
      keep (selected db true (ids_of db task_id (task_ids_of db request)) (task_name_of db request))

  abbrev pub others : Option Request → Option ℕ → List (Task db) → List (Task db)
  others request task_id = keep (λ t.
      not
        (selected db true (ids_of db task_id (task_ids_of db request)) (task_name_of db request) t))

  send_tasks-Taken :
      (ts rest : List (Task db)) (n : ℕ) (sent : List (Message db))
      → Taken ts
      → send_tasks db broker (ts ++ rest) n sent
        ≡ send_tasks db broker rest (n + length ts) (sent ++ map (message_of db) ts)
  unfolding send_tasks
  send_tasks-Taken [] rest n sent h = λ i.
      send_tasks db broker rest ((let e : n ≡ n + 0 = omega arith in e) i) (sym (append-nil sent) i)
  send_tasks-Taken (t ∷ ts) rest n sent (p, h) =
      rw (p, send_tasks)
        (send_tasks-Taken ts rest (suc n) (sent ++ (message_of db t ∷ [])) h ∙ λ i.
          send_tasks db broker rest
            ((let e : suc n + length ts ≡ n + suc (length ts) = omega arith in e) i)
            (append_assoc sent (message_of db t ∷ []) (map (message_of db) ts) i))

  -- The affected count, or 404 for one task that is not there.
  abbrev pub reply_for : Option ℕ → List (Task db) → Result ℕ
  reply_for (some i) [] = err not_found
  reply_for (some i) (t ∷ ts) = ok (length (t ∷ ts))
  reply_for none ts = ok (length ts)

  reply_some :
      (task_id : Option ℕ) (t : Task db) (ts : List (Task db))
      → reply_for task_id (t ∷ ts) ≡ ok (0 + length (t ∷ ts))
  reply_some none t ts = ap ok (omega arith)
  reply_some (some i) t ts = ap ok (omega arith)

  retrigger_at :
      (request : Option Request) (task_id : Option ℕ) (w : Letters db) (t : Task db)
      (ts : List (Task db))
      → chosen request task_id w.rows ≡ t ∷ ts
      → retrigger_tasks db broker request task_id w ≡ (
          let (r, sent) = send_tasks db broker (t ∷ ts) 0 w.sent in
          (r, record { rows = others request task_id w.rows; sent = sent }))
  unfolding retrigger_tasks fetch_and_delete_tasks
  retrigger_at request task_id w t ts e = rw (e, retrigger_tasks) refl

  retrigger_none :
      (request : Option Request) (task_id : Option ℕ) (w : Letters db)
      → chosen request task_id w.rows ≡ []
      → retrigger_tasks db broker request task_id w
        ≡ (reply_for task_id [], record { rows = others request task_id w.rows; sent = w.sent })
  unfolding retrigger_tasks fetch_and_delete_tasks
  retrigger_none request none w e = rw (e, retrigger_tasks) refl
  retrigger_none request (some i) w e = rw (e, retrigger_tasks) refl

  pub retrigger_rows :
      (request : Option Request) (task_id : Option ℕ) (w : Letters db)
      → (retrigger_tasks db broker request task_id w).1.rows ≡ others request task_id w.rows
  retrigger_rows request task_id w = go (chosen request task_id w.rows) refl
    where
      go :
          (ts : List (Task db))
          → chosen request task_id w.rows ≡ ts
          → (retrigger_tasks db broker request task_id w).1.rows ≡ others request task_id w.rows
      go [] e = λ i. (retrigger_none request task_id w e i).1.rows
      go (t ∷ ts) e = λ i. (retrigger_at request task_id w t ts e i).1.rows

  -- If the broker takes every selected task, each of them is sent once and in order, with its
  -- own name, arguments and queue, exactly the others stay in the table, and the reply counts
  -- them; it is 404 if one task was asked for that is not there.
  pub retrigger_tasks_conserves :
      (request : Option Request) (task_id : Option ℕ) (w : Letters db)
      → Taken (chosen request task_id w.rows)
      → retrigger_tasks db broker request task_id w ≡ (
        reply_for task_id (chosen request task_id w.rows),
        record {
          rows = others request task_id w.rows;
          sent = w.sent ++ map (message_of db) (chosen request task_id w.rows);
        },
      )
  unfolding send_tasks
  retrigger_tasks_conserves request task_id w h = go (chosen request task_id w.rows) refl h
    where
      go :
          (ts : List (Task db))
          → chosen request task_id w.rows ≡ ts
          → Taken ts
          → retrigger_tasks db broker request task_id w ≡ (
            reply_for task_id ts,
            record {
              rows = others request task_id w.rows;
              sent = w.sent ++ map (message_of db) ts;
            },
          )
      go [] e k = retrigger_none request task_id w e ∙ (λ i. (
        reply_for task_id [],
        record { rows = others request task_id w.rows; sent = sym (append-nil w.sent) i },
      ))
      go (t ∷ ts) e k =
          let sent_all =
            (λ i. send_tasks db broker (sym (append-nil (t ∷ ts)) i) 0 w.sent)
            ∙ send_tasks-Taken (t ∷ ts) [] 0 w.sent k in
          retrigger_at request task_id w t ts e
          ∙ (λ i. (
            (sent_all i).0,
            record { rows = others request task_id w.rows; sent = (sent_all i).1 },
          ))
          ∙ (λ i. (
            sym (reply_some task_id t ts) i,
            record {
              rows = others request task_id w.rows;
              sent = w.sent ++ map (message_of db) (t ∷ ts);
            },
          ))

  -- If the broker takes the first of the selected tasks and refuses one, the error is raised
  -- and no selected task stays in the table: the refused one and those after it are neither
  -- sent nor kept.
  pub retrigger_tasks_loses :
      (request : Option Request) (task_id : Option ℕ) (w : Letters db) (before : List (Task db))
      (t : Task db) (after : List (Task db)) (e : Raised)
      → chosen request task_id w.rows ≡ before ++ (t ∷ after)
      → Taken before
      → broker (message_of db t) ≡ some e
      → retrigger_tasks db broker request task_id w ≡ (
        err e,
        record {
          rows = others request task_id w.rows;
          sent = w.sent ++ map (message_of db) before;
        },
      )
  unfolding send_tasks
  retrigger_tasks_loses request task_id w before t after e c h r =
      at_least_one before t after c
      ∙ (λ i. ((stops i).0, record { rows = others request task_id w.rows; sent = (stops i).1 }))
    where
      at_least_one :
          (pre : List (Task db)) (t : Task db) (post : List (Task db))
          → chosen request task_id w.rows ≡ pre ++ (t ∷ post)
          → retrigger_tasks db broker request task_id w ≡ (
              let (r, sent) = send_tasks db broker (pre ++ (t ∷ post)) 0 w.sent in
              (r, record { rows = others request task_id w.rows; sent = sent }))
      at_least_one [] t post d = retrigger_at request task_id w t post d
      at_least_one (q ∷ pre) t post d = retrigger_at request task_id w q (pre ++ (t ∷ post)) d

      stops :
          send_tasks db broker (before ++ (t ∷ after)) 0 w.sent
          ≡ (err e, w.sent ++ map (message_of db) before)
      stops = send_tasks-Taken before (t ∷ after) 0 w.sent h ∙ rw (r, send_tasks) refl
