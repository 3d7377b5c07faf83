-- ===== src/DeadLetters/Dao.antt =====
-- api/apps/common/v0/dao/dead_letter_task.py over the list of the table's rows, and the fields of
-- api/apps/common/v0/schemas/dead_letter_task.py.
use fastapi_asyncpg_template.Base.{
  ◌*◌, ◌+◌, ℕ, String, Bool, true, false, not, Option, some, none, List, [], ◌∷◌, ◌&&◌, ◌||◌,
  str_eq, nat_mem, ltb, leb, ◌==◌, truthy, length, keep, find, map, if◌then◌else◌,
}
use fastapi_asyncpg_template.Base.Http.{Result}
use fastapi_asyncpg_template.Pagination.Select.{select_page}

-- JSON values, how PostgreSQL joins two of them (`||`) and matches ILIKE, and how it reads an id.
pub record Postgres : Type 1 where
  pub Json : Type 0
  pub merge : Json → Json → Json
  pub ilike : String → String → Bool
  pub uuid : String → Option ℕ

-- `DLQTaskFilter`
pub record Filter : Type 0 where
  pub task_name : Option String
  pub exception_type : Option String
  pub search : Option String
  pub date_from : Option ℕ
  pub date_to : Option ℕ

module _ (db : Postgres) where
  -- `DLQTaskResponse`
  pub record Task : Type 0 where
    pub id : ℕ
    pub task_id : String
    pub task_name : String
    pub queue : String
    pub args : db.Json
    pub kwargs : db.Json
    pub headers : db.Json
    pub exception_type : Option String
    pub exception_message : Option String
    pub traceback : Option String
    pub retry_count : ℕ
    pub failed_at : ℕ
    pub created_at : ℕ
    pub updated_at : ℕ

  -- `DLQUpdatePayload`
  pub record Payload : Type 0 where
    pub task_ids : Option (List ℕ)
    pub task_name : Option String
    pub args : Option db.Json
    pub kwargs : Option db.Json
    pub queue : Option String
    pub merge_kwargs : Bool

  -- A condition that stands in the statement if its value is given and not empty; a comparison with
  -- NULL does not hold.
  abbrev pub when : Option String → (String → Bool) → Bool
  when none test = true
  when (some s) test = if truthy s then test s else true

  abbrev pub holds : Option String → (String → Bool) → Bool
  holds none test = false
  holds (some s) test = test s

  abbrev pub when_date : Option ℕ → (ℕ → Bool) → Bool
  when_date none test = true
  when_date (some d) test = test d

  -- The conditions of `list_tasks` and `count_tasks`, without the cursor.
  unfoldable pub matches : Filter → Task → Bool
  matches f t =
      when f.task_name (str_eq t.task_name)
      && when f.exception_type (λ e. holds t.exception_type (str_eq e))
      && when f.search (λ s.
        db.ilike s t.task_name
        || holds t.exception_message (db.ilike s)
        || holds t.traceback (db.ilike s))
      && when_date f.date_from (λ d. leb d t.failed_at)
      && when_date f.date_to (λ d. leb t.failed_at d)

  -- `limit is not None and limit > 0`
  abbrev pub limit_clause : Option ℕ → Option ℕ
  limit_clause none = none
  limit_clause (some n) = if ltb 0 n then some n else none

  unfoldable pub list_tasks :
      Filter
      → (limit : Option ℕ) → (cursor : Option String) → (offset : ℕ) → List Task
      → Result (List Task)
  list_tasks f limit cursor offset rows =
      select_page (λ t. t.id) db.uuid (matches f) (limit_clause limit) cursor offset rows

  unfoldable pub count_tasks : Filter → List Task → ℕ
  count_tasks f rows = length (keep (matches f) rows)

  unfoldable pub get_task_by_id : ℕ → List Task → Option Task
  get_task_by_id i = find (λ t. t.id == i)

  -- The WHERE clause by `if ids: …; elif task_name: …; else: …`, with what the else part selects.
  unfoldable pub selected : (otherwise : Bool) → Option (List ℕ) → Option String → Task → Bool
  selected otherwise (some (i ∷ is)) name t = nat_mem t.id (i ∷ is)
  selected otherwise (some []) none t = otherwise
  selected otherwise (some []) (some s) t = if truthy s then str_eq t.task_name s else otherwise
  selected otherwise none none t = otherwise
  selected otherwise none (some s) t = if truthy s then str_eq t.task_name s else otherwise

  abbrev pub set_json : Option db.Json → db.Json → db.Json
  set_json none old = old
  set_json (some new) old = new

  -- The SET clauses of `update_task_payload`.
  unfoldable pub apply_payload : (now : ℕ) → Payload → (single : Bool) → Task → Task
  apply_payload now p single t = record t {
    args = set_json p.args t.args;
    kwargs = elim p.kwargs [
      | none ↦ t.kwargs
      | some k ↦ if p.merge_kwargs && not single then db.merge t.kwargs k else k
    ];
    queue = elim p.queue [ none ↦ t.queue | some q ↦ q ];
    updated_at = now;
  }

  abbrev pub ids_of : Option ℕ → Option (List ℕ) → Option (List ℕ)
  ids_of none ids = ids
  ids_of (some i) ids = some (i ∷ [])

  abbrev pub is_single : Option ℕ → Bool
  is_single none = false
  is_single (some i) = true

  -- `update_task_payload`: the number of rows that the command tag counts, and the rows.
  unfoldable pub update_rows :
      (now : ℕ) → Payload → (task_id : Option ℕ) → List Task → ℕ × List Task
  update_rows now p task_id rows =
      let hit = selected true (ids_of task_id p.task_ids) p.task_name in
      (
        length (keep hit rows),
        map (λ t. if hit t then apply_payload now p (is_single task_id) t else t) rows,
      )

  -- `delete_tasks`
  unfoldable pub delete_rows : Option (List ℕ) → Option String → List Task → ℕ × List Task
  delete_rows ids name rows =
      let hit = selected false ids name in (length (keep hit rows), keep (λ t. not (hit t)) rows)

  -- `fetch_and_delete_tasks`
  unfoldable pub fetch_and_delete_tasks :
      Option (List ℕ) → Option String → List Task → List Task × List Task
  fetch_and_delete_tasks ids name rows =
      let hit = selected true ids name in (keep hit rows, keep (λ t. not (hit t)) rows)

  -- `delete_old_tasks`, with times in seconds.
  unfoldable pub delete_old_tasks : (now days : ℕ) → List Task → ℕ × List Task
  delete_old_tasks now days rows =
      let old : Task → Bool = λ t. ltb (t.failed_at + days * 86400) now in
      (length (keep old rows), keep (λ t. not (old t)) rows)
