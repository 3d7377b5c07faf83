-- ===== src/DeadLetters/Selection.antt =====
-- Requests on dead letter tasks that select none of them by name.
use fastapi_asyncpg_template.Base.{
  ◌⊎◌, ℕ, ◌≡◌, refl, ap, ◌∙◌, String, Bool, true, false, not, Option, some, none, List, [], ◌∷◌,
  map, keep, length, inl, inr, if◌then◌else◌,
}
use fastapi_asyncpg_template.Base.Http.{ok, Raised}
use fastapi_asyncpg_template.DeadLetters.Dao.{
  Postgres, Task, Payload, selected, update_rows, delete_rows, apply_payload,
}
use fastapi_asyncpg_template.DeadLetters.Retrigger.{retrigger_rows}
use fastapi_asyncpg_template.DeadLetters.Service.{
  Message, Letters, Request, retrigger_tasks, delete_tasks, update_task_payload,
}

module _ (db : Postgres) (broker : Message db → Option Raised) (now : ℕ) where
  abbrev NamesNothing : Option (List ℕ) → Option String → Type 0
  NamesNothing ids name = ((ids ≡ none) ⊎ (ids ≡ some [])) × ((name ≡ none) ⊎ (name ≡ some ""))

  selected-NamesNothing :
      (otherwise : Bool) (ids : Option (List ℕ)) (name : Option String) (t : Task db)
      → NamesNothing ids name
      → selected db otherwise ids name t ≡ otherwise
  unfolding selected
  selected-NamesNothing o ids name t (inl i, inl n) = rw (i, n) refl
  selected-NamesNothing o ids name t (inl i, inr n) = rw (i, n) refl
  selected-NamesNothing o ids name t (inr i, inl n) = rw (i, n) refl
  selected-NamesNothing o ids name t (inr i, inr n) = rw (i, n) refl

  keep_none :
      (p : Task db → Bool) (rows : List (Task db))
      → ((t : Task db) → p t ≡ false)
      → (keep p rows ≡ []) × (keep (λ t. not (p t)) rows ≡ rows)
  keep_none p [] h = (refl, refl)
  keep_none p (t ∷ ts) h = rw (h t) ((keep_none p ts h).0, ap (λ rs. t ∷ rs) (keep_none p ts h).1)

  keep_all :
      (p : Task db → Bool) (rows : List (Task db))
      → ((t : Task db) → p t ≡ true)
      → keep (λ t. not (p t)) rows ≡ []
  keep_all p [] h = refl
  keep_all p (t ∷ ts) h = rw (h t) (keep_all p ts h)

  map_all :
      (p : Task db → Bool) (f : Task db → Task db) (rows : List (Task db))
      → ((t : Task db) → p t ≡ true)
      → map (λ t. if p t then f t else t) rows ≡ map f rows
  map_all p f [] h = refl
  map_all p f (t ∷ ts) h = rw (h t) (ap (λ rs. f t ∷ rs) (map_all p f ts h))

  -- A request that names no task and no task name, whatever the broker does: a deletion
  -- deletes nothing, but a retrigger takes every task off the table and an update rewrites
  -- every one.
  empty_selection :
      (r : Request) (p : Payload db) (w : Letters db)
      → NamesNothing r.task_ids r.task_name
      → NamesNothing p.task_ids p.task_name
      → (delete_tasks db (some r) none none w ≡ (ok 0, w))
        × ((retrigger_tasks db broker (some r) none w).1.rows ≡ [])
        × ((update_task_payload db now p none w).1.rows ≡ map (apply_payload db now p false) w.rows)
  empty_selection r p w e d =
      let none_hit =
        keep_none (selected db false r.task_ids r.task_name) w.rows
          (λ t. selected-NamesNothing false r.task_ids r.task_name t e) in
      (
        unfold delete_tasks delete_rows in
            (λ i. (ok (length (none_hit.0 i)), record w { rows = none_hit.1 i })),
        retrigger_rows db broker (some r) none w
            ∙ keep_all (selected db true r.task_ids r.task_name) w.rows
                (λ t. selected-NamesNothing true r.task_ids r.task_name t e),
        unfold update_task_payload update_rows in
            map_all _ _ w.rows (λ t. selected-NamesNothing true p.task_ids p.task_name t d),
      )
