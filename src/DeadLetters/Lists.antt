-- ===== src/DeadLetters/Lists.antt =====
-- The list of dead letter tasks, followed by its cursors.
use fastapi_asyncpg_template.Base.{
  ℕ, suc, ◌<◌, ◌≡◌, refl, ◌∙◌, String, Bool, Option, some, none, List, [], ◌∷◌, keep, length, arith,
}
use fastapi_asyncpg_template.Base.Http.{Result}
use fastapi_asyncpg_template.DeadLetters.Dao.{
  Postgres, Task, Filter, matches, list_tasks, count_tasks, limit_clause,
}
use fastapi_asyncpg_template.Pagination.Follow.{Listing, follow, follow-all}
use fastapi_asyncpg_template.Pagination.Listed.{IsText, select_page-Listing}
use fastapi_asyncpg_template.Pagination.Page.{Base64}
use fastapi_asyncpg_template.Pagination.Select.{order_desc, insert_desc, select_page, Distinct}

module _ {A : Type 0} (id : A → ℕ) (p : A → Bool) where
  length-keep-insert_desc :
      (x : A) (ys : List A) → length (keep p (insert_desc id x ys)) ≡ length (keep p (x ∷ ys))
  length-keep-insert_desc x [] = refl
  length-keep-insert_desc x (y ∷ ys) = ground (arith, length-keep-insert_desc x ys)

  length-keep-order_desc : (xs : List A) → length (keep p (order_desc id xs)) ≡ length (keep p xs)
  length-keep-order_desc [] = refl
  length-keep-order_desc (x ∷ xs) =
      ground (arith, length-keep-insert_desc x (order_desc id xs), length-keep-order_desc xs)

-- A page of the list, without an offset.
abbrev pub fetch :
    (db : Postgres) → Filter → List (Task db) → ℕ → Option String → Result (List (Task db))
fetch db f rows limit cursor = list_tasks db f (some limit) cursor 0 rows

module _ (db : Postgres) (text : ℕ → String) (t : IsText (λ (i : Task db). i.id) db.uuid text)
    (f : Filter) (rows : List (Task db)) (d : Distinct (λ (i : Task db). i.id) rows) where
  limit_clause-suc : (n : ℕ) → limit_clause db (some (suc n)) ≡ some (suc n)
  limit_clause-suc n = ground arith

  fetch_page :
      (n : ℕ) (cursor : Option String)
      → fetch db f rows (suc n) cursor
        ≡ select_page (λ i. i.id) db.uuid (matches db f) (some (suc n)) cursor 0 rows
  unfolding list_tasks
  fetch_page n cursor = rw (limit_clause-suc n) refl

  list_tasks-Listing :
      Listing (fetch db f rows) (λ i. text i.id) (keep (matches db f) (order_desc (λ i. i.id) rows))
  list_tasks-Listing =
      let l = select_page-Listing (λ i. i.id) db.uuid text t (matches db f) rows d in
      record {
        start = λ n. fetch_page n none ∙ l.start n;
        after_row = λ pre x post n e. fetch_page n (some (text x.id)) ∙ l.after_row pre x post n e;
        text_truthy = l.text_truthy;
      }

  -- Under any filters and any page size from 1 on, for rows with distinct ids that are
  -- written and read back as texts, a client that follows the cursors of the pages gets
  -- exactly the matching tasks, each once and the newest id first, as many as count_tasks
  -- says, and is at an empty page after at most that many further pages.
  pub list_tasks-follow :
      (b : Base64) (m fuel : ℕ)
      → count_tasks db f rows < fuel
      → (follow b (fetch db f rows) (λ i. text i.id) (suc m) fuel none
          ≡ some (keep (matches db f) (order_desc (λ i. i.id) rows)))
        × (length (keep (matches db f) (order_desc (λ (i : Task db). i.id) rows))
            ≡ count_tasks db f rows)
  unfolding count_tasks
  list_tasks-follow b m fuel q =
      let n = length-keep-order_desc (λ (i : Task db). i.id) (matches db f) rows in
      (
        follow-all b (fetch db f rows) (λ i. text i.id) m _ list_tasks-Listing fuel
            (omega (arith, n)),
        n,
      )
