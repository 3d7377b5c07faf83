-- ===== src/Webhooks/Logs.antt =====
-- The list of webhook logs: api/apps/common/v0/dao/webhook_log.py and service/webhook_log.py.
use fastapi_asyncpg_template.Base.{
  ℕ, String, Bool, true, false, ◌&&◌, Option, some, none, List, truthy, leb, ◌==◌, str_eq, find,
  if◌then◌else◌,
}
use fastapi_asyncpg_template.Base.Http.{Result, http, Handler, or_raise}
use fastapi_asyncpg_template.Pagination.Select.{order_desc, select_page}

-- `WebhookDirection`
pub data Direction : Type 0 where
  inbound outbound : Direction

-- `WebhookStatus`
pub data Status : Type 0 where
  success failed retrying : Status

-- A row of webhook_logs, with the columns that the statements read.
pub record LogRow (J : Type 0) : Type 0 where
  pub id : ℕ
  pub direction : Direction
  pub status : Status
  pub source : String
  pub event_name : String
  pub endpoint_id : Option ℕ
  pub payload : J
  pub created_at : ℕ

-- `WebhookLogFilterParams`
pub record WebhookLogFilter : Type 0 where
  pub direction : Option Direction
  pub status : Option Status
  pub event_name : Option String
  pub source : Option String
  pub endpoint_id : Option ℕ
  pub from_date : Option ℕ
  pub to_date : Option ℕ

abbrev pub direction_eq : Direction → Direction → Bool
direction_eq inbound inbound = true
direction_eq outbound outbound = true
direction_eq _ _ = false

abbrev pub status_eq : Status → Status → Bool
status_eq success success = true
status_eq failed failed = true
status_eq retrying retrying = true
status_eq _ _ = false

module _ {ℓ} {A : Type ℓ} where
  -- A condition that stands in the statement if its value is given.
  abbrev pub given : Option A → (A → Bool) → Bool
  given none test = true
  given (some a) test = test a

  -- A comparison with a column, which does not hold of NULL.
  abbrev pub of_column : Option A → (A → Bool) → Bool
  of_column none test = false
  of_column (some a) test = test a

abbrev pub given_text : Option String → (String → Bool) → Bool
given_text none test = true
given_text (some s) test = if truthy s then test s else true

module _ {J : Type 0} where
  -- The conditions of the statement but for the cursor.
  unfoldable pub is_wanted : Option WebhookLogFilter → LogRow J → Bool
  is_wanted none r = true
  is_wanted (some f) r =
      given f.direction (direction_eq r.direction)
      && given f.status (status_eq r.status)
      && given_text f.source (str_eq r.source)
      && given_text f.event_name (str_eq r.event_name)
      && given f.endpoint_id (λ i. of_column r.endpoint_id (λ j. j == i))
      && given f.from_date (λ t. leb t r.created_at)
      && given f.to_date (λ t. leb r.created_at t)

  -- `list_logs`, ORDER BY created_at DESC. A cursor is a text, which asyncpg takes for no timestamptz.
  unfoldable pub list_logs :
      (limit : ℕ)
      → (cursor : Option String) → Option WebhookLogFilter
      → List (LogRow J)
      → Result (List (LogRow J))
  list_logs limit cursor f rows =
      select_page (λ r. r.created_at) (λ s. none) (is_wanted f) (some limit) cursor 0 rows

  abbrev pub is_at : ℕ → Option ℕ → LogRow J → Bool
  is_at i created_at r = r.id == i && given created_at (λ t. r.created_at == t)

  -- `get_log_by_id`: the newest row of the id.
  unfoldable pub get_log_by_id : ℕ → (created_at : Option ℕ) → List (LogRow J) → Option (LogRow J)
  get_log_by_id i created_at rows = find (is_at i created_at) (order_desc (λ r. r.created_at) rows)

  -- `get_log`
  unfoldable pub get_log : ℕ → (created_at : Option ℕ) → Handler (List (LogRow J)) (LogRow J)
  get_log i created_at rows =
      or_raise (get_log_by_id i created_at rows) (http 404 "Webhook log entry not found.") rows
