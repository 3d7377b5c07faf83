-- ===== src/Webhooks/Lists.antt =====
-- The list of endpoints, followed by its cursors.
use fastapi_asyncpg_template.Base.{ℕ, suc, ◌<◌, ◌≡◌, String, Bool, Option, none, some, keep, length}
use fastapi_asyncpg_template.Pagination.Follow.{follow, follow-all}
use fastapi_asyncpg_template.Pagination.Listed.{IsText, select_page-Listing}
use fastapi_asyncpg_template.Pagination.Page.{Base64}
use fastapi_asyncpg_template.Pagination.Select.{order_desc, Distinct}
use fastapi_asyncpg_template.Webhooks.Endpoints.{WebhookEndpoint}
use fastapi_asyncpg_template.Webhooks.Service.{Endpoints, is_active_or_any, list_endpoints}

module _ (b : Base64) (uuid : String → Option ℕ) (text : ℕ → String) where
  -- Under any filter and any page size from 1 on, for endpoints with distinct ids that are written
  -- and read back as texts: a client that follows the cursors of the pages, for more pages than there
  -- are matching rows, gets exactly the matching endpoints, the largest id first, each once.
  pub list_endpoints-follow :
      (is_active : Option Bool) (m fuel : ℕ) (rows : Endpoints)
      → IsText (λ (e : WebhookEndpoint). e.id) uuid text
      → Distinct (λ (e : WebhookEndpoint). e.id) rows
      → length (keep (is_active_or_any is_active) (order_desc (λ e. e.id) rows)) < fuel
      → follow b
          (λ limit cursor. list_endpoints uuid limit cursor is_active rows)
          (λ e. text e.id)
          (suc m)
          fuel
          none
        ≡ some (keep (is_active_or_any is_active) (order_desc (λ e. e.id) rows))
  unfolding list_endpoints
  list_endpoints-follow is_active m fuel rows t d p =
      follow-all b _ (λ e. text e.id) m _
        (select_page-Listing (λ e. e.id) uuid text t (is_active_or_any is_active) rows d) fuel p
