-- ===== src/Webhooks/Service.antt =====
-- The operations on the endpoints of webhooks: api/apps/common/v0/dao/webhook.py, and
-- `WebhookService` of service/webhook.py with the requests of routes/webhook.py.
use fastapi_asyncpg_template.Base.{
  ℕ, String, Bool, true, not, ◌&&◌, Option, none, some, List, [], ◌∷◌, ◌++◌, map, keep, find,
  length, any, str_mem, nat_mem, leb, ◌==◌, coalesce, coalesce_null, if◌then◌else◌,
}
use fastapi_asyncpg_template.Base.Http.{
  Result, ok, http, Raised, Handler, lift, modify, pure, raise_if, or_raise, ◌>>=◌, ◌>>◌,
}
use fastapi_asyncpg_template.Pagination.Select.{select_page}
use fastapi_asyncpg_template.TwoFactor.Codes.{Text}
use fastapi_asyncpg_template.Webhooks.Endpoints.{
  Network, Environment, validate_webhook_url, StoredHeaders, quoted, WebhookEndpoint,
  WebhookEndpointCreate, WebhookEndpointUpdate, validate_create, validate_update,
}
use fastapi_asyncpg_template.Webhooks.Texts.{is_empty}

-- The table webhook_endpoints.
abbrev pub Endpoints : Type 0
Endpoints = List WebhookEndpoint

abbrev pub not_found : Raised
not_found = http 404 "Webhook endpoint not found."

abbrev pub get_endpoint_by_id : ℕ → Endpoints → Option WebhookEndpoint
get_endpoint_by_id i = find (λ e. e.id == i)

-- `json.dumps(update_data.headers) if update_data.headers is not None else None`
abbrev pub encoded_or_null : Option (List (String × Text)) → Option StoredHeaders
encoded_or_null none = none
encoded_or_null (some hs) = some (quoted hs)

-- The row of an update, at the time `now`.
abbrev pub updated : (now : ℕ) → WebhookEndpointUpdate → WebhookEndpoint → WebhookEndpoint
updated now c e = record e {
  url = coalesce c.url e.url;
  description = coalesce_null c.description e.description;
  event_types = coalesce c.event_types e.event_types;
  headers = coalesce (encoded_or_null c.headers) e.headers;
  secret = coalesce c.secret e.secret;
  is_active = coalesce c.is_active e.is_active;
  updated_at = now;
}

-- `WebhookDAO.update_endpoint`
unfoldable pub update_returning :
    (now : ℕ) → ℕ → WebhookEndpointUpdate → Handler Endpoints (Option WebhookEndpoint)
update_returning now i c rows =
    let rows' = map (λ e. if e.id == i then updated now c e else e) rows in
    (ok (get_endpoint_by_id i rows'), rows')

-- `WebhookDAO.delete_endpoint`: was there a row?
unfoldable pub delete_row : ℕ → Handler Endpoints Bool
delete_row i rows = (ok (any (λ e. e.id == i) rows), keep (λ e. not (e.id == i)) rows)

-- `WebhookDAO.delete_endpoints`, which the admin view calls: how many rows there were.
unfoldable pub delete_endpoints : List ℕ → Endpoints → ℕ × Endpoints
delete_endpoints is rows =
    (length (keep (λ e. nat_mem e.id is) rows), keep (λ e. not (nat_mem e.id is)) rows)

abbrev pub is_active_or_any : Option Bool → WebhookEndpoint → Bool
is_active_or_any none e = true
is_active_or_any (some true) e = e.is_active
is_active_or_any (some b) e = not e.is_active

-- `list_endpoints`
unfoldable pub list_endpoints :
    (uuid : String → Option ℕ)
    → (limit : ℕ) → (cursor : Option String) → (is_active : Option Bool) → Endpoints
    → Result (List WebhookEndpoint)
list_endpoints uuid limit cursor is_active rows =
    select_page (λ e. e.id) uuid (is_active_or_any is_active) (some limit) cursor 0 rows

abbrev pub insert_asc : WebhookEndpoint → Endpoints → Endpoints
insert_asc e [] = e ∷ []
insert_asc e (f ∷ fs) =
    let rest = insert_asc e fs in if leb e.created_at f.created_at then e ∷ f ∷ fs else f ∷ rest

-- ORDER BY created_at ASC
abbrev pub order_asc : Endpoints → Endpoints
order_asc [] = []
order_asc (e ∷ es) = insert_asc e (order_asc es)

abbrev pub is_subscribed : (event_name : String) → WebhookEndpoint → Bool
is_subscribed name e = e.is_active && str_mem name e.event_types

-- `list_active_endpoints_for_event`
unfoldable pub list_active_endpoints_for_event : (event_name : String) → Endpoints → Endpoints
list_active_endpoints_for_event name rows = order_asc (keep (is_subscribed name) rows)

-- f"whsec_{secrets.token_urlsafe(24)}"
abbrev pub drawn_secret : (token : Text) → Text
drawn_secret token = b'w' ∷ b'h' ∷ b's' ∷ b'e' ∷ b'c' ∷ b'_' ∷ token

-- The new row, with what the database draws; a secret that is given is not empty.
abbrev pub new_endpoint :
    (now id : ℕ)
    → (token : Text) → (created_by : Option ℕ) → WebhookEndpointCreate
    → WebhookEndpoint
new_endpoint now i token by c = record {
  id = i;
  created_by = by;
  url = c.url;
  secret = coalesce c.secret (drawn_secret token);
  description = c.description;
  event_types = c.event_types;
  headers = quoted c.headers;
  is_active = true;
  created_at = now;
  updated_at = now;
}

-- `get_endpoint`
unfoldable pub get_endpoint : ℕ → Handler Endpoints WebhookEndpoint
get_endpoint i rows = or_raise (get_endpoint_by_id i rows) not_found rows

-- `delete_endpoint`
unfoldable pub delete_endpoint : ℕ → Handler Endpoints (Unit {0})
delete_endpoint i = do get_endpoint i; deleted ← delete_row i; raise_if (not deleted) not_found

-- The requests that change the table, each with what is drawn for it.
pub data Request : Type 0 where
  create : (id : ℕ) → (token : Text) → (created_by : ℕ) → WebhookEndpointCreate → Request
  update : ℕ → WebhookEndpointUpdate → Request
  delete : ℕ → Request

module _ (x : Network) (env : Environment) where
  -- `create_endpoint`, with the id and the token that are drawn.
  unfoldable pub create_endpoint :
      (now id : ℕ)
      → (token : Text) → (created_by : Option ℕ) → WebhookEndpointCreate
      → Handler Endpoints WebhookEndpoint
  create_endpoint now i token by c = do
    lift (validate_webhook_url x env now c.url)
    let e = new_endpoint now i token by c
    modify (λ rows. rows ++ e ∷ [])
    pure e

  abbrev pub check_new_url : (now : ℕ) → Option Text → Result (Unit {0})
  check_new_url now none = ok tt
  check_new_url now (some url) = if is_empty url then ok tt else validate_webhook_url x env now url

  -- `update_endpoint`
  unfoldable pub update_endpoint :
      (now : ℕ) → ℕ → WebhookEndpointUpdate → Handler Endpoints WebhookEndpoint
  update_endpoint now i c = do
    lift (check_new_url now c.url)
    get_endpoint i
    e ← update_returning now i c
    or_raise e not_found

  -- create_webhook_endpoint, update_webhook_endpoint and delete_webhook_endpoint of the routes.
  unfoldable pub serve : (now : ℕ) → Request → Handler Endpoints (Option WebhookEndpoint)
  serve now (create i token by c) = do
    c' ← lift (validate_create c)
    e ← create_endpoint now i token (some by) c'
    pure (some e)
  serve now (update i c) = do
    c' ← lift (validate_update c)
    e ← update_endpoint now i c'
    pure (some e)
  serve now (delete i) = delete_endpoint i >> pure none

  -- Requests one after another, each with its time.
  abbrev pub serve_all : List (ℕ × Request) → Endpoints → Endpoints
  serve_all [] rows = rows
  serve_all ((now, r) ∷ rs) rows = serve_all rs (serve now r rows).1
