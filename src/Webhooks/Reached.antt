-- ===== src/Webhooks/Reached.antt =====
-- Which endpoints a delivery reaches, and with what signature.
use fastapi_asyncpg_template.Base.{
  ℕ, String, true, some, [], ◌∷◌, ◌+◌, ◌-◌, str_eq, leb, ◌≡◌, inl, inr, Bool-cases, Bool, false,
  All,
}
use fastapi_asyncpg_template.TwoFactor.Codes.{Text}
use fastapi_asyncpg_template.Webhooks.Delivery.{Headers, header, Post, Outside}
use fastapi_asyncpg_template.Webhooks.Endpoints.{WebhookEndpoint, StoredHeaders, object, quoted}
use fastapi_asyncpg_template.Webhooks.Service.{Endpoints, insert_asc, order_asc}
use fastapi_asyncpg_template.Webhooks.Signature.{verify_webhook_signature}

-- The headers have none of this name.
abbrev pub Lacks : String → Headers → Type 0
Lacks name [] = Unit {0}
Lacks name ((n, v) ∷ own) = (str_eq n name ≡ false) × Lacks name own

module _ (P : WebhookEndpoint → Type 0) where
  All-insert_asc : (e : WebhookEndpoint) (es : Endpoints) → P e → All P es → All P (insert_asc e es)
  All-insert_asc e [] g a = (g, tt)
  All-insert_asc e (f ∷ fs) g a = elim (Bool-cases (leb e.created_at f.created_at)) [
    | inl y ↦ rw y (g, a)
    | inr o ↦ rw o (a.0, All-insert_asc e fs g a.1)
  ]

  pub All-order_asc : (es : Endpoints) → All P es → All P (order_asc es)
  All-order_asc [] a = tt
  All-order_asc (e ∷ es) a = All-insert_asc e (order_asc es) a.0 (All-order_asc es a.1)

abbrev pub is_object : StoredHeaders → Bool
is_object (object own) = true
is_object (quoted own) = false

module _ (x : Outside) (event_name event_id : String) (payload : x.Json) (now : ℕ) where
  -- The POST goes to the endpoint with the payload, and its signature is accepted at the time
  -- `later` exactly if the tolerance allows for the time since the run.
  pub record Reaches (e : WebhookEndpoint) (tolerance later : ℕ) (p : Post) : Type 0 where
    pub to_url : p.url ≡ e.url
    pub sent : p.content ≡ x.dumps payload
    pub signed : Text
    pub has_signature : header "X-Webhook-Signature" p.headers ≡ some signed
    pub verifies :
        verify_webhook_signature x.hmac e.secret p.content tolerance later signed
        ≡ leb ((later - now) + (now - later)) tolerance
