-- ===== src/Webhooks/Guarded.antt =====
-- The addresses that deliveries go to.
use fastapi_asyncpg_template.Base.{String, List, ◌≡◌, refl, ◌⊎◌, inl, inr, String, List}
use fastapi_asyncpg_template.TwoFactor.Codes.{Text}
use fastapi_asyncpg_template.Webhooks.Endpoints.{
  Network, WebhookEndpoint, StoredHeaders, object, quoted,
}
use fastapi_asyncpg_template.Webhooks.Public.{IsPublic}
use fastapi_asyncpg_template.Webhooks.Service.{Endpoints}

pub headers_cases :
    (h : StoredHeaders)
    → ((own : List (String × Text)) × (h ≡ object own))
      ⊎ ((own : List (String × Text)) × (h ≡ quoted own))
headers_cases (object own) = inl (own, refl)
headers_cases (quoted own) = inr (own, refl)

module _ (x : Network) where
  abbrev pub Guarded : WebhookEndpoint → Type 0
  Guarded e = IsPublic x e.url
