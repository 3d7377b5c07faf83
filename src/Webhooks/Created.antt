-- ===== src/Webhooks/Created.antt =====
-- The endpoints that the service writes are never reached.
use fastapi_asyncpg_template.Base.{
  ℕ, String, none, some, List, [], ◌∷◌, Option, All, All-keep, ◌≡◌, ◌≢◌, inl, inr, coalesce,
}
use fastapi_asyncpg_template.TwoFactor.Codes.{Text}
use fastapi_asyncpg_template.Webhooks.Delivery.{
  Outside, post_of, posts_of, send_webhook_event, WebhookLog,
}
use fastapi_asyncpg_template.Webhooks.Endpoints.{
  Network, Environment, WebhookEndpoint, StoredHeaders, object, quoted,
}
use fastapi_asyncpg_template.Webhooks.Guarded.{headers_cases}
use fastapi_asyncpg_template.Webhooks.Kept.{All-serve_all}
use fastapi_asyncpg_template.Webhooks.Reached.{All-order_asc}
use fastapi_asyncpg_template.Webhooks.Service.{
  Endpoints, Request, serve_all, encoded_or_null, is_subscribed, list_active_endpoints_for_event,
}

-- The column of headers holds no object.
abbrev IsText : StoredHeaders → Type 0
IsText h = (own : List (String × Text)) → h ≢ object own

quoted-IsText : (hs : List (String × Text)) → IsText (quoted hs)
quoted-IsText hs own e = absurd (cc e)

-- An update leaves a text, or writes one.
coalesce-IsText :
    (new : Option (List (String × Text))) (old : StoredHeaders)
    → IsText old
    → IsText (coalesce (encoded_or_null new) old)
coalesce-IsText none old t = t
coalesce-IsText (some hs) old t = quoted-IsText hs

module _ (id : ℕ) where
  abbrev Unread : WebhookEndpoint → Type 0
  Unread e = e.id ≡ id → IsText e.headers

  serve_all-Unread :
      (x : Network) (env : Environment) (rs : List (ℕ × Request)) (rows : Endpoints)
      → All Unread rows
      → All Unread (serve_all x env rs rows)
  serve_all-Unread x env =
      All-serve_all x env Unread (λ now i token by c y same. quoted-IsText c.headers)
        (λ now c e f h g same. coalesce-IsText c.headers e.headers (g same))

  others-Unread : (rows : Endpoints) → All (λ r. r.id ≢ id) rows → All Unread rows
  others-Unread [] a = tt
  others-Unread (r ∷ rows) (n, a) = ((λ same. absurd (n same)), others-Unread rows a)

  module _ (o : Outside) (event_name event_id : String) (payload : o.Json) (sent : ℕ) where
    posts_of-Unread :
        (es : Endpoints)
        → All Unread es
        → All (λ p. p.endpoint_id ≢ id) (posts_of o event_name event_id payload sent es)
    unfolding posts_of post_of
    posts_of-Unread [] a = tt
    posts_of-Unread (e ∷ es) (u, a) = elim (headers_cases e.headers) [
      | inl (own, h) ↦ rw h ((λ same. u same own h), posts_of-Unread es a)
      | inr (hs, h) ↦ rw h (posts_of-Unread es a)
    ]

    -- From a table without an endpoint of the given number, after any requests to create, update and
    -- delete endpoints, those that create and update one of that number among them: a run of the task
    -- makes no POST for that number, whatever the event and the environment are, since the headers that
    -- the service writes are read back as a text, which cannot be added to the standard ones.
    pub create-unreached :
        (x : Network) (env : Environment) (rs : List (ℕ × Request)) (rows : Endpoints)
        (ended : Endpoints → Endpoints) (logs : List (WebhookLog o.Json))
        → All (λ r. r.id ≢ id) rows
        → All
            (λ p. p.endpoint_id ≢ id)
            (send_webhook_event o event_name event_id payload sent ended
              (serve_all x env rs rows)
              (record { posts = []; logs = logs })).posts
    unfolding send_webhook_event list_active_endpoints_for_event
    create-unreached x env rs rows ended logs a = posts_of-Unread _ (
        All-order_asc Unread _ (
          All-keep Unread (is_subscribed event_name) _
            (serve_all-Unread x env rs rows (others-Unread rows a))))
