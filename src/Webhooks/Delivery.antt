-- ===== src/Webhooks/Delivery.antt =====
-- The task `send_webhook_event` of api/apps/common/tasks.py and `create_log` of dao/webhook_log.py.
use fastapi_asyncpg_template.Base.{
  ℕ, String, Bool, false, ◌&&◌, Option, none, some, List, [], ◌∷◌, ◌++◌, str_eq, leb, ltb, take,
  if◌then◌else◌,
}
use fastapi_asyncpg_template.TwoFactor.Codes.{Text}
use fastapi_asyncpg_template.Webhooks.Endpoints.{WebhookEndpoint, StoredHeaders, object, quoted}
use fastapi_asyncpg_template.Webhooks.Service.{Endpoints, list_active_endpoints_for_event}
use fastapi_asyncpg_template.Webhooks.Signature.{Hmac, generate_webhook_signature, signature_header}
use fastapi_asyncpg_template.Webhooks.Texts.{is_empty, str, codes}

abbrev pub Headers : Type 0
Headers = List (String × Text)

-- headers[name] = v
abbrev pub set_header : String → Text → Headers → Headers
set_header name v [] = (name, v) ∷ []
set_header name v ((n, w) ∷ d) =
    let rest = set_header name v d in if str_eq n name then (n, v) ∷ d else (n, w) ∷ rest

-- headers.get(name)
abbrev pub header : String → Headers → Option Text
header name [] = none
header name ((n, v) ∷ d) = if str_eq n name then some v else header name d

-- headers.update(own)
abbrev pub update_headers : Headers → (own : Headers) → Headers
update_headers d [] = d
update_headers d ((n, v) ∷ own) = update_headers (set_header n v d) own

-- A request of the HTTP client, with the endpoint that it is made for.
pub record Post : Type 0 where
  pub endpoint_id : ℕ
  pub url : Text
  pub content : Text
  pub headers : Headers

-- How a POST ends: with a response, with an `httpx.HTTPError` or an OSError, or with another
-- exception.
pub data Answer : Type 0 where
  response : (status_code : ℕ) → (headers : Headers) → (text : Text) → Answer
  failed : (message : Text) → Answer
  raised_other : Answer

-- The texts of `error_message`.
pub data ErrorMessage : Type 0 where
  non_2xx : ℕ → ErrorMessage
  exception_text : Text → ErrorMessage

-- `WebhookLogCreate` of an outbound delivery: its direction is OUTBOUND and its source "system".
pub record WebhookLog (J : Type 0) : Type 0 where
  pub endpoint_id : ℕ
  pub event_name : String
  pub url : Text
  pub success : Bool
  pub status_code : Option ℕ
  pub payload : J
  pub request_headers : Headers
  pub response_headers : Option Headers
  pub response_body : Option Text
  pub execution_time_ms : ℕ
  pub error_message : Option ErrorMessage

-- HMAC; how a payload is dumped as JSON; how a POST ends and how long it takes; and whether the log
-- entry of an endpoint can be inserted.
pub record Outside : Type 1 where
  pub Json : Type 0
  pub dumps : Json → Text
  pub hmac : Hmac
  pub post : Post → Answer
  pub elapsed_ms : Post → ℕ
  pub log_kept : (endpoint_id : ℕ) → Bool

-- The requests made, and the rows of webhook_logs.
pub record Sent (J : Type 0) : Type 0 where
  pub posts : List Post
  pub logs : List (WebhookLog J)

abbrev pub is_success : ℕ → Bool
is_success code = leb 200 code && ltb code 300

-- `log_in.response_body[:2048] if log_in.response_body else None`
abbrev pub truncated : Option Text → Option Text
truncated none = none
truncated (some body) = if is_empty body then none else some (take 2048 body)

-- One run of the task, at the time `now`, for an event with its id.
module _ (x : Outside) (event_name event_id : String) (payload : x.Json) (now : ℕ) where
  abbrev pub body_bytes : Text
  body_bytes = x.dumps payload

  abbrev pub standard_headers : (signature : Text) → Headers
  standard_headers signature =
      ("Content-Type", codes "application/json")
      ∷ ("User-Agent", codes "FastAPI-Template-Webhook/1.0")
      ∷ ("X-Webhook-ID", codes event_id)
      ∷ ("X-Webhook-Event", codes event_name)
      ∷ ("X-Webhook-Timestamp", str now)
      ∷ ("X-Webhook-Signature", signature_header (str now) signature)
      ∷ []

  -- `headers.update(endpoint.headers)`, which raises a ValueError for a text that is not empty.
  abbrev pub with_own : StoredHeaders → Headers → Option Headers
  with_own (object own) d = some (update_headers d own)
  with_own (quoted own) d = none

  abbrev pub new_post : WebhookEndpoint → Option Headers → Option Post
  new_post e none = none
  new_post e (some hs) =
      some (record { endpoint_id = e.id; url = e.url; content = body_bytes; headers = hs })

  -- The POST of `_deliver_to_endpoint`, if it comes to one.
  unfoldable pub post_of : WebhookEndpoint → Option Post
  post_of e = new_post e (
      with_own e.headers
        (standard_headers (generate_webhook_signature x.hmac e.secret (str now) body_bytes)))

  abbrev pub new_log :
      (success : Bool)
      → (status_code : Option ℕ) → (response_headers : Option Headers)
      → (response_body : Option Text) → Option ErrorMessage
      → Post
      → WebhookLog x.Json
  new_log success status_code response_headers response_body message p = record {
    endpoint_id = p.endpoint_id;
    event_name = event_name;
    url = p.url;
    success = success;
    status_code = status_code;
    payload = payload;
    request_headers = p.headers;
    response_headers = response_headers;
    response_body = truncated response_body;
    execution_time_ms = x.elapsed_ms p;
    error_message = message;
  }

  -- The log entry of a POST that ends, if it comes to one.
  unfoldable pub log_of : Answer → Post → Option (WebhookLog x.Json)
  log_of (response code hs text) p =
      let message = if is_success code then none else some (non_2xx code) in
      some (new_log (is_success code) (some code) (some hs) (some text) message p)
  log_of (failed message) p = some (new_log false none none none (some (exception_text message)) p)
  log_of raised_other p = none

  -- `create_log`, whose errors are dropped with those of the whole delivery.
  abbrev pub create_log :
      Option (WebhookLog x.Json) → List (WebhookLog x.Json) → List (WebhookLog x.Json)
  create_log none logs = logs
  create_log (some l) logs = if x.log_kept l.endpoint_id then logs ++ l ∷ [] else logs

  abbrev pub log_post : Option Post → List (WebhookLog x.Json) → List (WebhookLog x.Json)
  log_post none logs = logs
  log_post (some p) logs = create_log (log_of (x.post p) p) logs

  -- The deliveries, in the order in which their POSTs end.
  unfoldable pub log_all :
      List WebhookEndpoint → List (WebhookLog x.Json) → List (WebhookLog x.Json)
  log_all [] logs = logs
  log_all (e ∷ es) logs = log_all es (log_post (post_of e) logs)

  abbrev pub add_post : Option Post → List Post → List Post
  add_post none ps = ps
  add_post (some p) ps = p ∷ ps

  unfoldable pub posts_of : List WebhookEndpoint → List Post
  posts_of [] = []
  posts_of (e ∷ es) = add_post (post_of e) (posts_of es)

  -- `send_webhook_event`: all POSTs are made at once; `ended` puts the endpoints in the order in which
  -- theirs end. What a delivery raises is dropped.
  unfoldable pub send_webhook_event :
      (ended : List WebhookEndpoint → List WebhookEndpoint) → Endpoints → Sent x.Json → Sent x.Json
  send_webhook_event ended rows s =
      let endpoints = list_active_endpoints_for_event event_name rows in
      record { posts = s.posts ++ posts_of endpoints; logs = log_all (ended endpoints) s.logs }
