-- ===== src/Webhooks/Endpoints.antt =====
-- The endpoints of webhooks: api/apps/common/v0/schemas/webhook.py, dao/webhook.py and
-- service/webhook.py, and validate_webhook_url of api/apps/common/utils.py.
use fastapi_asyncpg_template.Base.{
  ℕ, String, Bool, true, false, not, ◌&&◌, ◌||◌, Option, none, some, List, [], ◌∷◌, all, length,
  str_mem, truthy, leb, if◌then◌else◌,
}
use fastapi_asyncpg_template.Base.Http.{Result, ok, err, http, error, Raised}
use fastapi_asyncpg_template.TwoFactor.Codes.{Text, strip}
use fastapi_asyncpg_template.Webhooks.Texts.{is_empty}

-- `Environments`
pub data Environment : Type 0 where
  dev staging prod test : Environment

-- What `ipaddress` says of an address.
pub record Address : Type 0 where
  pub is_private : Bool
  pub is_loopback : Bool
  pub is_link_local : Bool
  pub is_reserved : Bool
  pub is_unspecified : Bool

pub record ParsedUrl : Type 0 where
  pub scheme : String
  pub hostname : Option String

-- `urlparse`, none where it raises; and what a host name resolves to at a time, none where that
-- raises.
pub record Network : Type 0 where
  pub urlparse : Text → Option ParsedUrl
  pub resolve : (now : ℕ) → String → Option Address

abbrev pub is_forbidden : Address → Bool
is_forbidden a =
    a.is_private || a.is_loopback || a.is_link_local || a.is_reserved || a.is_unspecified

abbrev pub is_local : Environment → Bool
is_local dev = true
is_local staging = false
is_local prod = false
is_local test = true

abbrev pub bad_request : String → Raised
bad_request = http 400

module _ (x : Network) (env : Environment) (now : ℕ) where
  abbrev pub check_address : Option Address → Result (Unit {0})
  check_address none = err (bad_request "Could not resolve webhook hostname.")
  check_address (some a) =
      if is_forbidden a
      then err (bad_request "Webhook URL points to a forbidden private or local network address.")
      else ok tt

  abbrev pub check_host : Option String → Result (Unit {0})
  check_host none = err (bad_request "Invalid hostname in webhook URL.")
  check_host (some host) =
      if truthy host
      then check_address (x.resolve now host)
      else err (bad_request "Invalid hostname in webhook URL.")

  abbrev pub check_parsed : Option ParsedUrl → Result (Unit {0})
  check_parsed none = err (error "ValueError")
  check_parsed (some p) =
      if not (str_mem p.scheme ("http" ∷ "https" ∷ []))
      then err (bad_request "Webhook URL must use HTTP or HTTPS scheme.")
      else (if is_local env then ok tt else check_host p.hostname)

  unfoldable pub validate_webhook_url : Text → Result (Unit {0})
  validate_webhook_url url = check_parsed (x.urlparse url)

-- `WebhookEndpointCreate`
pub record WebhookEndpointCreate : Type 0 where
  pub url : Text
  pub description : Option Text
  pub event_types : List String
  pub headers : List (String × Text)
  pub secret : Option Text

-- `WebhookEndpointUpdate`
pub record WebhookEndpointUpdate : Type 0 where
  pub url : Option Text
  pub description : Option Text
  pub event_types : Option (List String)
  pub headers : Option (List (String × Text))
  pub secret : Option Text
  pub is_active : Option Bool

-- The column `headers`, which is read through the codec of api/core/database.py that decodes JSON
-- once: an object, or the text of one, which the code writes since it encodes the headers by
-- json.dumps before the codec does.
pub data StoredHeaders : Type 0 where
  object quoted : List (String × Text) → StoredHeaders

-- `WebhookEndpointData`
pub record WebhookEndpoint : Type 0 where
  pub id : ℕ
  pub created_by : Option ℕ
  pub url : Text
  pub secret : Text
  pub description : Option Text
  pub event_types : List String
  pub headers : StoredHeaders
  pub is_active : Bool
  pub created_at : ℕ
  pub updated_at : ℕ

-- `WebhookEvents`
abbrev pub webhook_events : List String
webhook_events = "user.created" ∷ "user.updated" ∷ "user.deleted" ∷ []

-- `list(set(v))`, in the order of the last occurrences, where Python's order is open.
abbrev pub unique : List String → List String
unique [] = []
unique (v ∷ vs) = let rest = unique vs in if str_mem v vs then rest else v ∷ rest

-- `empty_secret_to_none`
abbrev pub empty_secret_to_none : Option Text → Option Text
empty_secret_to_none none = none
empty_secret_to_none (some v) = if is_empty (strip v) then none else some v

-- `min_length` and `max_length` of a field that may be None.
abbrev pub fits : (min_length max_length : ℕ) → Option Text → Bool
fits low high none = true
fits low high (some v) = leb low (length v) && leb (length v) high

abbrev pub are_events : List String → Bool
are_events [] = false
are_events (v ∷ vs) = all (λ e. str_mem e webhook_events) (v ∷ vs)

abbrev pub are_events_or_none : Option (List String) → Bool
are_events_or_none none = true
are_events_or_none (some vs) = are_events vs

abbrev pub unique_or_none : Option (List String) → Option (List String)
unique_or_none none = none
unique_or_none (some vs) = some (unique vs)

abbrev pub validation_error : Raised
validation_error = error "RequestValidationError"

-- The body of a request to create an endpoint, as pydantic reads it by the fields and validators.
unfoldable pub validate_create : WebhookEndpointCreate → Result WebhookEndpointCreate
unfolding strip
validate_create c =
    let secret' = empty_secret_to_none c.secret in
    if fits 7 2048 (some c.url)
      && fits 0 255 c.description
      && are_events c.event_types
      && fits 16 64 secret'
    then ok (record c { secret = secret'; event_types = unique c.event_types })
    else err validation_error

-- The same for a request to update one.
unfoldable pub validate_update : WebhookEndpointUpdate → Result WebhookEndpointUpdate
unfolding strip
validate_update c =
    let secret' = empty_secret_to_none c.secret in
    if fits 7 2048 c.url
      && fits 0 255 c.description
      && are_events_or_none c.event_types
      && fits 16 64 secret'
    then ok (record c { secret = secret'; event_types = unique_or_none c.event_types })
    else err validation_error
