-- ===== src/Webhooks/Tests.antt =====
-- Webhooks on small inputs.
use fastapi_asyncpg_template.Base.{
  ℕ, String, true, false, none, some, List, [], ◌∷◌, ◌++◌, ◌≡◌, refl, map, str_eq, All, all, ltb,
  ◌&&◌, if◌then◌else◌, keep, arith, Option, ◌≢◌,
}
use fastapi_asyncpg_template.TwoFactor.Codes.{Text, strip, lstrip, is_space, is_digit}
use fastapi_asyncpg_template.Base.Http.{ok, err, error}
use fastapi_asyncpg_template.Pagination.Follow.{follow}
use fastapi_asyncpg_template.Pagination.Page.{Base64}
use fastapi_asyncpg_template.Pagination.Select.{order_desc, select_page}
use fastapi_asyncpg_template.Pagination.Unary.{unary, read_unary, read_unary-unary, truthy-unary}
use fastapi_asyncpg_template.Webhooks.Logs.{
  LogRow, WebhookLogFilter, outbound, failed, is_wanted, list_logs,
}
use fastapi_asyncpg_template.Webhooks.Lists.{list_endpoints-follow}
use fastapi_asyncpg_template.Webhooks.Delivery.{Outside, Sent, response, send_webhook_event}
use fastapi_asyncpg_template.Webhooks.Endpoints.{
  Network, prod, WebhookEndpoint, WebhookEndpointCreate, WebhookEndpointUpdate,
  validate_webhook_url, validate_create, object, quoted,
}
use fastapi_asyncpg_template.Webhooks.Created.{create-unreached}
use fastapi_asyncpg_template.Webhooks.Service.{
  Request, create, update, delete, serve_all, serve, create_endpoint, delete_endpoint, get_endpoint,
  delete_row, list_endpoints, is_active_or_any,
}
use fastapi_asyncpg_template.Webhooks.Signature.{
  Hmac, is_hex, generate_webhook_signature, verify_webhook_signature, signature_header,
  verify_elements, parse_elements,
}
use fastapi_asyncpg_template.Webhooks.Signed.{
  verify_webhook_signature-generate, verify_webhook_signature-IsSigned, IsSigned,
}
use fastapi_asyncpg_template.Webhooks.Texts.{
  codes, str, int, text_eq, is_empty, split, cut, read_digits,
}
use fastapi_asyncpg_template.Base.Int.{pos, negsuc}

-- A digest that tells the lengths apart only.
abbrev marks : Text → Text
marks [] = b'e' ∷ []
marks (c ∷ cs) = b'a' ∷ marks cs

marks-hex : (m : Text) → all is_hex (marks m) ≡ true
unfolding is_digit
marks-hex [] = refl
marks-hex (c ∷ cs) = marks-hex cs

marks-full : (m : Text) → is_empty (marks m) ≡ false
marks-full [] = refl
marks-full (c ∷ cs) = refl

abbrev hmac : Hmac
hmac = record {
  digest = λ key message. marks (key ++ message);
  digest_hex = λ key message. marks-hex (key ++ message);
  digest_full = λ key message. marks-full (key ++ message);
}

verify_webhook_signature-generate_example :
    verify_webhook_signature hmac (codes "k") (codes "{}") 300 1200 (
      signature_header
        (str 1000)
        (generate_webhook_signature hmac (codes "k") (str 1000) (codes "{}")))
    ≡ true
verify_webhook_signature-generate_example =
    verify_webhook_signature-generate hmac (codes "k") (codes "{}") 300 1200 1000 refl

abbrev posted : Text
posted = codes "v1=aaaaaae, t=10"

verify_webhook_signature-IsSigned_example : IsSigned hmac (codes "k") (codes "{}") 300 12 posted
unfolding verify_webhook_signature verify_elements generate_webhook_signature parse_elements split
    cut strip lstrip is_space int read_digits is_digit
verify_webhook_signature-IsSigned_example =
    verify_webhook_signature-IsSigned hmac (codes "k") (codes "{}") 300 12 posted refl

ints :
    map int (codes "1_0" ∷ codes " -7 " ∷ codes "+3" ∷ codes "1__0" ∷ codes "x" ∷ [])
    ≡ some (pos 10) ∷ some (negsuc 6) ∷ some (pos 3) ∷ none ∷ none ∷ []
unfolding int strip lstrip is_space read_digits is_digit
ints = refl

abbrev outside : Outside
outside = record {
  Json = ℕ;
  dumps = str;
  hmac = hmac;
  post = λ p. response 200 [] [];
  elapsed_ms = λ p. 3;
  log_kept = λ i. true;
}

-- The names resolve to a public address but for "a" in the first ten seconds.
abbrev network : Network
network = record {
  urlparse = λ url. some (record {
    scheme = "https";
    hostname = some (if text_eq url (codes "https://a") then "a" else "b");
  });
  resolve = λ now host. some (record {
    is_private = str_eq host "a" && ltb now 10;
    is_loopback = false;
    is_link_local = false;
    is_reserved = false;
    is_unspecified = false;
  });
}

abbrev wanted : String → WebhookEndpointCreate
wanted url = record {
  url = codes url;
  description = none;
  event_types = "user.created" ∷ "user.created" ∷ [];
  headers = ("X-Own", codes "1") ∷ [];
  secret = some (codes "0123456789abcdef");
}

abbrev requests : List (ℕ × Request)
requests =
    (5, create 1 [] 7 (wanted "https://a"))
    ∷ (6, create 2 [] 7 (wanted "https://b"))
    ∷ (11, create 3 [] 7 (wanted "https://a"))
    ∷ (12, delete 2)
    ∷ []

abbrev hook : WebhookEndpoint
hook = record {
  id = 9;
  created_by = some 7;
  url = codes "https://a";
  secret = codes "0123456789abcdef";
  description = none;
  event_types = "user.created" ∷ [];
  headers = object (("X-Own", codes "1") ∷ []);
  is_active = true;
  created_at = 11;
  updated_at = 11;
}

-- What the third of the requests leaves: the headers are a text.
abbrev created : WebhookEndpoint
created = record hook { id = 3; headers = quoted (("X-Own", codes "1") ∷ []) }

served : serve_all network prod requests (hook ∷ []) ≡ hook ∷ created ∷ []
unfolding serve validate_create create_endpoint validate_webhook_url delete_endpoint get_endpoint
    delete_row strip lstrip is_space
served = refl

abbrev nothing_sent : Sent ℕ
nothing_sent = record { posts = []; logs = [] }

abbrev renamed : WebhookEndpointUpdate
renamed = record {
  url = none;
  description = some (codes "renamed");
  event_types = none;
  headers = some (("X-Own", codes "2") ∷ []);
  secret = none;
  is_active = none;
}

-- The third endpoint is created and then updated.
abbrev written : List (ℕ × Request)
written = (11, create 3 [] 7 (wanted "https://a")) ∷ (12, update 3 renamed) ∷ (13, delete 1) ∷ []

create-unreached_example :
    All
      (λ p. p.endpoint_id ≢ 3)
      (send_webhook_event outside "user.created" "e1" 5 20
        (λ es. es)
        (serve_all network prod written (hook ∷ []))
        nothing_sent).posts
create-unreached_example =
    create-unreached 3 outside "user.created" "e1" 5 20 network prod written (hook ∷ []) (λ es. es)
      [] ((omega arith), tt)

abbrev row : ℕ → ℕ → LogRow ℕ
row i t = record {
  id = i;
  direction = outbound;
  status = failed;
  source = "system";
  event_name = "user.created";
  endpoint_id = some 3;
  payload = 5;
  created_at = t;
}

abbrev failures : Option WebhookLogFilter
failures = some (record {
  direction = some outbound;
  status = some failed;
  event_name = none;
  source = none;
  endpoint_id = some 3;
  from_date = some 1;
  to_date = none;
})

abbrev base64 : Base64
base64 = record {
  encode_cursor = λ s. s;
  decode_cursor = λ s. some s;
  decode-encode = λ s. refl;
  encode_truthy = λ s h. h;
}

list_endpoints-follow_example :
    follow base64
      (λ limit cursor. list_endpoints read_unary limit cursor (some true) (hook ∷ []))
      (λ e. unary e.id)
      1
      3
      none
    ≡ some (keep (is_active_or_any (some true)) (order_desc (λ e. e.id) (hook ∷ [])))
list_endpoints-follow_example =
    list_endpoints-follow base64 read_unary unary (some true) 0 3 (hook ∷ [])
      (record { uuid-text = read_unary-unary; truthy-text = truthy-unary }) (tt, tt) (omega arith)

-- The first page of the logs and the page after it.
first_page : list_logs 1 none failures (row 1 4 ∷ row 2 9 ∷ []) ≡ ok (row 2 9 ∷ [])
unfolding list_logs select_page is_wanted
first_page = refl

no_second_page :
    list_logs 1 (some (unary 9)) failures (row 1 4 ∷ row 2 9 ∷ []) ≡ err (error "DataError")
unfolding list_logs select_page
no_second_page = refl
