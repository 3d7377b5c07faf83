-- ===== src/Webhooks/Public.antt =====
-- The addresses that `validate_webhook_url` lets through in staging and production.
use fastapi_asyncpg_template.Base.{
  ℕ, String, true, false, Option, none, some, [], ◌∷◌, str_mem, ◌≡◌, refl, arith, inl, inr,
  Option-cases,
}
use fastapi_asyncpg_template.Base.Http.{ok}
use fastapi_asyncpg_template.TwoFactor.Codes.{Text}
use fastapi_asyncpg_template.Webhooks.Endpoints.{
  Network, Environment, ParsedUrl, Address, is_forbidden, is_local, validate_webhook_url,
  check_host, check_address,
}

module _ (x : Network) where
  -- At some time the host of the address resolved to one that is not private, loopback, link-local,
  -- reserved or unspecified; the scheme is http or https.
  pub record IsPublic (url : Text) : Type 0 where
    pub time : ℕ
    pub parsed : ParsedUrl
    pub host : String
    pub address : Address
    pub is_parsed : x.urlparse url ≡ some parsed
    pub by_http : str_mem parsed.scheme ("http" ∷ "https" ∷ []) ≡ true
    pub has_host : parsed.hostname ≡ some host
    pub resolved : x.resolve time host ≡ some address
    pub allowed : is_forbidden address ≡ false

  module _ (env : Environment) (strict : is_local env ≡ false) (now : ℕ) where
    check_address-ok :
        (a : Option Address)
        → check_address x env now a ≡ ok tt
        → (b : Address) × (a ≡ some b) × (is_forbidden b ≡ false)
    check_address-ok none e = absurd (cc e)
    check_address-ok (some a) e = (a, refl, ground (arith, e))

    check_host-ok :
        (h : Option String)
        → check_host x env now h ≡ ok tt
        → (host : String) × (a : Address) × (h ≡ some host)
          × (x.resolve now host ≡ some a)
          × (is_forbidden a ≡ false)
    check_host-ok none e = absurd (cc e)
    check_host-ok (some host) e =
        let (a, r, f) = check_address-ok (x.resolve now host) (ground (arith, e)) in
        (host, a, refl, r, f)

    pub validate_webhook_url-IsPublic :
        (url : Text) → validate_webhook_url x env now url ≡ ok tt → IsPublic url
    unfolding validate_webhook_url
    validate_webhook_url-IsPublic url e = elim (Option-cases (x.urlparse url)) [
      | inl n ↦ absurd (cc (rw n at e))
      | inr (p, q) ↦
          let c : check_host x env now p.hostname ≡ ok tt = ground (arith, rw q at e, strict) in
          let (host, a, h, r, f) = check_host-ok p.hostname c in
          record {
            time = now;
            parsed = p;
            host = host;
            address = a;
            is_parsed = q;
            by_http = ground (arith, rw q at e);
            has_host = h;
            resolved = r;
            allowed = f;
          }
    ]
