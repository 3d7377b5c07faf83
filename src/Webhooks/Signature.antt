-- ===== src/Webhooks/Signature.antt =====
-- generate_webhook_signature and verify_webhook_signature of api/apps/common/utils.py.
use fastapi_asyncpg_template.Base.{
  ℕ, Bool, false, ◌||◌, ◌&&◌, leb, Option, some, none, List, [], ◌∷◌, ◌++◌, ◌+◌, ◌-◌, all, not,
  if◌then◌else◌, ◌≡◌, true,
}
use fastapi_asyncpg_template.Base.Int.{ℤ, pos, negsuc}
use fastapi_asyncpg_template.TwoFactor.Codes.{Text, strip, is_digit}
use fastapi_asyncpg_template.Webhooks.Texts.{text_eq, is_empty, split, cut, int}

abbrev pub is_hex : ℕ → Bool
is_hex c = is_digit c || (leb b'a' c && leb c b'f')

-- HMAC with SHA-256: `digest key message` is the hexadecimal text of the digest.
pub record Hmac : Type 0 where
  pub digest : Text → Text → Text
  pub digest_hex : (key message : Text) → all is_hex (digest key message) ≡ true
  pub digest_full : (key message : Text) → is_empty (digest key message) ≡ false

unfoldable pub generate_webhook_signature : Hmac → (secret timestamp payload_bytes : Text) → Text
generate_webhook_signature h secret timestamp payload_bytes =
    h.digest secret ((timestamp ++ (b'.' ∷ [])) ++ payload_bytes)

-- The header X-Webhook-Signature of `_deliver_to_endpoint`.
abbrev pub signature_header : (timestamp signature : Text) → Text
signature_header timestamp signature =
    b't' ∷ b'=' ∷ (timestamp ++ (b',' ∷ b'v' ∷ b'1' ∷ b'=' ∷ signature))

abbrev pub Elements : Type 0
Elements = List (Text × Text)

-- elements[k] = v
abbrev pub set_element : Text → Text → Elements → Elements
set_element k v [] = (k, v) ∷ []
set_element k v ((j, w) ∷ d) =
    let rest = set_element k v d in if text_eq j k then (j, v) ∷ d else (j, w) ∷ rest

-- elements.get(k)
abbrev pub element : Text → Elements → Option Text
element k [] = none
element k ((j, v) ∷ d) = if text_eq j k then some v else element k d

abbrev pub add_element : Option (Text × Text) → Elements → Elements
add_element none d = d
add_element (some (k, v)) d = set_element (strip k) (strip v) d

-- The loop over the parts of the header.
unfoldable pub parse_elements : List Text → Elements → Elements
parse_elements [] d = d
parse_elements (part ∷ parts) d = parse_elements parts (add_element (cut b'=' part) d)

-- abs(now - timestamp)
abbrev pub drift : (now : ℕ) → ℤ → ℕ
drift now (pos t) = (now - t) + (t - now)
drift now (negsuc t) = now + (t + 1)

module _ (h : Hmac) (secret payload_bytes : Text) (tolerance_seconds now : ℕ) where
  -- The checks of the two elements.
  unfoldable pub verify_elements : (timestamp_str received_sig : Option Text) → Bool
  verify_elements none received = false
  verify_elements (some t) none = false
  verify_elements (some t) (some received) =
      if is_empty t || is_empty received then false else elim (int t) [
        | none ↦ false
        | some timestamp ↦
            if not (leb (drift now timestamp) tolerance_seconds)
            then false
            else text_eq (generate_webhook_signature h secret t payload_bytes) received
      ]

  unfoldable pub verify_webhook_signature : (signature_header : Text) → Bool
  verify_webhook_signature header =
      if is_empty header || is_empty secret
      then false
      else (let d = parse_elements (split b',' header) [] in
          verify_elements (element (b't' ∷ []) d) (element (b'v' ∷ b'1' ∷ []) d))
