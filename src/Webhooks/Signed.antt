-- ===== src/Webhooks/Signed.antt =====
-- Signatures of webhooks are accepted for a time, and only they.
use fastapi_asyncpg_template.Base.{
  ℕ, true, false, Option, some, none, [], ◌∷◌, ◌++◌, ◌+◌, ◌-◌, ◌≤◌, leb, all, ◌≡◌, refl, arith,
  Option-cases, inl, inr,
}
use fastapi_asyncpg_template.Base.Int.{ℤ}
use fastapi_asyncpg_template.TwoFactor.Codes.{Text, strip, lstrip, is_space}
use fastapi_asyncpg_template.Webhooks.Texts.{text_eq, is_empty, split, cut, int, str}
use fastapi_asyncpg_template.Webhooks.Numbers.{
  strip-hex, split-hex, split-hex_end, digits-hex, is_empty-str, all-str, int-str,
}
use fastapi_asyncpg_template.Webhooks.Signature.{
  Hmac, is_hex, generate_webhook_signature, verify_elements, verify_webhook_signature, drift,
  parse_elements, element, signature_header,
}

text_eq_refl : (cs : Text) → text_eq cs cs ≡ true
text_eq_refl [] = refl
text_eq_refl (c ∷ cs) = ground (arith, text_eq_refl cs)

-- What the header is taken apart into.
split-header :
    (t sig : Text)
    → all is_hex t ≡ true
    → all is_hex sig ≡ true
    → split b',' (signature_header t sig) ≡ (b't' ∷ b'=' ∷ t) ∷ (b'v' ∷ b'1' ∷ b'=' ∷ sig) ∷ []
unfolding split
split-header t sig ht hs =
    rw (split-hex t (b'v' ∷ b'1' ∷ b'=' ∷ sig) ht) (rw (split-hex_end sig hs) refl)

parse-header :
    (t sig : Text)
    → all is_hex t ≡ true
    → all is_hex sig ≡ true
    → parse_elements (split b',' (signature_header t sig)) []
      ≡ (b't' ∷ [], t) ∷ (b'v' ∷ b'1' ∷ [], sig) ∷ []
unfolding parse_elements cut strip lstrip is_space
parse-header t sig ht hs =
    rw (split-header t sig ht hs) (rw (strip-hex t ht) (rw (strip-hex sig hs) refl))

text_eq_sound : (cs ds : Text) → text_eq cs ds ≡ true → cs ≡ ds
text_eq_sound [] [] e = refl
text_eq_sound [] (d ∷ ds) e = absurd (cc e)
text_eq_sound (c ∷ cs) [] e = absurd (cc e)
text_eq_sound (c ∷ cs) (d ∷ ds) e = ground (arith, text_eq_sound cs ds)

module _ (h : Hmac) (secret body : Text) (tolerance now : ℕ) where
  signature-hex : (t : Text) → all is_hex (generate_webhook_signature h secret t body) ≡ true
  unfolding generate_webhook_signature
  signature-hex t = h.digest_hex secret ((t ++ (b'.' ∷ [])) ++ body)

  signature-full : (t : Text) → is_empty (generate_webhook_signature h secret t body) ≡ false
  unfolding generate_webhook_signature
  signature-full t = h.digest_full secret ((t ++ (b'.' ∷ [])) ++ body)

  -- A header made of the signature of a body at a second, with a secret that is not empty: it is
  -- accepted for that body exactly if the second differs from now by at most the tolerance.
  pub verify_webhook_signature-generate :
      (sent : ℕ)
      → is_empty secret ≡ false
      → verify_webhook_signature h secret body tolerance now
          (signature_header (str sent) (generate_webhook_signature h secret (str sent) body))
        ≡ leb ((now - sent) + (sent - now)) tolerance
  unfolding verify_webhook_signature verify_elements
  verify_webhook_signature-generate sent e =
      let t = str sent in
      let sig = generate_webhook_signature h secret t body in
      rw e (
        rw (parse-header t sig (digits-hex t (all-str sent)) (signature-hex t)) (
          rw (is_empty-str sent)
            (rw (signature-full t) (rw (int-str sent) (ground (arith, text_eq_refl sig))))))

  -- The header has a time `t`, which is a number near now, and the signature of the body at `t`.
  pub record IsSigned (header : Text) : Type 0 where
    pub secret_full : is_empty secret ≡ false
    pub t : Text
    pub timestamp : ℤ
    pub has_t : element (b't' ∷ []) (parse_elements (split b',' header) []) ≡ some t
    pub is_number : int t ≡ some timestamp
    pub near : drift now timestamp ≤ tolerance
    pub has_v1 :
        element (b'v' ∷ b'1' ∷ []) (parse_elements (split b',' header) [])
        ≡ some (generate_webhook_signature h secret t body)

  verify_elements-accepted :
      (t received : Option Text)
      → verify_elements h secret body tolerance now t received ≡ true
      → (u : Text) × (timestamp : ℤ) × (t ≡ some u)
        × (int u ≡ some timestamp)
        × (drift now timestamp ≤ tolerance)
        × (received ≡ some (generate_webhook_signature h secret u body))
  unfolding verify_elements
  verify_elements-accepted none r e = absurd (cc e)
  verify_elements-accepted (some t) none e = absurd (cc e)
  verify_elements-accepted (some t) (some r) e = elim (Option-cases (int t)) [
    | inl n ↦ ground (arith, n)
    | inr (timestamp, q) ↦ (
      t,
      timestamp,
      refl,
      q,
      ground (arith, q),
      ground (arith, q, text_eq_sound (generate_webhook_signature h secret t body) r),
    )
  ]

  -- A header that is accepted for a body carries a time that is a number and differs from now by at
  -- most the tolerance, and the signature of that body at that time with the secret, which is not empty.
  pub verify_webhook_signature-IsSigned :
      (header : Text)
      → verify_webhook_signature h secret body tolerance now header ≡ true
      → IsSigned header
  unfolding verify_webhook_signature
  verify_webhook_signature-IsSigned header e =
      let d = parse_elements (split b',' header) [] in
      let (u, timestamp, ht, hn, near, hv) =
        verify_elements-accepted (element (b't' ∷ []) d) (element (b'v' ∷ b'1' ∷ []) d)
          (ground (arith, e)) in
      record {
        secret_full = ground (arith, e);
        t = u;
        timestamp = timestamp;
        has_t = ht;
        is_number = hn;
        near = near;
        has_v1 = hv;
      }
