-- ===== src/Auth/Tokens/Verify.antt =====
-- What `verify_token` makes of the tokens that `_create_token` issues.
use fastapi_asyncpg_template.Base.{
  ℕ, ◌<◌, String, ◌≡◌, refl, Bool, true, false, some, arith, if◌then◌else◌, is_some,
}
use fastapi_asyncpg_template.Base.Http.{Result, ok, err, http}
use fastapi_asyncpg_template.Auth.Tokens.{
  TokenTypes, access, refresh, sudo, value, TokenData, invalid_credentials, create_token,
  token_data, verify_token,
}
use fastapi_asyncpg_template.Auth.World.{
  RedisKey, blacklist_access, blacklist_refresh, blacklist_sudo, World, Claims, Services,
}

-- The key and the message of a revoked token, by type.
abbrev pub revocation_key : TokenTypes → ℕ → RedisKey
revocation_key access = blacklist_access
revocation_key refresh = blacklist_refresh
revocation_key sudo = blacklist_sudo

abbrev pub revoked_message : TokenTypes → String
revoked_message access = "Access token has been revoked."
revoked_message refresh = "Refresh token has been revoked."
revoked_message sudo = "Sudo token has been revoked."

abbrev pub same_type : TokenTypes → TokenTypes → Bool
same_type access access = true
same_type refresh refresh = true
same_type sudo sudo = true
same_type _ _ = false

-- The outcome that a holder expects: the wrong type is refused, then a revoked token.
abbrev pub outcome : (issued wanted : TokenTypes) → (revoked : Bool) → TokenData → Result TokenData
outcome issued wanted revoked d =
    if same_type issued wanted
    then (if revoked then err (http 401 (revoked_message wanted)) else ok d)
    else err invalid_credentials

-- A token that was issued decodes to its claims until it expires.
pub decode-issued :
    (x : Services) (c : Claims) (expire jti now : ℕ) (type : TokenTypes)
    → now < expire
    → x.decode now (create_token x c expire (value type) jti).token
      ≡ some (record c { exp = some expire; jti = some jti; type = some (value type) })
unfolding create_token
decode-issued x c expire jti now type h = x.decode-encode now expire _ refl h

module _ (x : Services) (w : World x.redis.Store) where
  abbrev pub is_revoked : (now : ℕ) → TokenTypes → ℕ → Bool
  is_revoked now type jti = is_some (x.redis.get w.redis now (revocation_key type jti))

  pub verify_token-create_token :
      (c : Claims) (username : String) (id expire jti now : ℕ) (issued wanted : TokenTypes)
      → c.sub ≡ some username
      → c.id ≡ some id
      → now < expire
      → verify_token x now (create_token x c expire (value issued) jti).token (value wanted) w ≡ (
        outcome issued wanted
            (is_revoked now wanted jti)
            (token_data x c username id expire jti (value issued)),
        w,
      )
  unfolding verify_token create_token
  verify_token-create_token c username id expire jti now access access hs hi hn =
      ground (arith, decode-issued x c expire jti now access hn)
  verify_token-create_token c username id expire jti now access wanted hs hi hn =
      ground (arith, decode-issued x c expire jti now access hn)
  verify_token-create_token c username id expire jti now refresh access hs hi hn =
      ground (arith, decode-issued x c expire jti now refresh hn)
  verify_token-create_token c username id expire jti now refresh wanted hs hi hn =
      ground (arith, decode-issued x c expire jti now refresh hn)
  verify_token-create_token c username id expire jti now sudo access hs hi hn =
      ground (arith, decode-issued x c expire jti now sudo hn)
  verify_token-create_token c username id expire jti now sudo wanted hs hi hn =
      ground (arith, decode-issued x c expire jti now sudo hn)
