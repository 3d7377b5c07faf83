-- ===== src/Auth/Sudo.antt =====
-- Sudo tokens, from `create_sudo_token_user` to `get_sudo_user`.
use fastapi_asyncpg_template.Base.{
  refl, ◌==◌, if◌then◌else◌, arith, true, none, some, ◌≡◌, ◌*◌, ◌+◌, ◌<◌, String, ℕ,
}
use fastapi_asyncpg_template.Base.Http.{err, ◌>>=◌, ok}
use fastapi_asyncpg_template.Auth.Dependencies.{credentials_exception, set_actor, get_sudo_user}
use fastapi_asyncpg_template.Auth.Service.{sudo_claims, check_credentials, create_sudo_token_user}
use fastapi_asyncpg_template.Auth.Tokens.{
  sudo, verify_token, verify_password, token_data, create_sudo_token,
}
use fastapi_asyncpg_template.Auth.Tokens.Verify.{verify_token-create_token}
use fastapi_asyncpg_template.Auth.Users.{get_by_id, get_by_username, get_user_by_id}
use fastapi_asyncpg_template.Auth.World.{blacklist_sudo, User, World, Services}

-- A sudo token that was just issued to a user, before it expires and is revoked.
verify-sudo :
    (x : Services) (w : World x.redis.Store) (u : User) (now later jti : ℕ)
    → later < now + x.settings.sudo_token_expire_minutes * 60
    → x.redis.get w.redis later (blacklist_sudo jti) ≡ none
    → verify_token x later (create_sudo_token x (sudo_claims u) now jti) "sudo" w ≡ (
      ok (
          token_data x
            (sudo_claims u)
            u.username
            u.id
            (now + x.settings.sudo_token_expire_minutes * 60)
            jti
            "sudo"),
      w,
    )
unfolding create_sudo_token
verify-sudo x w u now later jti h fresh = ground (
  arith,
  verify_token-create_token x w (sudo_claims u) u.username u.id
      (now + x.settings.sudo_token_expire_minutes * 60) jti later sudo sudo refl refl h,
)

-- The sudo token that a user gets for the right password lets the user in, until it expires and
-- unless it is revoked, exactly if the user's token version is 1: every other user, such as one who
-- has changed the password, is refused by a 401.
sudo_only_first_version :
    (x : Services) (w : World x.redis.Store) (username password : String) (u : User)
    (now later jti : ℕ)
    → get_by_username w username ≡ some u
    → verify_password x password u.hashed_password ≡ true
    → get_by_id w u.id ≡ some u
    → later < now + x.settings.sudo_token_expire_minutes * 60
    → x.redis.get w.redis later (blacklist_sudo jti) ≡ none
    → (create_sudo_token_user x username password now jti >>= get_sudo_user x later) w
      ≡ (if u.token_version == 1 then (ok u, set_actor u.id w) else (err credentials_exception, w))
unfolding create_sudo_token_user get_sudo_user check_credentials get_user_by_id token_data
sudo_only_first_version x w username password u now later jti named right known h fresh =
    ground (arith, verify-sudo x w u now later jti h fresh)
