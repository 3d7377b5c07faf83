-- ===== src/TwoFactor/Challenge.antt =====
-- Answering a two-factor challenge.
use fastapi_asyncpg_template.Base.{
  Option-cases, false, ◌⊎◌, inr, some, arith, none, ◌/◌, inl, Bool-cases, true, ◌≡◌, ℕ,
}
use fastapi_asyncpg_template.Base.Http.{>>=-ok, ◌>>◌, http, err, ok}
use fastapi_asyncpg_template.Auth.Service.{
  issue_tokens_and_session, set_redis, LoginResponse, Request,
}
use fastapi_asyncpg_template.Auth.Users.{
  upsert_user_session, update_two_factor_backup_codes, get_two_factor,
}
use fastapi_asyncpg_template.Auth.World.{
  flag, two_factor_challenge, two_factor_replay, TwoFactor, World, Services,
}
use fastapi_asyncpg_template.TwoFactor.Codes.{
  verify_and_consume_backup_code, strip, verify_totp, Text,
}
use fastapi_asyncpg_template.TwoFactor.Service.{
  complete_challenge, enabled, challenged_user, verify_two_factor_challenge,
  verify_2fa_code_or_backup,
}

module _ (x : Services) (w : World x.redis.Store) where
  -- What stands behind a code that was accepted for user `i` with the row `t`.
  abbrev pub Accepts : ℕ → TwoFactor → Text → (now : ℕ) → World x.redis.Store → Type 0
  Accepts i t code now w' =
      ((verify_totp x (x.decrypt t.secret_encrypted) code now 1 ≡ true)
        × (x.redis.get w.redis now (two_factor_replay i (now / 30)) ≡ none)
        × (w' ≡ set_redis (x.redis.set w.redis now (two_factor_replay i (now / 30)) flag 60) w))
      ⊎ ((verify_totp x (x.decrypt t.secret_encrypted) code now 1 ≡ false)
          × ((verify_and_consume_backup_code x t.backup_codes code now).0 ≡ true)
          × (w'
              ≡ update_two_factor_backup_codes i
                  (verify_and_consume_backup_code x t.backup_codes code now).1 w))

  accepted :
      (i : ℕ) (t : TwoFactor) (code : Text) (now : ℕ) (w' : World x.redis.Store)
      → verify_2fa_code_or_backup x i t code now w ≡ (ok tt, w')
      → Accepts i t code now w'
  unfolding verify_2fa_code_or_backup
  accepted i t code now w' h =
      elim (Bool-cases (verify_totp x (x.decrypt t.secret_encrypted) code now 1)) [
        | inl e ↦ inl (e, ground (arith, e), ground (arith, e))
        | inr e ↦ inr (e, ground (arith, e), ground (arith, e))
      ]

  -- The facts behind a challenge that was answered.
  pub record IsAnswered (token : ℕ) (code : Text) (now : ℕ) (r : Request) (jti jti' : ℕ)
      (response : LoginResponse x.Token) (w' : World x.redis.Store) : Type 0 where
    pub user_id : ℕ
    pub row : TwoFactor
    pub between : World x.redis.Store
    pub challenged :
        challenged_user (x.redis.get w.redis now (two_factor_challenge token)) ≡ some user_id
    pub protected : enabled (get_two_factor w user_id) ≡ some row
    pub accepts : Accepts user_id row (strip code) now between
    pub completed : complete_challenge x token user_id now r jti jti' between ≡ (ok response, w')

  -- A challenge is answered only with a token that Redis still holds, for a user whose second factor
  -- is on, and with a one-time code in a slice of time that was not used before, or else with an
  -- unused backup code; what was used is recorded before the tokens are issued.
  pub verify_two_factor_challenge-IsAnswered :
      (token : ℕ) (code : Text) (now : ℕ) (r : Request) (jti jti' : ℕ)
      (response : LoginResponse x.Token) (w' : World x.redis.Store)
      → verify_two_factor_challenge x token code now r jti jti' w ≡ (ok response, w')
      → IsAnswered token code now r jti jti' response w'
  unfolding verify_two_factor_challenge
  verify_two_factor_challenge-IsAnswered token code now r jti jti' response w' h =
      elim (Option-cases (challenged_user (x.redis.get w.redis now (two_factor_challenge token)))) [
        | inl e ↦ absurd (ground (arith, h, e))
        | inr (i, e) ↦ elim (Option-cases (enabled (get_two_factor w i))) [
          | inl f ↦ absurd (ground (arith, h, e, f))
          | inr (t, f) ↦
              let check = verify_2fa_code_or_backup x i t (strip code) now in
              let finish = complete_challenge x token i now r jti jti' in
              let h' : (check >> finish) w ≡ (ok response, w') = ground (arith, h, e, f) in
              let (_, b, p, q) = >>=-ok check (λ _. finish) w w' response h' in
              record {
                user_id = i;
                row = t;
                between = b;
                challenged = e;
                protected = f;
                accepts = accepted i t (strip code) now b p;
                completed = q;
              }
        ]
      ]

-- A challenge that was completed is gone.
challenge_gone :
    (x : Services) (token i now later : ℕ) (r : Request) (jti jti' : ℕ) (w w' : World x.redis.Store)
    (response : LoginResponse x.Token)
    → complete_challenge x token i now r jti jti' w ≡ (ok response, w')
    → x.redis.get w'.redis later (two_factor_challenge token) ≡ none
unfolding complete_challenge issue_tokens_and_session upsert_user_session
challenge_gone x token i now later r jti jti' w w' response h = ground (
  arith,
  h,
  x.redis.get-delete w.redis (two_factor_challenge token) later (two_factor_challenge token),
)

-- A challenge is good for one answer: once it has been answered its token is refused, at any later
-- time, with any code.
pub challenge_once :
    (x : Services) (token : ℕ) (code again : Text) (now later : ℕ) (r r' : Request)
    (jti jti' k k' : ℕ) (response : LoginResponse x.Token) (w w' : World x.redis.Store)
    → verify_two_factor_challenge x token code now r jti jti' w ≡ (ok response, w')
    → verify_two_factor_challenge x token again later r' k k' w'
      ≡ (err (http 401 "auth.two_factor_challenge_expired"), w')
unfolding verify_two_factor_challenge
challenge_once x token code again now later r r' jti jti' k k' response w w' h =
    let a = verify_two_factor_challenge-IsAnswered x w token code now r jti jti' response w' h in
    ground (
      arith,
      challenge_gone x token a.user_id now later r jti jti' a.between w' response a.completed,
    )
