-- ===== src/TwoFactor/Setup.antt =====
-- Setting up the second factor, from `initiate_two_factor_setup` to `confirm_two_factor_setup`.
use fastapi_asyncpg_template.Base.{
  truthy, ℕ, String, true, false, some, none, List, [], ◌∷◌, ◌++◌, ◌≡◌, ◌≤◌, ◌<◌, ◌+◌, ◌/◌, ◌==◌,
  arith, refl, all, any, find, length, if◌then◌else◌,
}
use fastapi_asyncpg_template.Base.Http.{ok, err, http, ◌>>=◌, Result}
use fastapi_asyncpg_template.Auth.Users.{get_two_factor, upsert_two_factor, two_factor_row, on_user}
use fastapi_asyncpg_template.Auth.World.{World, Services, User, TwoFactor, two_factor_setup, secret}
use fastapi_asyncpg_template.TwoFactor.Codes.{Text, is_digit, generate_backup_codes, verify_totp}
use fastapi_asyncpg_template.TwoFactor.Replay.{totp_valid}
use fastapi_asyncpg_template.TwoFactor.Service.{initiate_two_factor_setup, confirm_two_factor_setup}

find-on_user :
    (i : ℕ) (row : TwoFactor) (ts : List TwoFactor)
    → row.user_id ≡ i
    → find (λ t. t.user_id == i) (on_user i (λ _. row) ts)
      ≡ (if any (λ t. t.user_id == i) ts then some row else none)
find-on_user i row [] e = refl
find-on_user i row (t ∷ ts) e = ground (arith, e, find-on_user i row ts e)

find-new :
    (i : ℕ) (row : TwoFactor) (ts : List TwoFactor)
    → row.user_id ≡ i
    → any (λ t. t.user_id == i) ts ≡ false
    → find (λ t. t.user_id == i) (ts ++ row ∷ []) ≡ some row
find-new i row [] e h = ground (arith, e)
find-new i row (t ∷ ts) e h = ground (arith, e, find-new i row ts e)

module _ (x : Services) (u : User) (fresh : String) (draws : List (Text × Text)) (now later : ℕ)
    (w : World x.redis.Store) where
  abbrev pub code : Text
  code = x.totp_at fresh (later / 30)

  -- The setup, and its confirmation with the code of the moment.
  abbrev pub set_up : Result (List Text) × World x.redis.Store
  set_up =
      (initiate_two_factor_setup x u fresh now >>= λ shown.
      confirm_two_factor_setup x u code draws later)
        w

  -- A setup that is confirmed within ten minutes by the six digits of the moment, of a secret
  -- whose encryption is not empty, succeeds: the user
  -- gets the backup codes whose records are stored, the second factor is on with the secret that was
  -- shown, and the setup cannot be confirmed again.
  pub confirm_two_factor_setup_lem :
      now ≤ later
      → later < now + 600
      → all is_digit code ≡ true
      → length code ≡ 6
      → truthy (x.encrypt fresh) ≡ true
      → let codes = generate_backup_codes x draws in
        (set_up.0 ≡ ok codes.0)
        × (get_two_factor set_up.1 u.id ≡ some (two_factor_row u.id (x.encrypt fresh) codes.1 true))
        × (confirm_two_factor_setup x u code draws later set_up.1
            ≡ (err (http 400 "auth.two_factor_setup_expired"), set_up.1))
  unfolding initiate_two_factor_setup confirm_two_factor_setup upsert_two_factor get_two_factor
  confirm_two_factor_setup_lem h l digits six filled =
      let s = x.redis.set w.redis now (two_factor_setup u.id) (secret (x.encrypt fresh)) 600 in
      let valid : verify_totp x (x.decrypt (x.encrypt fresh)) code later 1 ≡ true =
        rw (x.decrypt-encrypt fresh)
          (totp_valid x fresh (later / 30) later digits six (omega arith) (omega arith)) in
      let stored =
        x.redis.get-set w.redis now (two_factor_setup u.id) (secret (x.encrypt fresh)) 600 later
          (two_factor_setup u.id) (omega arith) h in
      let gone = x.redis.get-delete s (two_factor_setup u.id) later (two_factor_setup u.id) in
      let row = two_factor_row u.id (x.encrypt fresh) (generate_backup_codes x draws).1 true in
      ground (
        arith,
        filled,
        valid,
        stored,
        gone,
        find-on_user u.id row w.two_factor refl,
        find-new u.id row w.two_factor refl,
      )
