-- ===== src/Auth/Users.antt =====
-- api/apps/user/v0/dao/user.py: the queries on the tables users, user_sessions and user_two_factor.
-- A query that selects by a unique column finds the first row with that value; the roles that
-- `_get_user_with_roles` joins to a user stand in its row.
use fastapi_asyncpg_template.Base.{
  ℕ, ◌+◌, String, Bool, false, ◌&&◌, not, Option, none, some, List, [], ◌∷◌, ◌++◌, map, find, any,
  keep, str_eq, ◌==◌, if◌then◌else◌,
}
use fastapi_asyncpg_template.Base.Http.{Handler, http, or_raise}
use fastapi_asyncpg_template.Base.Int.{ℤ, sub_ℕ}
use fastapi_asyncpg_template.Auth.World.{User, Session, BackupCode, TwoFactor, World}

abbrev pub user_by_id : List User → ℕ → Option User
user_by_id users i = find (λ u. u.id == i) users

abbrev pub change_password : ℕ → String → User → User
change_password i hashed u =
    if u.id == i
    then record u { hashed_password = some hashed; token_version = u.token_version + 1 }
    else u

module _ {S : Type 0} where
  unfoldable pub get_by_id : World S → ℕ → Option User
  get_by_id w i = user_by_id w.users i

  unfoldable pub get_by_username : World S → String → Option User
  get_by_username w name = find (λ u. str_eq u.username name) w.users

  -- UPDATE users SET hashed_password = $1, token_version = token_version + 1 WHERE id = $2
  unfoldable pub update_password : ℕ → String → World S → World S
  update_password i hashed w = record w { users = map (change_password i hashed) w.users }

  unfoldable pub get_two_factor : World S → ℕ → Option TwoFactor
  get_two_factor w i = find (λ t. t.user_id == i) w.two_factor

-- The rows of one user change, the others stay.
abbrev pub on_user : ℕ → (TwoFactor → TwoFactor) → List TwoFactor → List TwoFactor
on_user i f = map (λ t. if t.user_id == i then f t else t)

abbrev pub two_factor_row : ℕ → String → List BackupCode → Bool → TwoFactor
two_factor_row i secret codes enabled = record {
  user_id = i;
  is_enabled = enabled;
  secret_encrypted = secret;
  backup_codes = codes;
}

abbrev pub same_agent : Option String → Option String → Bool
same_agent (some a) (some b) = str_eq a b
same_agent _ _ = false

-- UNIQUE (user_id, user_agent), in which NULL differs from every value.
abbrev pub conflicts : Session → Session → Bool
conflicts new old = old.user_id == new.user_id && same_agent old.user_agent new.user_agent

abbrev pub owns : ℕ → ℕ → Session → Bool
owns i jti s = s.jti == jti && s.user_id == i

-- `if not row: return None` takes a time to live of zero for a missing row.
abbrev pub ttl_of : ℕ → Option Session → Option ℤ
ttl_of now none = none
ttl_of now (some s) = if s.expires_at == now then none else some (sub_ℕ s.expires_at now)

module _ {S : Type 0} where
  -- INSERT … ON CONFLICT (user_id, user_agent) DO UPDATE
  unfoldable pub upsert_user_session : Session → World S → World S
  upsert_user_session new w = record w {
    sessions =
        if any (conflicts new) w.sessions
        then map (λ old. if conflicts new old then new else old) w.sessions
        else w.sessions ++ new ∷ [];
  }

  -- DELETE … RETURNING the seconds that the session had left.
  unfoldable pub revoke_user_session : (user_id jti now : ℕ) → World S → Option ℤ × World S
  revoke_user_session i jti now w = (
    ttl_of now (find (owns i jti) w.sessions),
    record w { sessions = keep (λ s. not (owns i jti s)) w.sessions },
  )

  unfoldable pub upsert_two_factor :
      (user_id : ℕ) → String → List BackupCode → Bool → World S → World S
  upsert_two_factor i secret codes enabled w = record w {
    two_factor =
        if any (λ t. t.user_id == i) w.two_factor
        then on_user i (λ _. two_factor_row i secret codes enabled) w.two_factor
        else w.two_factor ++ two_factor_row i secret codes enabled ∷ [];
  }

  unfoldable pub disable_two_factor : ℕ → World S → World S
  disable_two_factor i w = record w {
    two_factor =
        on_user i (λ t. record t { is_enabled = false; secret_encrypted = ""; backup_codes = [] })
          w.two_factor;
  }

  unfoldable pub update_two_factor_backup_codes : ℕ → List BackupCode → World S → World S
  update_two_factor_backup_codes i codes w = record w {
    two_factor = on_user i (λ t. record t { backup_codes = codes }) w.two_factor;
  }

  -- `UserService.get_user_by_id` of api/apps/user/v0/service/user.py
  unfoldable pub get_user_by_id : ℕ → Handler (World S) User
  unfolding get_by_id
  get_user_by_id i w = or_raise (get_by_id w i) (http 404 "user.not_found") w
