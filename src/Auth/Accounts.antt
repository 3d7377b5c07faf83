-- ===== src/Auth/Accounts.antt =====
-- `UserService` of api/apps/user/v0/service/user.py with its queries in dao/user.py: the creation and
-- the update of a user and the revocation of all sessions. A full name is not kept.
use fastapi_asyncpg_template.Base.{
  ℕ, zero, suc, String, Bool, not, ◌&&◌, ◌||◌, Option, none, some, List, [], ◌∷◌, ◌++◌, map, keep,
  any, str_eq, ◌==◌, coalesce, if◌then◌else◌,
}
use fastapi_asyncpg_template.Base.Http.{
  ok, err, error, Raised, Handler, or_raise, ◌>>=◌, ◌>>◌, pure, modify, gets,
}
use fastapi_asyncpg_template.Base.Int.{ℤ, pos, negsuc, sub_ℕ}
use fastapi_asyncpg_template.Auth.Service.{publish, set_redis}
use fastapi_asyncpg_template.Auth.Users.{get_by_id}
use fastapi_asyncpg_template.Auth.World.{
  User, Session, World, Services, user_created, blacklist_access, blacklist_refresh, flag,
}

-- `UserCreate`
pub record UserCreate : Type 0 where
  pub username : String
  pub email : String
  pub is_active : Bool
  pub password : Option String

-- `UserUpdate`
pub record UserUpdate : Type 0 where
  pub email : Option String
  pub username : Option String

-- The row of `create_user`, with the defaults of the table.
abbrev pub new_user : (id : ℕ) → UserCreate → Option String → User
new_user i c hashed = record {
  id = i;
  username = c.username;
  email = c.email;
  hashed_password = hashed;
  is_active = c.is_active;
  token_version = 1;
  roles = [];
}

abbrev pub same_names : User → User → Bool
same_names u v = str_eq v.username u.username || str_eq v.email u.email

-- Another row has the name or the address.
abbrev pub clashes : User → User → Bool
clashes u v = not (v.id == u.id) && same_names u v

abbrev pub unique_violation : Raised
unique_violation = error "UniqueViolationError"

abbrev pub changed_user : UserUpdate → User → User
changed_user c u = record u {
  email = coalesce c.email u.email;
  username = coalesce c.username u.username;
}

module _ {S : Type 0} where
  -- `UserDAO.create_user`; the table draws the id.
  unfoldable pub insert_user : (id : ℕ) → UserCreate → Option String → Handler (World S) User
  insert_user i c hashed w =
      let u = new_user i c hashed in
      if any (same_names u) w.users
      then (err unique_violation, w)
      else (ok u, record w { users = w.users ++ u ∷ [] })

  -- The UPDATE of `UserDAO.update_user` on one row, which no other row may clash with.
  unfoldable pub update_row : ℕ → UserUpdate → Handler (World S) (Unit {0})
  update_row i c w =
      let set : User → User = λ u. if u.id == i then changed_user c u else u in
      if any (λ u. u.id == i && any (clashes (changed_user c u)) w.users) w.users
      then (err unique_violation, w)
      else (ok tt, record w { users = map set w.users })

  -- `update_user`: a missing user is a None that `model_validate` refuses.
  unfoldable pub update_user : ℕ → UserUpdate → Handler (World S) User
  update_user i c = do
    update_row i c
    u ← gets (λ w. get_by_id w i)
    or_raise u (error "ValidationError")

  -- `UserDAO.revoke_all_user_sessions`: the sessions that were deleted.
  unfoldable pub delete_sessions : ℕ → World S → List Session × World S
  delete_sessions i w = (
    keep (λ s. s.user_id == i) w.sessions,
    record w { sessions = keep (λ s. not (s.user_id == i)) w.sessions },
  )

module _ (x : Services) where
  -- `create_user`
  unfoldable pub create_user : (id : ℕ) → UserCreate → Handler (World x.redis.Store) User
  create_user i c w = elim c.password [
    | none ↦ (err (error "ValueError"), w)
    | some p ↦
        (do u ← insert_user i c (some (x.hashpw p)); modify (publish (user_created u.id)); pure u) w
  ]

  -- The two keys of one session, if it has time left.
  abbrev pub blacklist : (now jti : ℕ) → (ttl : ℤ) → x.redis.Store → x.redis.Store
  blacklist now jti (pos zero) s = s
  blacklist now jti (pos (suc n)) s =
      x.redis.set (x.redis.set s now (blacklist_access jti) flag (suc n)) now
        (blacklist_refresh jti) flag (suc n)
  blacklist now jti (negsuc n) s = s

  -- The loop over the sessions.
  unfoldable pub blacklist_all : (now : ℕ) → List Session → x.redis.Store → x.redis.Store
  blacklist_all now [] s = s
  blacklist_all now (t ∷ ts) s =
      blacklist_all now ts (blacklist now t.jti (sub_ℕ t.expires_at now) s)

  -- `revoke_all_user_sessions`
  unfoldable pub revoke_all_user_sessions :
      ℕ → (now : ℕ) → World x.redis.Store → World x.redis.Store
  revoke_all_user_sessions i now w =
      let (revoked, w') = delete_sessions i w in set_redis (blacklist_all now revoked w'.redis) w'
