-- ===== src/Auth/Impersonation.antt =====
-- Impersonation, from api/apps/user/v0/service/auth.py: starting it, stopping it, and what the token
-- can do in between.
use fastapi_asyncpg_template.Base.{
  refl, dec_lt, ◌+◌, ◌≤◌, ◌*◌, not, if◌then◌else◌, ◌<◌, ◌==◌, false, arith, any, is_some, true, ◌≢◌,
  [], ◌∷◌, none, ◌≡◌, ◌++◌, String, some, str_mem, ℕ, Bool, Option,
}
use fastapi_asyncpg_template.Base.Http.{
  >>=-ok, pure, or_raise, http, raise_if, modify, gets, ◌>>◌, ◌>>=◌, ok, Handler,
}
use fastapi_asyncpg_template.Base.Int.{pos}
use fastapi_asyncpg_template.Auth.Revoke.{verify_token-expired}
use fastapi_asyncpg_template.Auth.Service.{publish, redis_set, set_redis, get_user_scopes}
use fastapi_asyncpg_template.Auth.Tokens.{
  access, verify_token, TokenData, token_data, create_impersonation_token, NewToken,
}
use fastapi_asyncpg_template.Auth.Tokens.Verify.{verify_token-create_token}
use fastapi_asyncpg_template.Auth.Users.{get_by_id}
use fastapi_asyncpg_template.Auth.World.{
  user_impersonation_started, impersonation_start, user_impersonation_stopped, impersonation_stop,
  impersonation_session, flag, blacklist_access, RedisValue, World, Claims, Services, Audit, User,
  Role,
}

abbrev pub is_privileged : Role → Bool
is_privileged r = str_mem r.name ("Super Admin" ∷ "Admin" ∷ [])

abbrev pub impersonation_claims : (admin target : User) → Claims
impersonation_claims admin target = record {
  sub = some target.username;
  id = some target.id;
  exp = none;
  jti = none;
  type = none;
  scopes = some (get_user_scopes target.roles);
  token_version = some target.token_version;
  is_impersonation = some true;
  act = some (admin.id, admin.username);
}

-- `ImpersonationResponse`; it has no refresh token.
pub record ImpersonationResponse (Token : Type 0) : Type 0 where
  pub access_token : NewToken Token
  pub target_user : User

abbrev pub record_audit : {S : Type 0} → Audit → World S → World S
record_audit a w = record w { audit = w.audit ++ a ∷ [] }

abbrev pub session_target : Option RedisValue → Option ℕ
session_target (some (RedisValue.session admin target reason)) = some target
session_target _ = none

module _ (x : Services) where
  -- Steps 1 to 4 of `impersonate_user`: whom to impersonate.
  unfoldable pub impersonation_target :
      (admin : User) → (target_id : ℕ) → Handler (World x.redis.Store) User
  unfolding get_by_id
  impersonation_target admin target_id = do
    nested ← gets (λ w. w.current_impersonator)
    raise_if (is_some nested) (http 400 "auth.cannot_nest_impersonation")
    raise_if (admin.id == target_id) (http 400 "auth.cannot_impersonate_self")
    found ← gets (λ w. get_by_id w target_id)
    target ← or_raise found (http 404 "user.not_found")
    raise_if (not target.is_active) (http 400 "auth.cannot_impersonate_inactive_user")
    raise_if (any is_privileged target.roles) (http 403 "auth.cannot_impersonate_admin")
    pure target

  -- Steps 5 to 9: the token, the session in Redis, the audit log and the event.
  unfoldable pub start_impersonation :
      (admin target : User)
      → (reason : String) → (now duration_minutes jti : ℕ)
      → Handler (World x.redis.Store) (ImpersonationResponse x.Token)
  start_impersonation admin target reason now duration_minutes jti = do
    let claims = impersonation_claims admin target
    let token = create_impersonation_token x claims now duration_minutes jti
    redis_set x now (impersonation_session jti) (RedisValue.session admin.id target.id reason)
        (pos (duration_minutes * 60))
    modify (record_audit (impersonation_start admin.id target.id jti duration_minutes reason))
    modify (publish (user_impersonation_started admin.id target.id jti reason))
    pure (record { access_token = token; target_user = target })

  unfoldable pub impersonate_user :
      (admin : User)
      → (target_id : ℕ) → (reason : String) → (now duration_minutes jti : ℕ)
      → Handler (World x.redis.Store) (ImpersonationResponse x.Token)
  unfolding impersonation_target start_impersonation
  impersonate_user admin target_id reason now duration_minutes jti = do
    target ← impersonation_target admin target_id
    start_impersonation admin target reason now duration_minutes jti

  unfoldable pub stop_impersonation :
      (jti admin_id now : ℕ) → Handler (World x.redis.Store) (Unit {0})
  stop_impersonation jti admin_id now = do
    modify (λ w. set_redis (x.redis.set w.redis now (blacklist_access jti) flag 3600) w)
    raw ← gets (λ w. x.redis.get w.redis now (impersonation_session jti))
    modify (λ w.
        if is_some raw then set_redis (x.redis.delete w.redis (impersonation_session jti)) w else w)
    modify (record_audit (impersonation_stop admin_id (session_target raw) jti))
    modify (publish (user_impersonation_stopped admin_id (session_target raw) jti))

-- The facts behind a target that may be impersonated.
pub record IsTarget (S : Type 0) (w : World S) (admin : User) (target_id : ℕ) (target : User)
    : Type 0 where
  pub known : get_by_id w target_id ≡ some target
  pub not_nested : w.current_impersonator ≡ none
  pub other : admin.id ≢ target_id
  pub active : target.is_active ≡ true
  pub ordinary : any is_privileged target.roles ≡ false

impersonation_target_lem :
    (x : Services) (w w' : World x.redis.Store) (admin u : User) (target_id : ℕ)
    → impersonation_target x admin target_id w ≡ (ok u, w')
    → IsTarget x.redis.Store w admin target_id u × (w' ≡ w)
unfolding impersonation_target
impersonation_target_lem x w w' admin u target_id h = (
  record {
    known = ground (arith, h);
    not_nested = ground (arith, h);
    other = ground (arith, h);
    active = ground (arith, h);
    ordinary = ground (arith, h);
  },
  ground (arith, h),
)

-- What a started impersonation hands out.
started :
    (x : Services) (w w' : World x.redis.Store) (admin u : User) (reason : String)
    (now minutes jti : ℕ) (response : ImpersonationResponse x.Token)
    → start_impersonation x admin u reason now minutes jti w ≡ (ok response, w')
    → (response.access_token
        ≡ create_impersonation_token x (impersonation_claims admin u) now minutes jti)
      × (response.target_user ≡ u)
unfolding start_impersonation
started x w w' admin u reason now minutes jti response h = ground (arith, h)

-- What the token of an impersonation says: it speaks for the target, and the administrator is its
-- actor.
pub record SpeaksFor (admin target : User) (expires jti : ℕ) (d : TokenData) : Type 0 where
  pub username : d.username ≡ target.username
  pub id : d.id ≡ target.id
  pub exp : d.exp ≡ expires
  pub jti_is : d.jti ≡ jti
  pub marked : d.is_impersonation ≡ true
  pub actor_id : d.impersonator_id ≡ some admin.id
  pub actor_name : d.impersonator_username ≡ some admin.username
  pub version : d.token_version ≡ target.token_version
  pub granted : d.scopes ≡ get_user_scopes target.roles

verify_impersonation-SpeaksFor :
    (x : Services) (w : World x.redis.Store) (admin u : User) (now minutes jti t : ℕ)
    → t < now + minutes * 60
    → x.redis.get w.redis t (blacklist_access jti) ≡ none
    → (d : TokenData) × (verify_token x t
          (create_impersonation_token x (impersonation_claims admin u) now minutes jti).token
          "access"
          w
        ≡ (ok d, w))
      × SpeaksFor admin u (now + minutes * 60) jti d
unfolding create_impersonation_token token_data
verify_impersonation-SpeaksFor x w admin u now minutes jti t h free =
    let claims = impersonation_claims admin u in
    let expires = now + minutes * 60 in
    (
      token_data x claims u.username u.id expires jti "access",
      ground (
        arith,
        verify_token-create_token x w claims u.username u.id expires jti t access access refl refl
            h,
        free,
      ),
      record {
        username = refl;
        id = refl;
        exp = refl;
        jti_is = refl;
        marked = refl;
        actor_id = refl;
        actor_name = refl;
        version = refl;
        granted = refl;
      },
    )

-- Impersonation starts only outside another one, for an active user other than the caller who has
-- neither of the two administrator roles. Whatever the tables are later, up to its end its token is
-- accepted as an access token unless its number is revoked, and says that it speaks for that user, with
-- the scopes and the version that the user had, and with the caller as the actor.
pub impersonate_user-IsTarget :
    (x : Services) (w w' later : World x.redis.Store) (admin : User) (target_id : ℕ)
    (reason : String) (now minutes jti t : ℕ) (response : ImpersonationResponse x.Token)
    → impersonate_user x admin target_id reason now minutes jti w ≡ (ok response, w')
    → t < now + minutes * 60
    → x.redis.get later.redis t (blacklist_access jti) ≡ none
    → IsTarget x.redis.Store w admin target_id response.target_user
      × ((d : TokenData) × (verify_token x t response.access_token.token "access" later
            ≡ (ok d, later))
          × SpeaksFor admin response.target_user (now + minutes * 60) jti d)
unfolding impersonate_user
impersonate_user-IsTarget x w w' later admin target_id reason now minutes jti t response h alive
      free =
    let (u, w₁, chosen, rest) =
      >>=-ok (impersonation_target x admin target_id)
        (λ u. start_impersonation x admin u reason now minutes jti) w w' response h in
    let (facts, _) = impersonation_target_lem x w w₁ admin u target_id chosen in
    let (token, same) = started x w₁ w' admin u reason now minutes jti response rest in
    rw (same, token)
      (facts, verify_impersonation-SpeaksFor x later admin u now minutes jti t alive free)

-- For an hour after the stop the token's number is refused.
blacklisted_after_stop :
    (x : Services) (w : World x.redis.Store) (jti admin_id t later : ℕ)
    → t ≤ later
    → later < t + 3600
    → x.redis.get (stop_impersonation x jti admin_id t w).1.redis later (blacklist_access jti)
      ≡ some flag
unfolding stop_impersonation
blacklisted_after_stop x w jti admin_id t later p h =
    let s = x.redis.set w.redis t (blacklist_access jti) flag 3600 in
    ground (
      arith,
      x.redis.get-set w.redis t (blacklist_access jti) flag 3600 later (blacklist_access jti)
          (omega arith) p,
      x.redis.get-delete s (impersonation_session jti) later (blacklist_access jti),
    )

-- Once an impersonation of at most an hour is stopped, its token is refused at every later time.
pub stop_impersonation-ends :
    (x : Services) (w : World x.redis.Store) (admin target : User)
    (started_at minutes jti t later : ℕ) (d : TokenData)
    → minutes ≤ 60
    → started_at ≤ t
    → t ≤ later
    → let token =
        (create_impersonation_token x
          (impersonation_claims admin target)
          started_at
          minutes
          jti).token in
      (verify_token x later token "access" (stop_impersonation x jti admin.id t w).1).0 ≢ ok d
unfolding create_impersonation_token
stop_impersonation-ends x w admin target t₀ minutes jti t later d short p q e =
    let after = (stop_impersonation x jti admin.id t w).1 in
    let claims = impersonation_claims admin target in
    let expires = t₀ + minutes * 60 in
    elim (dec_lt later expires) [
      | yes alive ↦ ground (
        arith,
        e,
        verify_token-create_token x after claims target.username target.id expires jti later access
            access refl refl alive,
        blacklisted_after_stop x w jti admin.id t later q (omega arith),
      )
      | no gone ↦
          ground
            (arith, e, verify_token-expired x after claims expires jti later "access" (omega arith))
    ]
