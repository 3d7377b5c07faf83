-- ===== src/Auth/Access.antt =====
-- Who `get_current_user` and `get_sudo_user` let in, and what a change of password does to tokens.
use fastapi_asyncpg_template.Base.{
  ◌==◌, find_sound, ◌≢◌, ◌+◌, false, eq_iff, inr, inl, Option-cases, ℕ, String, ◌≡◌, true, some,
  none, List, [], ◌∷◌, map, arith, all, str_mem,
}
use fastapi_asyncpg_template.Base.Http.{ok_path, >>=-ok, ok}
use fastapi_asyncpg_template.Auth.Dependencies.{get_current_user}
use fastapi_asyncpg_template.Auth.Service.{update_password}
use fastapi_asyncpg_template.Auth.Tokens.{
  sudo, refresh, access, value, TokenTypes, TokenData, verify_token, default,
}
use fastapi_asyncpg_template.Auth.Tokens.Verify.{revocation_key}
use fastapi_asyncpg_template.Auth.Users.{get_user_by_id, user_by_id, get_by_id, change_password}
use fastapi_asyncpg_template.Auth.World.{User, World, Claims, Services}

pub user_by_id-change_password :
    (i : ℕ) (h : String) (us : List User) (u : User)
    → user_by_id us i ≡ some u
    → user_by_id (map (change_password i h) us) i ≡ some (change_password i h u)
user_by_id-change_password i h [] u e = ground arith
user_by_id-change_password i h (v ∷ us) u e = ground (arith, user_by_id-change_password i h us u)

-- The facts that an accepted token rests on.
pub record IsVerified (x : Services) (w : World x.redis.Store) (now : ℕ) (token : x.Token)
    (type : TokenTypes) (d : TokenData) : Type 0 where
  pub claims : Claims
  pub decoded : x.decode now token ≡ some claims
  pub typed : claims.type ≡ some (value type)
  pub identified : claims.id ≡ some d.id
  pub numbered : claims.jti ≡ some d.jti
  pub scoped : d.scopes ≡ default [] claims.scopes
  pub versioned : d.token_version ≡ default 1 claims.token_version
  pub marked : d.is_impersonation ≡ default false claims.is_impersonation
  pub not_revoked : x.redis.get w.redis now (revocation_key type d.jti) ≡ none

-- The key of an accepted token is free.
unrevoked :
    (x : Services) (w : World x.redis.Store) (now : ℕ) (token : x.Token) (type : TokenTypes)
    (d : TokenData) (w' : World x.redis.Store) (p : Claims)
    → x.decode now token ≡ some p
    → verify_token x now token (value type) w ≡ (ok d, w')
    → x.redis.get w.redis now (revocation_key type d.jti) ≡ none
unfolding verify_token
unrevoked x w now token access d w' p e h = ground (arith, e)
unrevoked x w now token refresh d w' p e h = ground (arith, e)
unrevoked x w now token sudo d w' p e h = ground (arith, e)

-- A token whose claims are known, verified.
verify_decoded :
    (x : Services) (w : World x.redis.Store) (now : ℕ) (token : x.Token) (type : TokenTypes)
    (d : TokenData) (w' : World x.redis.Store) (p : Claims)
    → x.decode now token ≡ some p
    → verify_token x now token (value type) w ≡ (ok d, w')
    → IsVerified x w now token type d × (w' ≡ w)
unfolding verify_token
verify_decoded x w now token type d w' p e h = (
  record {
    claims = p;
    decoded = e;
    typed = ground (arith, e, eq_iff d.type (value type));
    identified = ground (arith, e);
    numbered = ground (arith, e);
    scoped = ground (arith, e);
    versioned = ground (arith, e);
    marked = ground (arith, e);
    not_revoked = unrevoked x w now token type d w' p e h;
  },
  ground (arith, e),
)

module _ (x : Services) (w : World x.redis.Store) where
  -- The facts that a request which passes the check rests on.
  pub record IsAuthorised (now : ℕ) (scopes : List String) (token : x.Token) (u : User)
      : Type 0 where
    pub td : TokenData
    pub verified : IsVerified x w now token access td
    pub known : get_by_id w td.id ≡ some u
    pub current : u.token_version ≡ td.token_version
    pub permitted : all (λ s. str_mem s td.scopes) scopes ≡ true

  -- What `verify_token` has checked when it returns; it changes nothing.
  pub verify_token-IsVerified :
      (now : ℕ) (token : x.Token) (type : TokenTypes) (d : TokenData) (w' : World x.redis.Store)
      → verify_token x now token (value type) w ≡ (ok d, w')
      → IsVerified x w now token type d × (w' ≡ w)
  unfolding verify_token
  verify_token-IsVerified now token type d w' h = elim (Option-cases (x.decode now token)) [
    | inl e ↦ absurd (ground (arith, e))
    | inr (p, e) ↦ verify_decoded x w now token type d w' p e h
  ]

  -- A request is let in only with a token that decodes, is an access token, is not revoked, carries
  -- every scope that the endpoint requires and the version that its user has now; only the two
  -- context variables change.
  pub get_current_user-IsAuthorised :
      (now : ℕ) (scopes : List String) (token : x.Token) (u : User) (w' : World x.redis.Store)
      → get_current_user x now scopes token w ≡ (ok u, w')
      → IsAuthorised now scopes token u
        × (w' ≡ record w {
          current_actor = some u.id;
          current_impersonator = w'.current_impersonator;
        })
  unfolding get_current_user get_user_by_id
  get_current_user-IsAuthorised now scopes token u w' h =
      let (d, w₁, verified, rest) = >>=-ok (verify_token x now token "access") _ w w' u h in
      let (v, same) = verify_token-IsVerified now token access d w₁ verified in
      let rest' = rw same at rest in
      (
        record {
          td = d;
          verified = v;
          known = ground (arith, rest');
          current = ground (arith, rest');
          permitted = ground (arith, rest');
        },
        ground (arith, rest'),
      )

pub users-update_password :
    (x : Services) (i : ℕ) (password : String) (w : World x.redis.Store)
    → (update_password x i password w).1.users ≡ map (change_password i (x.hashpw password)) w.users
unfolding update_password
users-update_password x i password w = ground arith

id-get_by_id : {S : Type 0} (w : World S) (i : ℕ) (u : User) → get_by_id w i ≡ some u → i ≡ u.id
unfolding get_by_id
id-get_by_id w i u e = ground (arith, find_sound (λ r. r.id == i) w.users u e)

-- The version that a user has after a change of password.
version_after :
    (x : Services) (i : ℕ) (password : String) (w : World x.redis.Store) (u v : User)
    → get_by_id w i ≡ some u
    → get_by_id (update_password x i password w).1 i ≡ some v
    → v.token_version ≡ u.token_version + 1
unfolding get_by_id
version_after x i password w u v before after = ground (
  arith,
  rw users-update_password at after,
  user_by_id-change_password i (x.hashpw password) w.users u before,
  id-get_by_id w i u before,
)

-- A token that let user `u` in is refused by a state in which the user has another version.
pub get_current_user-outdated :
    (x : Services) (w s w' : World x.redis.Store) (now later : ℕ) (token : x.Token)
    (scopes scopes' : List String) (u v : User)
    → ((n : User) → get_by_id s u.id ≡ some n → n.token_version ≡ u.token_version + 1)
    → get_current_user x now scopes token w ≡ (ok u, w')
    → (get_current_user x later scopes' token s).0 ≢ ok v
get_current_user-outdated x w s w' now later token scopes scopes' u v newer before after =
    let (a, _) = get_current_user-IsAuthorised x w now scopes token u w' before in
    let (b, _) = get_current_user-IsAuthorised x s later scopes' token v _ (ok_path _ v after) in
    let same = x.decode-stable now later token _ _ a.verified.decoded b.verified.decoded in
    let owner : a.td.id ≡ u.id = ground (arith, id-get_by_id w a.td.id u a.known) in
    let one_id : b.td.id ≡ u.id =
      ground (arith, a.verified.identified, b.verified.identified, same) in
    let version : v.token_version ≡ u.token_version + 1 = newer v (rw one_id at b.known) in
    ground (arith, version, same, a.current, b.current, a.verified.versioned, b.verified.versioned)

-- A user who is let in is the one that the table has.
pub get_current_user-known :
    (x : Services) (w w' : World x.redis.Store) (now : ℕ) (token : x.Token) (scopes : List String)
    (u : User)
    → get_current_user x now scopes token w ≡ (ok u, w')
    → get_by_id w u.id ≡ some u
get_current_user-known x w w' now token scopes u h =
    let (a, _) = get_current_user-IsAuthorised x w now scopes token u w' h in
    let owner : a.td.id ≡ u.id = ground (arith, id-get_by_id w a.td.id u a.known) in
    rw owner at a.known

-- A token that let user `u` in is refused at every time after `u` changes the password, whatever
-- the endpoint requires.
pub update_password-logs_out :
    (x : Services) (w w' : World x.redis.Store) (now later : ℕ) (token : x.Token)
    (scopes scopes' : List String) (u v : User) (password : String)
    → get_current_user x now scopes token w ≡ (ok u, w')
    → (get_current_user x later scopes' token (update_password x u.id password w).1).0 ≢ ok v
update_password-logs_out x w w' now later token scopes scopes' u v password before =
    get_current_user-outdated x w (update_password x u.id password w).1 w' now later token scopes
      scopes' u v
      (λ n.
        version_after x u.id password w u n
          (get_current_user-known x w w' now token scopes u before))
      before
