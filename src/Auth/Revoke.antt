-- ===== src/Auth/Revoke.antt =====
-- What `revoke_session` does to the two tokens that a sign-in issued.
use fastapi_asyncpg_template.Base.{
  false, dec_lt, ◌≢◌, String, ◌*◌, ◌≤◌, ◌<◌, refl, any, [], ◌∷◌, if◌then◌else◌, ◌++◌, arith, map,
  none, some, suc, not, ◌+◌, find, keep, ◌≡◌, List, ℕ,
}
use fastapi_asyncpg_template.Base.Http.{err, ok}
use fastapi_asyncpg_template.Base.Int.{pos}
use fastapi_asyncpg_template.Auth.Service.{
  check_mfa_enforcement, refresh_token, new_session, user_claims, issue_tokens_and_session, Request,
  revoke_session,
}
use fastapi_asyncpg_template.Auth.Tokens.{
  refresh, token_data, create_refresh_token, access, invalid_credentials, TokenData,
  create_access_token, create_token, verify_token,
}
use fastapi_asyncpg_template.Auth.Tokens.Verify.{verify_token-create_token}
use fastapi_asyncpg_template.Auth.Users.{get_by_id, conflicts, ttl_of, owns, upsert_user_session}
use fastapi_asyncpg_template.Auth.World.{
  Claims, User, blacklist_refresh, flag, blacklist_access, World, Session, Services,
}

-- The world after a session with `ttl` seconds left is revoked.
abbrev pub revoked_world :
    (x : Services) (i jti now ttl : ℕ) → World x.redis.Store → World x.redis.Store
revoked_world x i jti now ttl w = record w {
  sessions = keep (λ t. not (owns i jti t)) w.sessions;
  redis =
      x.redis.set (x.redis.set w.redis now (blacklist_access jti) flag ttl) now
        (blacklist_refresh jti) flag ttl;
}

ttl_of-some :
    (now left : ℕ) (s : Session)
    → s.expires_at ≡ now + suc left
    → ttl_of now (some s) ≡ some (pos (suc left))
ttl_of-some now left s e = ground arith

-- Revoking a session that has not ended deletes it and refuses its `jti` for the time left.
pub revoke_session_lem :
    (x : Services) (w : World x.redis.Store) (i jti now left : ℕ) (s : Session)
    → find (owns i jti) w.sessions ≡ some s
    → s.expires_at ≡ now + suc left
    → revoke_session x i jti now w ≡ (ok tt, revoked_world x i jti now (suc left) w)
unfolding revoke_session
revoke_session_lem x w i jti now left s e h = ground (arith, e, ttl_of-some now left s h)

-- The session of a new `jti` is found after it was stored.
pub find-upsert :
    (new : Session) (ss : List Session)
    → find (owns new.user_id new.jti) ss ≡ none
    → find (owns new.user_id new.jti) (map (λ old. if conflicts new old then new else old) ss)
      ≡ (if any (conflicts new) ss then some new else none)
find-upsert new [] e = refl
find-upsert new (s ∷ ss) e = ground (arith, find-upsert new ss)

find-append :
    (new : Session) (ss : List Session)
    → find (owns new.user_id new.jti) ss ≡ none
    → find (owns new.user_id new.jti) (ss ++ new ∷ []) ≡ some new
find-append new [] e = ground arith
find-append new (s ∷ ss) e = ground (arith, find-append new ss)

pub find-upsert_user_session :
    {S : Type 0} (new : Session) (w : World S)
    → find (owns new.user_id new.jti) w.sessions ≡ none
    → find (owns new.user_id new.jti) (upsert_user_session new w).sessions ≡ some new
unfolding upsert_user_session
find-upsert_user_session new w e =
    ground (arith, find-upsert new w.sessions e, find-append new w.sessions e)

-- An access token of a user, once it has expired, is refused.
pub verify_token-expired :
    (x : Services) (w : World x.redis.Store) (c : Claims) (expire jti later : ℕ) (type : String)
    → expire ≤ later
    → verify_token x later (create_token x c expire "access" jti).token type w
      ≡ (err invalid_credentials, w)
unfolding verify_token create_token
verify_token-expired x w c expire jti later type h = ground (
  arith,
  x.decode-expired later expire
      (record c { exp = some expire; jti = some jti; type = some "access" }) refl h,
)

-- The keys of a revoked session while it lasts.
get-revoked_world :
    (x : Services) (i jti now ttl later : ℕ) (w : World x.redis.Store)
    → 0 < ttl
    → now ≤ later
    → later < now + ttl
    → x.redis.get (revoked_world x i jti now ttl w).redis later (blacklist_access jti) ≡ some flag
get-revoked_world x i jti now ttl later w p h l = ground (
  arith,
  x.redis.get-set (x.redis.set w.redis now (blacklist_access jti) flag ttl) now
      (blacklist_refresh jti) flag ttl later (blacklist_access jti) p h,
  x.redis.get-set w.redis now (blacklist_access jti) flag ttl later (blacklist_access jti) p h,
)

-- A refresh token that is alive signs its user in.
pub refresh_token_lem :
    (x : Services) (w : World x.redis.Store) (u : User) (r : Request) (t₀ later jti k k' : ℕ)
    → later < t₀ + x.settings.refresh_token_expire_days * 86400
    → x.redis.get w.redis later (blacklist_refresh jti) ≡ none
    → get_by_id w u.id ≡ some u
    → w.enforce_mfa ≡ false
    → refresh_token x (create_refresh_token x (user_claims u) t₀ jti) later r k k' w
      ≡ issue_tokens_and_session x u later r k k' w
unfolding refresh_token create_refresh_token check_mfa_enforcement token_data
refresh_token_lem x w u r t₀ later jti k k' l kept known policy = ground (
  arith,
  verify_token-create_token x w (user_claims u) u.username u.id
      (t₀ + x.settings.refresh_token_expire_days * 86400) jti later refresh refresh refl refl l,
)

-- Another number is not revoked with it.
get-revoked_world_ne :
    (x : Services) (i jti jti' now ttl later : ℕ) (w : World x.redis.Store)
    → 0 < ttl
    → now ≤ later
    → jti ≢ jti'
    → x.redis.get (revoked_world x i jti now ttl w).redis later (blacklist_refresh jti')
      ≡ x.redis.get w.redis later (blacklist_refresh jti')
get-revoked_world_ne x i jti jti' now ttl later w p h ne = ground (
  arith,
  x.redis.get-set (x.redis.set w.redis now (blacklist_access jti) flag ttl) now
      (blacklist_refresh jti) flag ttl later (blacklist_refresh jti') p h,
  x.redis.get-set w.redis now (blacklist_access jti) flag ttl later (blacklist_refresh jti') p h,
)

-- Signing in changes the sessions alone.
pub frame-issue :
    (x : Services) (w : World x.redis.Store) (u : User) (r : Request) (now jti jti' : ℕ)
    → (issue_tokens_and_session x u now r jti jti' w).1
      ≡ record w { sessions = (issue_tokens_and_session x u now r jti jti' w).1.sessions }
unfolding issue_tokens_and_session upsert_user_session
frame-issue x w u r now jti jti' = refl

module _ (x : Services) (w : World x.redis.Store) (u : User) (r : Request) (t₀ jti jti' : ℕ)
    (fresh : find (owns u.id jti) w.sessions ≡ none) where
  -- The world after `u` has signed in at `t₀`, and the tokens.
  abbrev pub signed_in : World x.redis.Store
  signed_in = (issue_tokens_and_session x u t₀ r jti jti' w).1

  abbrev pub access_token : x.Token
  access_token = (create_access_token x (user_claims u) t₀ jti).token

  abbrev pub expires_at : ℕ
  expires_at = t₀ + x.settings.access_token_expire_minutes * 60

  session_found :
      find (owns u.id jti) signed_in.sessions
      ≡ some (new_session u (create_access_token x (user_claims u) t₀ jti) t₀ r)
  unfolding issue_tokens_and_session create_access_token
  session_found =
      find-upsert_user_session (new_session u (create_access_token x (user_claims u) t₀ jti) t₀ r) w
        fresh

  -- The revocation of a sign-in's session, while it lasts.
  revoked :
      (t left : ℕ)
      → expires_at ≡ t + suc left
      → revoke_session x u.id jti t signed_in
        ≡ (ok tt, revoked_world x u.id jti t (suc left) signed_in)
  unfolding create_access_token
  revoked t left h = revoke_session_lem x signed_in u.id jti t left _ session_found h

  -- After a user signs in and the session is revoked while it lasts, its access token is refused
  -- at every later time.
  pub revoke_session-rejects_access :
      (t left later : ℕ) (d : TokenData)
      → expires_at ≡ t + suc left
      → t ≤ later
      → (verify_token x later access_token "access" (revoke_session x u.id jti t signed_in).1).0
        ≢ ok d
  unfolding create_access_token
  revoke_session-rejects_access t left later d h p e =
      let after = revoked_world x u.id jti t (suc left) signed_in in
      let e' : (verify_token x later access_token "access" after).0 ≡ ok d =
        rw (revoked t left h) at e in
      elim (dec_lt later expires_at) [
        | yes alive ↦ ground (
          arith,
          e',
          verify_token-create_token x after (user_claims u) u.username u.id expires_at jti later
              access access refl refl alive,
          get-revoked_world x u.id jti t (suc left) later signed_in (omega arith) p (omega arith),
        )
        | no gone ↦ ground (
          arith,
          e',
          verify_token-expired x after (user_claims u) expires_at jti later "access" (omega arith),
        )
      ]

  -- After a user signs in and the session is revoked while it lasts, the refresh token of that
  -- sign-in is as good as before: until it expires it signs the same user in again, if its own
  -- number is not revoked and the policy on second factors lets the user in.
  refresh_survives_revocation :
      (t left later k k' : ℕ)
      → expires_at ≡ t + suc left
      → t ≤ later
      → later < t₀ + x.settings.refresh_token_expire_days * 86400
      → jti ≢ jti'
      → x.redis.get w.redis later (blacklist_refresh jti') ≡ none
      → get_by_id w u.id ≡ some u
      → w.enforce_mfa ≡ false
      → let after = (revoke_session x u.id jti t signed_in).1 in
        refresh_token x (create_refresh_token x (user_claims u) t₀ jti') later r k k' after
        ≡ issue_tokens_and_session x u later r k k' after
  unfolding get_by_id
  refresh_survives_revocation t left later k k' h p l ne kept known policy =
      let frame = frame-issue x w u r t₀ jti jti' in
      rw (revoked t left h) (
        refresh_token_lem x (revoked_world x u.id jti t (suc left) signed_in) u r t₀ later jti' k k'
          l
          (ground (
            arith,
            frame,
            get-revoked_world_ne x u.id jti jti' t (suc left) later signed_in (omega arith) p ne,
          ))
          (ground (arith, frame, known)) (ground (arith, frame)))
