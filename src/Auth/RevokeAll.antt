-- ===== src/Auth/RevokeAll.antt =====
-- What `revoke_all_user_sessions` does to the access tokens of a user.
use fastapi_asyncpg_template.Base.{
  Bool-cases, inl, inr, here, there, subst, ℕ, zero, suc, ◌+◌, ◌-◌, ◌≤◌, ◌<◌, ◌≡◌, ◌≢◌, refl, ap,
  ◌∙◌, Bool, ◌==◌, some, List, [], ◌∷◌, keep, Any, Any-keep, arith, dec_lt,
}
use fastapi_asyncpg_template.Base.Http.{ok}
use fastapi_asyncpg_template.Base.Int.{ℤ, pos, negsuc, sub_ℕ}
use fastapi_asyncpg_template.Auth.Accounts.{
  blacklist, blacklist_all, delete_sessions, revoke_all_user_sessions,
}
use fastapi_asyncpg_template.Auth.Revoke.{verify_token-expired}
use fastapi_asyncpg_template.Auth.Service.{user_claims}
use fastapi_asyncpg_template.Auth.Tokens.{TokenData, create_token, verify_token, access}
use fastapi_asyncpg_template.Auth.Tokens.Verify.{verify_token-create_token}
use fastapi_asyncpg_template.Auth.World.{
  User, Session, World, Services, blacklist_access, blacklist_refresh, flag,
}

-- No session of the list has the number.
abbrev Without : ℕ → List Session → Type 0
Without jti [] = Unit {0}
Without jti (t ∷ ts) = (t.jti ≢ jti) × Without jti ts

-- Every session has its own number: user_sessions.jti is UNIQUE.
abbrev pub Numbered : List Session → Type 0
Numbered [] = Unit {0}
Numbered (t ∷ ts) = Without t.jti ts × Numbered ts

Without-keep :
    (f : Session → Bool) (k : ℕ) (ts : List Session) → Without k ts → Without k (keep f ts)
Without-keep f k [] n = tt
Without-keep f k (t ∷ ts) (n, ns) = elim (Bool-cases (f t)) [
  | inl y ↦ rw y (n, Without-keep f k ts ns)
  | inr o ↦ rw o (Without-keep f k ts ns)
]

Numbered-keep : (f : Session → Bool) (ts : List Session) → Numbered ts → Numbered (keep f ts)
Numbered-keep f [] n = tt
Numbered-keep f (t ∷ ts) (n, ns) = elim (Bool-cases (f t)) [
  | inl y ↦ rw y (Without-keep f t.jti ts n, Numbered-keep f ts ns)
  | inr o ↦ rw o (Numbered-keep f ts ns)
]

module _ (x : Services) where
  get-blacklist_other :
      (now jti later k : ℕ) (ttl : ℤ) (s : x.redis.Store)
      → jti ≢ k
      → now ≤ later
      → x.redis.get (blacklist x now jti ttl s) later (blacklist_access k)
        ≡ x.redis.get s later (blacklist_access k)
  get-blacklist_other now jti later k (pos zero) s ne p = refl
  get-blacklist_other now jti later k (negsuc n) s ne p = refl
  get-blacklist_other now jti later k (pos (suc n)) s ne p = ground (
    arith,
    x.redis.get-set (x.redis.set s now (blacklist_access jti) flag (suc n)) now
        (blacklist_refresh jti) flag (suc n) later (blacklist_access k) (omega arith) p,
    x.redis.get-set s now (blacklist_access jti) flag (suc n) later (blacklist_access k)
        (omega arith) p,
  )

  sub_ℕ-later : (now n : ℕ) → sub_ℕ (now + suc n) now ≡ pos (suc n)
  sub_ℕ-later now n = ground arith

  get-blacklist :
      (now jti later n : ℕ) (s : x.redis.Store)
      → now ≤ later
      → later < now + suc n
      → x.redis.get (blacklist x now jti (sub_ℕ (now + suc n) now) s) later (blacklist_access jti)
        ≡ some flag
  get-blacklist now jti later n s p l = rw (sub_ℕ-later now n) (
      ground (
        arith,
        x.redis.get-set (x.redis.set s now (blacklist_access jti) flag (suc n)) now
            (blacklist_refresh jti) flag (suc n) later (blacklist_access jti) (omega arith) p,
        x.redis.get-set s now (blacklist_access jti) flag (suc n) later (blacklist_access jti)
            (omega arith) p,
      ))

  get-blacklist_all :
      (now later k : ℕ) (ts : List Session) (s : x.redis.Store)
      → Without k ts
      → now ≤ later
      → x.redis.get (blacklist_all x now ts s) later (blacklist_access k)
        ≡ x.redis.get s later (blacklist_access k)
  unfolding blacklist_all
  get-blacklist_all now later k [] s n p = refl
  get-blacklist_all now later k (t ∷ ts) s (n, ns) p =
      get-blacklist_all now later k ts (blacklist x now t.jti (sub_ℕ t.expires_at now) s) ns p
      ∙ get-blacklist_other now t.jti later k (sub_ℕ t.expires_at now) s n p

  get-blacklist_all_of :
      (now later n : ℕ) (k : Session) (ts : List Session) (s : x.redis.Store)
      → Any (λ t. t ≡ k) ts
      → Numbered ts
      → k.expires_at ≡ now + suc n
      → now ≤ later
      → later < now + suc n
      → x.redis.get (blacklist_all x now ts s) later (blacklist_access k.jti) ≡ some flag
  unfolding blacklist_all
  get-blacklist_all_of now later n k [] s a d e p l = elim a [ ]
  get-blacklist_all_of now later n k (t ∷ ts) s (there a) (o, d) e p l =
      get-blacklist_all_of now later n k ts (blacklist x now t.jti (sub_ℕ t.expires_at now) s) a d e
        p l
  get-blacklist_all_of now later n k (t ∷ ts) s (here q) (o, d) e p l =
      ap
        (λ (u : Session).
          x.redis.get (blacklist_all x now ts (blacklist x now u.jti (sub_ℕ u.expires_at now) s))
            later (blacklist_access k.jti))
        q
      ∙ get-blacklist_all now later k.jti ts _ (subst (λ (u : Session). Without u.jti ts) q o) p
      ∙ ap (λ m. x.redis.get (blacklist x now k.jti (sub_ℕ m now) s) later (blacklist_access k.jti))
          e
      ∙ get-blacklist now k.jti later n s p l

  -- A session in the table and an access token of its user that was issued with its number and its
  -- time: after all sessions of the user are revoked, the token is refused at every later time.
  pub revoke_all_user_sessions-rejects :
      (w : World x.redis.Store) (u : User) (s : Session) (now later : ℕ) (d : TokenData)
      → Any (λ t. t ≡ s) w.sessions
      → Numbered w.sessions
      → s.user_id ≡ u.id
      → now ≤ later
      → (verify_token x later
          (create_token x (user_claims u) s.expires_at "access" s.jti).token
          "access"
          (revoke_all_user_sessions x u.id now w)).0
        ≢ ok d
  unfolding revoke_all_user_sessions delete_sessions
  revoke_all_user_sessions-rejects w u s now later d a n o p e =
      let after = revoke_all_user_sessions x u.id now w in
      elim (dec_lt later s.expires_at) [
        | no gone ↦ ground (
          arith,
          e,
          verify_token-expired x after (user_claims u) s.expires_at s.jti later "access"
              (omega arith),
        )
        | yes alive ↦ ground (
          arith,
          e,
          verify_token-create_token x after (user_claims u) u.username u.id s.expires_at s.jti later
              access access refl refl alive,
          get-blacklist_all_of now later (s.expires_at - now - 1) s
              (keep (λ t. t.user_id == u.id) w.sessions) w.redis
              (Any-keep (λ t. t.user_id == u.id)
                (λ t q. ap (λ v. v.user_id == u.id) q ∙ ground arith) w.sessions a)
              (Numbered-keep (λ t. t.user_id == u.id) w.sessions n) (omega arith) p (omega arith),
        )
      ]
