-- ===== src/Roles/Assign.antt =====
-- `assign_roles` of api/apps/user/v0/dao/user.py and `assign_roles_to_user` of service/user.py.
use fastapi_asyncpg_template.Base.{
  ℕ, ◌+◌, ◌≡◌, ◌≢◌, refl, sym, ap, ◌∙◌, Bool, ◌&&◌, Option, none, some, List, [], ◌∷◌, ◌++◌, map,
  all, ◌==◌, String, find_sound, if◌then◌else◌, is_some, arith, Bool-cases, inl, inr,
}
use fastapi_asyncpg_template.Base.Http.{ok, err, error, Handler}
use fastapi_asyncpg_template.Auth.Access.{get_current_user-outdated, get_current_user-known}
use fastapi_asyncpg_template.Auth.Dependencies.{get_current_user}
use fastapi_asyncpg_template.Auth.Service.{publish}
use fastapi_asyncpg_template.Auth.Users.{get_by_id, user_by_id}
use fastapi_asyncpg_template.Auth.World.{User, World, Services, user_role_assigned}
use fastapi_asyncpg_template.Roles.Dao.{joined, store_roles, role_by_id}
use fastapi_asyncpg_template.Roles.Tokens.{user_by_id-map, same_user}
use fastapi_asyncpg_template.Roles.World.{Tables, has_role, RoleServices}

-- INSERT INTO user_roles … ON CONFLICT DO NOTHING
unfoldable pub add_pairs : ℕ → List ℕ → List (ℕ × ℕ) → List (ℕ × ℕ)
add_pairs i [] pairs = pairs
add_pairs i (r ∷ rs) pairs =
    add_pairs i rs (if has_role i r pairs then pairs else pairs ++ (i, r) ∷ [])

-- UPDATE users SET token_version = token_version + 1 WHERE id = $1
abbrev pub next_version : ℕ → User → User
next_version i u = if u.id == i then record u { token_version = u.token_version + 1 } else u

next_version-id : (i : ℕ) (u : User) → (next_version i u).id ≡ u.id
next_version-id i u = ground arith

next_version_of :
    (i : ℕ) (us : List User) (u : User)
    → user_by_id us i ≡ some u
    → (next_version i u).token_version ≡ u.token_version + 1
next_version_of i us u e = ground (arith, find_sound (λ v. v.id == i) us u e)

module _ (x : RoleServices) {S : Type 0} where
  -- The rows that user_roles refers to are there.
  abbrev pub referred : ℕ → List ℕ → Tables S x.hash.Store → Bool
  referred i rs t =
      is_some (user_by_id t.world.users i) && all (λ r. is_some (role_by_id r t.roles)) rs

  abbrev pub bump_user : ℕ → Tables S x.hash.Store → Tables S x.hash.Store
  bump_user i t = record t { world = record t.world { users = map (next_version i) t.world.users } }

  abbrev pub announce : ℕ → List ℕ → Option User → Tables S x.hash.Store → Tables S x.hash.Store
  announce i rs none t = t
  announce i rs (some u) t = record t { world = publish (user_role_assigned i rs) t.world }

  -- `assign_roles`. The two statements are sent together: one that fails does not undo the other.
  unfoldable pub assign_roles : ℕ → List ℕ → Handler (Tables S x.hash.Store) (Unit {0})
  assign_roles i [] t = (ok tt, t)
  assign_roles i (r ∷ rs) t =
      let t' = bump_user i t in
      if referred i (r ∷ rs) t
      then (
        ok tt,
        announce i (r ∷ rs) (user_by_id t'.world.users i)
            (store_roles x t.roles (add_pairs i (r ∷ rs) t.user_roles) t'),
      )
      else (err (error "ForeignKeyViolationError"), t')

  users-announce :
      (i : ℕ) (rs : List ℕ) (u : Option User) (t : Tables S x.hash.Store)
      → (announce i rs u t).world.users ≡ t.world.users
  users-announce i rs none t = refl
  users-announce i rs (some u) t = refl

  -- What the table says of the user afterwards.
  assigned_version :
      (r : ℕ) (rs : List ℕ) (t : Tables S x.hash.Store) (u n : User)
      → user_by_id t.world.users u.id ≡ some u
      → user_by_id (assign_roles u.id (r ∷ rs) t).1.world.users u.id ≡ some n
      → n.token_version ≡ u.token_version + 1
  unfolding assign_roles
  assigned_version r rs t u n e e' =
      let first =
        user_by_id-map (next_version u.id) u.id t.world.users u (next_version-id u.id) e in
      elim (Bool-cases (referred u.id (r ∷ rs) t)) [
        | inr no_row ↦
            ap (λ (m : User). m.token_version)
              (same_user _ (next_version u.id u) n first (rw no_row at e'))
            ∙ next_version_of u.id t.world.users u e
        | inl y ↦
            let pairs = add_pairs u.id (r ∷ rs) t.user_roles in
            let there =
              user_by_id-map (joined x t.roles pairs) u.id (map (next_version u.id) t.world.users)
                (next_version u.id u) (λ v. refl) first in
            let found = rw y at e' in
            ap (λ (m : User). m.token_version)
              (same_user _ (joined x t.roles pairs (next_version u.id u)) n there
                (ap (λ us. user_by_id us u.id) (sym (users-announce u.id (r ∷ rs) _ _)) ∙ found))
            ∙ next_version_of u.id t.world.users u e
      ]

-- A token that let a user in is refused at every time after roles were assigned to that user, at
-- least one, whether or not the assignment succeeds and whatever the endpoint requires.
pub assign_roles-logs_out :
    (x : Services) (r : RoleServices) (t : Tables x.redis.Store r.hash.Store)
    (w' : World x.redis.Store) (k : ℕ) (ks : List ℕ) (before later : ℕ) (token : x.Token)
    (scopes scopes' : List String) (u v : User)
    → get_current_user x before scopes token t.world ≡ (ok u, w')
    → (get_current_user x later scopes' token (assign_roles r u.id (k ∷ ks) t).1.world).0 ≢ ok v
unfolding get_by_id
assign_roles-logs_out x r t w' k ks before later token scopes scopes' u v e =
    get_current_user-outdated x t.world (assign_roles r u.id (k ∷ ks) t).1.world w' before later
      token scopes scopes' u v
      (λ n.
        assigned_version r k ks t u n (get_current_user-known x t.world w' before token scopes u e))
      e
