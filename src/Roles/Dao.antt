-- ===== src/Roles/Dao.antt =====
-- api/apps/user/v0/dao/role.py: the operations by id and name, with their decorators.
use fastapi_asyncpg_template.Base.{
  ℕ, ◌+◌, String, not, Option, some, none, List, ◌∷◌, map, keep, find, nat_mem, length, str_eq,
  ◌==◌, is_some, if◌then◌else◌, ◌||◌,
}
use fastapi_asyncpg_template.Auth.World.{User}
use fastapi_asyncpg_template.Cache.{cached_in_hash}
use fastapi_asyncpg_template.Roles.World.{
  RoleData, field_by_id, role_json, Tables, has_role, RoleCreate, RoleUpdate, RoleServices,
}

abbrev pub role_by_id : ℕ → List RoleData → Option RoleData
role_by_id i = find (λ r. r.id == i)

-- UPDATE users SET token_version = token_version + 1 for those who have the role.
abbrev pub bumped : List (ℕ × ℕ) → ℕ → User → User
bumped user_roles i u =
    if has_role u.id i user_roles then record u { token_version = u.token_version + 1 } else u

-- The two statements of `update_role` on one row.
unfoldable pub updated_role : (now : ℕ) → RoleUpdate → RoleData → RoleData
updated_role now c r =
    let changed = is_some c.name || is_some c.description in
    record r {
      name = elim c.name [ none ↦ r.name | some n ↦ n ];
      description = elim c.description [ none ↦ r.description | some d ↦ some d ];
      updated_at = if changed then now else r.updated_at;
      permission_ids = elim c.permission_ids [ none ↦ r.permission_ids | some is ↦ is ];
    }

module _ (x : RoleServices) where
  -- The roles that `_get_user_with_roles` joins to a user.
  abbrev pub joined : List RoleData → List (ℕ × ℕ) → User → User
  joined roles user_roles u = record u {
    roles =
        map (λ r. record { name = r.name; permissions = map x.permission r.permission_ids })
          (keep (λ r. has_role u.id r.id user_roles) roles);
  }

  module _ {S : Type 0} where
    -- The tables with other roles, as the users' rows then show them.
    abbrev pub store_roles :
        List RoleData → List (ℕ × ℕ) → Tables S x.hash.Store → Tables S x.hash.Store
    store_roles roles user_roles t = record t {
      roles = roles;
      user_roles = user_roles;
      world = record t.world { users = map (joined roles user_roles) t.world.users };
    }

    abbrev pub bump_versions : ℕ → Tables S x.hash.Store → Tables S x.hash.Store
    bump_versions i t = record t {
      world = record t.world { users = map (bumped t.user_roles i) t.world.users };
    }

    -- `cache_invalidate` with `invalidate_hash`
    abbrev pub invalidate : Tables S x.hash.Store → Tables S x.hash.Store
    invalidate t = record t { cache = x.hash.delete t.cache }

    -- `get_role_by_id` with its decorator.
    unfoldable pub get_role_by_id :
        (now : ℕ) → ℕ → Tables S x.hash.Store → Option RoleData × Tables S x.hash.Store
    get_role_by_id now i t =
        let (r, cache) =
          cached_in_hash x.hash role_json now (field_by_id i) 3600 (role_by_id i t.roles) t.cache in
        (r, record t { cache = cache })

    -- `get_role_by_name`
    unfoldable pub get_role_by_name : String → Tables S x.hash.Store → Option RoleData
    get_role_by_name name t = find (λ r. str_eq r.name name) t.roles

    -- `create_role`; the database draws the id.
    unfoldable pub create_role :
        (now id : ℕ) → RoleCreate → Tables S x.hash.Store → RoleData × Tables S x.hash.Store
    create_role now id c t =
        let r : RoleData = record {
          id = id;
          name = c.name;
          description = c.description;
          permission_ids = c.permission_ids;
          created_at = now;
          updated_at = now;
        } in
        (r, invalidate (store_roles (r ∷ t.roles) t.user_roles t))

    -- `update_role`
    unfoldable pub update_role :
        (now : ℕ) → ℕ → RoleUpdate → Tables S x.hash.Store → Option RoleData × Tables S x.hash.Store
    update_role now i c t =
        let t1 =
          store_roles (map (λ r. if r.id == i then updated_role now c r else r) t.roles)
            t.user_roles t in
        let t2 = bump_versions i t1 in (role_by_id i t2.roles, invalidate t2)

    -- `delete_role`: the foreign keys delete what refers to the role.
    unfoldable pub delete_role : ℕ → Tables S x.hash.Store → Tables S x.hash.Store
    delete_role i t =
        let t1 = bump_versions i t in
        invalidate (
          store_roles (keep (λ r. not (r.id == i)) t1.roles)
            (keep (λ p. not (p.1 == i)) t1.user_roles) t1)

    -- `delete_roles`: the number of the deleted roles.
    unfoldable pub delete_roles : List ℕ → Tables S x.hash.Store → ℕ × Tables S x.hash.Store
    delete_roles is t = (
      length (keep (λ r. nat_mem r.id is) t.roles),
      invalidate (
          store_roles (keep (λ r. not (nat_mem r.id is)) t.roles)
            (keep (λ p. not (nat_mem p.1 is)) t.user_roles) t),
    )
