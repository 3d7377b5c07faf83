-- ===== src/Roles/Service.antt =====
-- api/apps/user/v0/service/role.py
use fastapi_asyncpg_template.Roles.Dao as RoleDao
use fastapi_asyncpg_template.Base.{
  ℕ, String, Bool, not, Option, some, none, truthy, ◌==◌, ◌&&◌, is_some, if◌then◌else◌, false,
}
use fastapi_asyncpg_template.Base.Http.{
  ok, err, http, Raised, Handler, raise_if, or_raise, ◌>>=◌, ◌>>◌, modify, gets,
}
use fastapi_asyncpg_template.Roles.World.{RoleData, Tables, RoleCreate, RoleUpdate, RoleServices}

abbrev pub role_not_found : Raised
role_not_found = http 404 "role.not_found"

abbrev pub role_exists : Raised
role_exists = http 400 "role.exists"

abbrev pub is_other : ℕ → Option RoleData → Bool
is_other i none = false
is_other i (some r) = not (r.id == i)

module _ (x : RoleServices) {S : Type 0} where
  -- `get_role_by_id`
  unfoldable pub get_role_by_id : (now : ℕ) → ℕ → Handler (Tables S x.hash.Store) RoleData
  get_role_by_id now i t =
      let (r, t') = RoleDao.get_role_by_id x now i t in or_raise r role_not_found t'

  -- `create_role`
  unfoldable pub create_role : (now id : ℕ) → RoleCreate → Handler (Tables S x.hash.Store) RoleData
  create_role now id c t =
      if is_some (RoleDao.get_role_by_name x c.name t)
      then (err role_exists, t)
      else (let (r, t') = RoleDao.create_role x now id c t in (ok r, t'))

  -- `if role_update.name: …`, the check for another role of that name.
  abbrev pub name_taken : ℕ → Option String → Tables S x.hash.Store → Bool
  name_taken i none t = false
  name_taken i (some n) t = truthy n && is_other i (RoleDao.get_role_by_name x n t)

  -- `update_role`
  unfoldable pub update_role : (now : ℕ) → ℕ → RoleUpdate → Handler (Tables S x.hash.Store) RoleData
  update_role now i c = do
    existing ← get_role_by_id now i
    taken ← gets (name_taken i c.name)
    raise_if taken role_exists
    λ (t : Tables S x.hash.Store).
        let (r, t') = RoleDao.update_role x now i c t in or_raise r role_not_found t'

  -- `delete_role`
  unfoldable pub delete_role : (now : ℕ) → ℕ → Handler (Tables S x.hash.Store) (Unit {0})
  delete_role now i = do existing ← get_role_by_id now i; modify (RoleDao.delete_role x i)
