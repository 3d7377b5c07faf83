-- ===== src/ApiKeys/Service.antt =====
-- api/apps/common/v0/service/api_key.py, and the dependency `get_api_key`.
use fastapi_asyncpg_template.Base.{
  ℕ, String, Bool, false, not, Option, some, none, List, [], ◌∷◌, ltb, truthy, str_mem,
  if◌then◌else◌,
}
use fastapi_asyncpg_template.Base.Http.{
  Result, ok, err, http, Raised, Handler, pure, modify, or_raise, raise_if, lift, ◌>>=◌, ◌>>◌,
}
use fastapi_asyncpg_template.ApiKeys.Dao.{
  row_by_id, update_row, new_row, updated_row, used_row, insert_row, update_returning,
  rotate_returning, delete_row, get_api_key_by_hash,
}
use fastapi_asyncpg_template.ApiKeys.World.{
  api_key_cache, last_used_lock, one, ApiKey, Row, Keys, ApiKeyCreate, ApiKeyUpdate, Services,
}

abbrev pub not_found : Raised
not_found = http 404 "API Key not found."

abbrev pub missing : Raised
missing = http 401 "Missing API Key header (X-API-Key)"

abbrev pub expired : (now : ℕ) → ApiKey → Bool
expired now d = elim d.expires_at [ none ↦ false | some e ↦ ltb e now ]

-- The loop over `security_scopes.scopes`.
abbrev pub check_scopes : (scopes granted : List String) → Result (Unit {0})
check_scopes [] granted = ok tt
check_scopes (s ∷ ss) granted =
    if str_mem s granted then check_scopes ss granted else err (http 403 "Not enough permissions")

-- `api_key_data.created_by or api_key_data.id`
abbrev pub actor_of : ApiKey → ℕ
actor_of d = elim d.created_by [ none ↦ d.id | some i ↦ i ]

module _ (x : Services) where
  -- The throttled update of `verify_api_key`.
  unfoldable pub record_use :
      (now : ℕ) → ℕ → (ip_address : Option String) → Keys x.redis.Store → Keys x.redis.Store
  record_use now i ip_address w =
      let (acquired, store) = x.redis.set_nx w.redis now (last_used_lock i) one 300 in
      record w {
        redis = store;
        rows = if acquired then update_row i (used_row now ip_address) w.rows else w.rows;
      }

  -- `verify_api_key`, once the key is looked up.
  unfoldable pub check_key :
      (now : ℕ)
      → (ip_address : Option String) → Option ApiKey
      → Keys x.redis.Store
      → Option ApiKey × Keys x.redis.Store
  check_key now ip_address none w = (none, w)
  check_key now ip_address (some d) w =
      if not d.is_active
      then (none, w)
      else (if expired now d then (none, w) else (some d, record_use now d.id ip_address w))

  -- `verify_api_key`
  unfoldable pub verify_api_key :
      (now : ℕ)
      → (raw_key : String) → (ip_address : Option String) → Keys x.redis.Store
      → Option ApiKey × Keys x.redis.Store
  verify_api_key now raw_key ip_address w =
      if not (truthy raw_key)
      then (none, w)
      else (let (found, w') = get_api_key_by_hash x now (x.sha256 raw_key) w in
          check_key now ip_address found w')

  -- `get_api_key` of the dependencies, once the key is verified.
  unfoldable pub grant_key :
      (scopes : List String) → Option ApiKey → Handler (Keys x.redis.Store) ApiKey
  grant_key scopes none w = (err (http 401 "Invalid, expired, or inactive API key"), w)
  grant_key scopes (some d) w = elim (check_scopes scopes d.scopes) [
    | err e ↦ (err e, w)
    | ok u ↦ (ok d, record w { current_actor = some (actor_of d) })
  ]

  -- `get_api_key` of the dependencies.
  unfoldable pub authorize :
      (now : ℕ)
      → (scopes : List String) → (raw_key : Option String) → Handler (Keys x.redis.Store) ApiKey
  authorize now scopes none w = (err missing, w)
  authorize now scopes (some raw_key) w =
      if not (truthy raw_key)
      then (err missing, w)
      else (let (found, w') = verify_api_key now raw_key none w in grant_key scopes found w')

  -- `create_api_key`: the raw key that `generate_api_key` draws, and the id that the database draws.
  unfoldable pub create_api_key :
      (now id : ℕ)
      → (raw_key : String) → ApiKeyCreate
      → (created_by : Option ℕ) → Handler (Keys x.redis.Store) ApiKey
  create_api_key now id raw_key key_in created_by w =
      let (r, rows) =
        insert_row (new_row now id (x.sha256 raw_key) (x.first_16 raw_key) created_by key_in)
          w.rows in
      (r, record w { rows = rows })

  -- `get_api_key`
  unfoldable pub get_api_key : ℕ → Handler (Keys x.redis.Store) Row
  get_api_key i w = or_raise (row_by_id i w.rows) not_found w

  -- `_evict_cache`
  unfoldable pub evict_cache : String → Keys x.redis.Store → Keys x.redis.Store
  evict_cache h w =
      if truthy h then record w { redis = x.redis.delete w.redis (api_key_cache h) } else w

  -- `update_api_key`
  unfoldable pub update_api_key : (now : ℕ) → ℕ → ApiKeyUpdate → Handler (Keys x.redis.Store) ApiKey
  update_api_key now i u = do
    existing ← get_api_key i
    updated ← λ (w : Keys x.redis.Store).
        let (r, rows) = update_returning i (updated_row now u) w.rows in
        or_raise r not_found (record w { rows = rows })
    modify (evict_cache existing.hashed_key)
    pure updated.info

  -- `rotate_api_key`
  unfoldable pub rotate_api_key :
      (now : ℕ) → ℕ → (raw_key : String) → Handler (Keys x.redis.Store) ApiKey
  rotate_api_key now i raw_key = do
    existing ← get_api_key i
    found ← λ (w : Keys x.redis.Store).
        let (r, rows) = rotate_returning now i (x.first_16 raw_key) (x.sha256 raw_key) w.rows in
        lift r (record w { rows = rows })
    updated ← or_raise found (http 404 "Failed to rotate API Key.")
    modify (evict_cache existing.hashed_key)
    pure updated.info

  -- `delete_api_key`
  unfoldable pub delete_api_key : ℕ → Handler (Keys x.redis.Store) (Unit {0})
  delete_api_key i = do
    existing ← get_api_key i
    deleted ← λ (w : Keys x.redis.Store).
        let (b, rows) = delete_row i w.rows in (ok b, record w { rows = rows })
    raise_if (not deleted) (http 404 "Failed to delete API Key.")
    modify (evict_cache existing.hashed_key)
