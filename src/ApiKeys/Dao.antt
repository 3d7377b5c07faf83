-- ===== src/ApiKeys/Dao.antt =====
-- api/apps/common/v0/dao/api_key.py over the list of the table's rows. The id is the primary key,
-- so a statement with `WHERE id = $1` has at most one row; the hash is UNIQUE.
use fastapi_asyncpg_template.Base.{
  coalesce, coalesce_null, ℕ, String, Bool, true, Option, some, none, List, [], ◌∷◌, str_eq, ◌==◌,
  ◌||◌, is_some, if◌then◌else◌, find, truthy, nat_mem, keep, length, not,
}
use fastapi_asyncpg_template.Base.Http.{Result, ok, err, error, Raised}
use fastapi_asyncpg_template.ApiKeys.World.{
  api_key_cache, ApiKey, Row, json, Keys, ApiKeyCreate, ApiKeyUpdate, Services,
}
use fastapi_asyncpg_template.Cache.{cached}
use fastapi_asyncpg_template.Pagination.Select.{select_page}

abbrev pub row_by_id : ℕ → List Row → Option Row
row_by_id i = find (λ r. r.info.id == i)

abbrev pub row_by_hash : String → List Row → Option Row
row_by_hash h = find (λ r. str_eq r.hashed_key h)

-- UPDATE api_keys SET … WHERE id = $1
abbrev pub update_row : ℕ → (Row → Row) → List Row → List Row
update_row i f [] = []
update_row i f (r ∷ rs) =
    let rest = update_row i f rs in if r.info.id == i then f r ∷ rs else r ∷ rest

-- DELETE FROM api_keys WHERE id = $1
abbrev pub remove_row : ℕ → List Row → List Row
remove_row i [] = []
remove_row i (r ∷ rs) = let rest = remove_row i rs in if r.info.id == i then rs else r ∷ rest

abbrev pub info_of : Option Row → Option ApiKey
info_of none = none
info_of (some r) = some r.info

-- The row of `create_api_key`: the columns that the statement names, and the defaults of the others.
abbrev pub new_row :
    (now id : ℕ) → (hashed_key prefix : String) → (created_by : Option ℕ) → ApiKeyCreate → Row
new_row now id hashed_key prefix created_by key_in = record {
  hashed_key = hashed_key;
  last_used_ip = none;
  info = record {
    id = id;
    created_by = created_by;
    name = key_in.name;
    prefix = prefix;
    scopes = key_in.scopes;
    rate_limit = key_in.rate_limit;
    expires_at = key_in.expires_at;
    last_used_at = none;
    is_active = true;
    created_at = now;
    updated_at = now;
  };
}

-- The statement of `update_api_key`.
abbrev pub updated_row : (now : ℕ) → ApiKeyUpdate → Row → Row
updated_row now u r = record r {
  info = record r.info {
    name = coalesce u.name r.info.name;
    scopes = coalesce u.scopes r.info.scopes;
    rate_limit = coalesce_null u.rate_limit r.info.rate_limit;
    expires_at = coalesce_null u.expires_at r.info.expires_at;
    is_active = coalesce u.is_active r.info.is_active;
    updated_at = now;
  };
}

-- The statement of `rotate_api_key`.
abbrev pub rotated_row : (now : ℕ) → (prefix hashed_key : String) → Row → Row
rotated_row now prefix hashed_key r = record r {
  hashed_key = hashed_key;
  info = record r.info { prefix = prefix; updated_at = now };
}

-- The statement of `update_last_used`; set_updated_at_if_exists of migrations/001_users.sql runs
-- before every UPDATE.
abbrev pub used_row : (now : ℕ) → (ip_address : Option String) → Row → Row
used_row now ip_address r = record r {
  last_used_ip = ip_address;
  info = record r.info { last_used_at = some now; updated_at = now };
}

abbrev pub unique_violation : Raised
unique_violation = error "UniqueViolationError"

-- `create_api_key`; the database draws the id.
unfoldable pub insert_row : Row → List Row → Result ApiKey × List Row
insert_row r rows =
    if is_some (row_by_id r.info.id rows) || is_some (row_by_hash r.hashed_key rows)
    then (err unique_violation, rows)
    else (ok r.info, r ∷ rows)

-- The statement of `update_api_key` with RETURNING.
unfoldable pub update_returning : ℕ → (Row → Row) → List Row → Option Row × List Row
update_returning i f rows = elim (row_by_id i rows) [
  | none ↦ (none, rows)
  | some r ↦ (some (f r), update_row i f rows)
]

-- The statement of `rotate_api_key` with RETURNING; another row may have the hash already.
unfoldable pub rotate_returning :
    (now : ℕ) → ℕ → (prefix hashed_key : String) → List Row → Result (Option Row) × List Row
rotate_returning now i prefix hashed_key rows = elim (row_by_id i rows) [
  | none ↦ (ok none, rows)
  | some r ↦ if is_some (row_by_hash hashed_key rows) then (err unique_violation, rows) else (
    ok (some (rotated_row now prefix hashed_key r)),
    update_row i (rotated_row now prefix hashed_key) rows,
  )
]

-- `delete_api_key`: whether the command tag counts a row.
unfoldable pub delete_row : ℕ → List Row → Bool × List Row
delete_row i rows = (is_some (row_by_id i rows), remove_row i rows)

abbrev pub cache_ttl : Option ℕ
cache_ttl = some 2592000

module _ (x : Services) where
  -- `get_api_key_by_hash` with its decorator.
  unfoldable pub get_api_key_by_hash :
      (now : ℕ) → String → Keys x.redis.Store → Option ApiKey × Keys x.redis.Store
  get_api_key_by_hash now h w =
      let (found, store) =
        cached x.redis json now (api_key_cache h) cache_ttl (info_of (row_by_hash h w.rows))
          w.redis in
      (found, record w { redis = store })

  unfoldable pub evict_all : List Row → x.redis.Store → x.redis.Store
  evict_all [] s = s
  evict_all (r ∷ rs) s =
      evict_all rs
        (if truthy r.hashed_key then x.redis.delete s (api_key_cache r.hashed_key) else s)

  -- `delete_api_keys`: the number of the deleted rows.
  unfoldable pub delete_api_keys : List ℕ → Keys x.redis.Store → ℕ × Keys x.redis.Store
  delete_api_keys [] w = (0, w)
  delete_api_keys (i ∷ is) w =
      let hit : Row → Bool = λ r. nat_mem r.info.id (i ∷ is) in
      let gone = keep hit w.rows in
      (
        length gone,
        record w { rows = keep (λ r. not (hit r)) w.rows; redis = evict_all gone w.redis },
      )

-- `list_api_keys`
unfoldable pub list_api_keys :
    (uuid : String → Option ℕ)
    → (limit : ℕ) → (cursor : Option String) → List Row
    → Result (List Row)
list_api_keys uuid limit cursor rows =
    select_page (λ r. r.info.id) uuid (λ r. true) (some limit) cursor 0 rows
