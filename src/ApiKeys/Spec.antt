-- ===== src/ApiKeys/Spec.antt =====
-- What API keys promise, without a cache: every operation reads the table, and neither the use of a
-- key nor the time of its last change is recorded. The code's operations as one step, for comparison.
use fastapi_asyncpg_template.Base.{
  is_some, ℕ, String, not, Option, some, none, List, [], ◌∷◌, truthy, if◌then◌else◌, ◌&&◌, map,
}
use fastapi_asyncpg_template.Base.Http.{Result, ok, err, http}
use fastapi_asyncpg_template.ApiKeys.Dao.{
  row_by_id, row_by_hash, update_row, remove_row, new_row, updated_row, rotated_row, insert_row,
  info_of, unique_violation,
}
use fastapi_asyncpg_template.ApiKeys.Service.{
  not_found, expired, check_scopes, verify_api_key, authorize, create_api_key, update_api_key,
  rotate_api_key, delete_api_key,
}
use fastapi_asyncpg_template.ApiKeys.World.{ApiKey, Row, Keys, ApiKeyCreate, ApiKeyUpdate, Services}

-- The requests; ids and raw keys that are drawn stand as arguments.
pub data Op : Type 0 where
  create : ℕ → String → ApiKeyCreate → Option ℕ → Op
  verify : String → Option String → Op
  access : List String → Option String → Op
  update : ℕ → ApiKeyUpdate → Op
  rotate : ℕ → String → Op
  delete : ℕ → Op

abbrev pub Reply : Type 0
Reply = Result (Option ApiKey)

abbrev pub forget_info : ApiKey → ApiKey
forget_info a = record a { last_used_at = none; updated_at = 0 }

abbrev pub forget : Row → Row
forget r = record r { last_used_ip = none; info = forget_info r.info }

abbrev pub spec_updated : (now : ℕ) → ApiKeyUpdate → Row → Row
spec_updated now u r = forget (updated_row now u r)

abbrev pub spec_rotated : (now : ℕ) → (prefix hashed_key : String) → Row → Row
spec_rotated now prefix hashed_key r = forget (rotated_row now prefix hashed_key r)

abbrev pub forget_key : Option ApiKey → Option ApiKey
forget_key none = none
forget_key (some a) = some (forget_info a)

abbrev pub forget_reply : Reply → Reply
forget_reply (ok a) = ok (forget_key a)
forget_reply (err e) = err e

abbrev pub forget_replies : List Reply → List Reply
forget_replies = map forget_reply

abbrev pub reply_of : Result ApiKey → Reply
reply_of (ok a) = ok (some a)
reply_of (err e) = err e

abbrev pub reply_of_unit : Result (Unit {0}) → Reply
reply_of_unit (ok u) = ok none
reply_of_unit (err e) = err e

-- The key of a digest, if it is active and has not expired.
abbrev pub usable : (now : ℕ) → Option ApiKey → Option ApiKey
usable now none = none
usable now (some d) = if d.is_active && not (expired now d) then some d else none

abbrev pub grant : List String → Option ApiKey → Reply
grant scopes none = err (http 401 "Invalid, expired, or inactive API key")
grant scopes (some d) = elim (check_scopes scopes d.scopes) [ err e ↦ err e | ok u ↦ ok (some d) ]

module _ (x : Services) where
  unfoldable pub spec_verify : (now : ℕ) → String → List Row → Option ApiKey
  spec_verify now raw rows =
      if truthy raw then usable now (info_of (row_by_hash (x.sha256 raw) rows)) else none

  unfoldable pub spec_access : (now : ℕ) → List String → Option String → List Row → Reply
  spec_access now scopes none rows = err (http 401 "Missing API Key header (X-API-Key)")
  spec_access now scopes (some raw) rows =
      if truthy raw
      then grant scopes (spec_verify now raw rows)
      else err (http 401 "Missing API Key header (X-API-Key)")

  unfoldable pub spec_rotate : (now : ℕ) → ℕ → String → List Row → Reply × List Row
  spec_rotate now i raw rows = elim (row_by_id i rows) [
    | none ↦ (err not_found, rows)
    | some r ↦ if is_some (row_by_hash (x.sha256 raw) rows) then (err unique_violation, rows) else (
      ok (some (spec_rotated now (x.first_16 raw) (x.sha256 raw) r).info),
      update_row i (spec_rotated now (x.first_16 raw) (x.sha256 raw)) rows,
    )
  ]

  unfoldable pub spec_update : (now : ℕ) → ℕ → ApiKeyUpdate → List Row → Reply × List Row
  spec_update now i u rows = elim (row_by_id i rows) [
    | none ↦ (err not_found, rows)
    | some r ↦ (ok (some (spec_updated now u r).info), update_row i (spec_updated now u) rows)
  ]

  unfoldable pub spec_delete : ℕ → List Row → Reply × List Row
  spec_delete i rows = elim (row_by_id i rows) [
    | none ↦ (err not_found, rows)
    | some r ↦ (ok none, remove_row i rows)
  ]

  unfoldable pub spec_create :
      (now id : ℕ) → String → ApiKeyCreate → Option ℕ → List Row → Reply × List Row
  spec_create now id raw key_in created_by rows =
      let (r, t) =
        insert_row (forget (new_row now id (x.sha256 raw) (x.first_16 raw) created_by key_in))
          rows in
      (reply_of r, t)

  unfoldable pub spec_step : (now : ℕ) → Op → List Row → Reply × List Row
  spec_step now (create id raw key_in created_by) rows =
      spec_create now id raw key_in created_by rows
  spec_step now (verify raw ip) rows = (ok (spec_verify now raw rows), rows)
  spec_step now (access scopes raw) rows = (spec_access now scopes raw rows, rows)
  spec_step now (update i u) rows = spec_update now i u rows
  spec_step now (rotate i raw) rows = spec_rotate now i raw rows
  spec_step now (delete i) rows = spec_delete i rows

  unfoldable pub step : (now : ℕ) → Op → Keys x.redis.Store → Reply × Keys x.redis.Store
  step now (create id raw key_in created_by) w =
      let (r, w') = create_api_key x now id raw key_in created_by w in (reply_of r, w')
  step now (verify raw ip) w = let (a, w') = verify_api_key x now raw ip w in (ok a, w')
  step now (access scopes raw) w = let (r, w') = authorize x now scopes raw w in (reply_of r, w')
  step now (update i u) w = let (r, w') = update_api_key x now i u w in (reply_of r, w')
  step now (rotate i raw) w = let (r, w') = rotate_api_key x now i raw w in (reply_of r, w')
  step now (delete i) w = let (r, w') = delete_api_key x i w in (reply_of_unit r, w')

  -- The replies to requests, each at its time, and the state after them.
  unfoldable pub run : List (ℕ × Op) → Keys x.redis.Store → List Reply × Keys x.redis.Store
  run [] w = ([], w)
  run ((now, op) ∷ ops) w = let (r, w1) = step now op w in let (rs, w2) = run ops w1 in (r ∷ rs, w2)

  unfoldable pub spec_run : List (ℕ × Op) → List Row → List Reply × List Row
  spec_run [] rows = ([], rows)
  spec_run ((now, op) ∷ ops) rows =
      let (r, t1) = spec_step now op rows in let (rs, t2) = spec_run ops t1 in (r ∷ rs, t2)
