-- ===== src/Pagination/Page.antt =====
-- api/utils/pagination.py
use fastapi_asyncpg_template.Base.{
  ℕ, ◌+◌, String, true, Option, some, none, List, [], ◌∷◌, ◌≡◌, truthy, ltb, length, take,
  if◌then◌else◌,
}
use fastapi_asyncpg_template.Base.Http.{Result, ok, err}

-- Base64: `decode_cursor` is none where the decoding raises a ValueError or a binascii.Error.
pub record Base64 : Type 0 where
  pub encode_cursor : String → String
  pub decode_cursor : String → Option String
  pub decode-encode : (s : String) → decode_cursor (encode_cursor s) ≡ some s
  pub encode_truthy : (s : String) → truthy s ≡ true → truthy (encode_cursor s) ≡ true

-- `Page`
pub record Page {ℓ} (A : Type ℓ) : Type ℓ where
  pub items : List A
  pub total_count : Option ℕ
  pub end_cursor : Option String

module _ {ℓ} {A : Type ℓ} where
  -- `items[-1]`
  abbrev pub last : List A → Option A
  last [] = none
  last (x ∷ xs) = elim (last xs) [ none ↦ some x | some y ↦ some y ]

module _ (b : Base64) where
  -- The value that `apply_cursor_pagination` makes of `params.after`; an invalid cursor starts from
  -- the beginning.
  unfoldable pub cursor_value : Option String → Option String
  cursor_value none = none
  cursor_value (some after) = if truthy after then b.decode_cursor after else none

  module _ {ℓ} {A : Type ℓ} (get_cursor_value : A → String) where
    unfoldable pub end_cursor_of : List A → Option String
    end_cursor_of items = elim (last items) [
      | none ↦ none
      | some x ↦ some (b.encode_cursor (get_cursor_value x))
    ]

    -- `apply_cursor_pagination`; `total_count` is what `count_func` returns, if it is given.
    unfoldable pub apply_cursor_pagination :
        (fetch_func : (limit : ℕ) → (cursor : Option String) → Result (List A))
        → (first : ℕ) → (after : Option String) → (total_count : Option ℕ) → Result (Page A)
    apply_cursor_pagination fetch_func first after total_count =
        elim (fetch_func (first + 1) (cursor_value after)) [
          | err e ↦ err e
          | ok fetched ↦
              let items = if ltb first (length fetched) then take first fetched else fetched in
              ok (record {
                items = items;
                total_count = total_count;
                end_cursor = end_cursor_of items;
              })
        ]
