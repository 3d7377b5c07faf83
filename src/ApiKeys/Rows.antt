-- ===== src/ApiKeys/Rows.antt =====
-- The statements on the table: they do not look at what records the use of a key, and they leave
-- other hashes alone.
use fastapi_asyncpg_template.Base.{
  ℕ, String, false, Option, some, none, List, [], ◌∷◌, ◌≡◌, refl, str_eq, map, arith,
}
use fastapi_asyncpg_template.ApiKeys.Dao.{row_by_id, row_by_hash, update_row, remove_row, used_row}
use fastapi_asyncpg_template.ApiKeys.Spec.{forget}
use fastapi_asyncpg_template.ApiKeys.World.{Row}

abbrev pub forget_row : Option Row → Option Row
forget_row none = none
forget_row (some r) = some (forget r)

pub row_by_id-forget :
    (i : ℕ) (rows : List Row) → row_by_id i (map forget rows) ≡ forget_row (row_by_id i rows)
row_by_id-forget i [] = refl
row_by_id-forget i (r ∷ rs) = ground (arith, row_by_id-forget i rs)

pub row_by_hash-forget :
    (h : String) (rows : List Row)
    → row_by_hash h (map forget rows) ≡ forget_row (row_by_hash h rows)
row_by_hash-forget h [] = refl
row_by_hash-forget h (r ∷ rs) = ground (arith, row_by_hash-forget h rs)

pub update_row-forget :
    (i : ℕ) (f g : Row → Row) (rows : List Row)
    → ((r : Row) → g (forget r) ≡ forget (f r))
    → update_row i g (map forget rows) ≡ map forget (update_row i f rows)
update_row-forget i f g [] h = refl
update_row-forget i f g (r ∷ rs) h = ground (arith, h r, update_row-forget i f g rs h)

pub remove_row-forget :
    (i : ℕ) (rows : List Row) → remove_row i (map forget rows) ≡ map forget (remove_row i rows)
remove_row-forget i [] = refl
remove_row-forget i (r ∷ rs) = ground (arith, remove_row-forget i rs)

pub update_row-used :
    (i now : ℕ) (ip : Option String) (rows : List Row)
    → map forget (update_row i (used_row now ip) rows) ≡ map forget rows
update_row-used i now ip [] = refl
update_row-used i now ip (r ∷ rs) = ground (arith, update_row-used i now ip rs)

module _ (i : ℕ) (h : String) (r : Row) where
  pub row_by_hash-update_row :
      (f : Row → Row) (rows : List Row)
      → row_by_id i rows ≡ some r
      → str_eq r.hashed_key h ≡ false
      → str_eq (f r).hashed_key h ≡ false
      → row_by_hash h (update_row i f rows) ≡ row_by_hash h rows
  row_by_hash-update_row f [] found old new = refl
  row_by_hash-update_row f (q ∷ rs) found old new = ground (arith, row_by_hash-update_row f rs)

  pub row_by_hash-remove_row :
      (rows : List Row)
      → row_by_id i rows ≡ some r
      → str_eq r.hashed_key h ≡ false
      → row_by_hash h (remove_row i rows) ≡ row_by_hash h rows
  row_by_hash-remove_row [] found old = refl
  row_by_hash-remove_row (q ∷ rs) found old = ground (arith, row_by_hash-remove_row rs)
