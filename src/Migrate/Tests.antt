-- ===== src/Migrate/Tests.antt =====
-- The theorems on migrations in a directory of two files.
use fastapi_asyncpg_template.Base.{
  ℕ, Bool, true, false, Option, some, none, List, [], ◌∷◌, ◌≡◌, refl, all, if◌then◌else◌,
}
use fastapi_asyncpg_template.Base.Http.{ok}
use fastapi_asyncpg_template.Migrate.Applying.{apply_migrations_complete, row_of}
use fastapi_asyncpg_template.Migrate.Runner.{
  process, validate_migration_sequence, upsert, record_migration, run_migration, Tables, versions,
  apply_migrations, run_specific_migration,
}
use fastapi_asyncpg_template.Migrate.Sections.{
  sections, contains, lower, starts_with, marks, up, parse_migration_sql, join_lines,
}
use fastapi_asyncpg_template.Migrate.Sequence.{
  select_up_migrations, out_of_order, has_gap, number, extract_sequence_number, insert, sort_files,
  numbers, has_duplicates, text_mem,
}
use fastapi_asyncpg_template.TwoFactor.Codes.{lstrip, is_space, is_digit, Text, strip}

-- "a;", "-- Downloads" and "b;"
abbrev create : Text
create = b'a' ∷ b';' ∷ []

abbrev comment : Text
comment = b'-' ∷ b'-' ∷ b' ' ∷ b'D' ∷ b'o' ∷ b'w' ∷ b'n' ∷ b'l' ∷ b'o' ∷ b'a' ∷ b'd' ∷ b's' ∷ []

abbrev more : Text
more = b'b' ∷ b';' ∷ []

abbrev one : Text
one = b'1' ∷ []

abbrev two : Text
two = b'2' ∷ []

abbrev disk : Text → Option (List Text)
disk v = if text_mem v (one ∷ two ∷ []) then some (create ∷ []) else none

abbrev checksum : List Text → Text
checksum lines = b'c' ∷ []

abbrev succeeds : Text → Bool
succeeds sql = true

abbrev elapsed : Text → ℕ
elapsed v = 12

abbrev empty : Tables
empty = record { rows = []; executed = [] }

abbrev migrated : Tables
migrated = record {
  rows =
      row_of disk checksum succeeds elapsed one (create ∷ []) none
      ∷ row_of disk checksum succeeds elapsed two (create ∷ []) none
      ∷ [];
  executed = create ∷ create ∷ [];
}

applies :
    apply_migrations disk checksum succeeds elapsed (two ∷ one ∷ []) up none false none empty
    ≡ (ok (one ∷ two ∷ []), migrated)
unfolding apply_migrations validate_migration_sequence has_duplicates numbers sort_files insert
    extract_sequence_number number has_gap out_of_order select_up_migrations process run_migration
    parse_migration_sql strip join_lines sections record_migration upsert contains lower marks
    starts_with is_digit is_space lstrip
applies = refl

apply_migrations_complete_example :
    all (λ f. text_mem f (versions migrated)) (two ∷ one ∷ []) ≡ true
apply_migrations_complete_example =
    apply_migrations_complete disk checksum succeeds elapsed (two ∷ one ∷ []) (one ∷ two ∷ []) empty
      migrated applies

abbrev one_run : Tables
one_run = record {
  rows = row_of disk checksum succeeds elapsed one (create ∷ []) none ∷ [];
  executed = create ∷ [];
}

runs : run_specific_migration disk checksum succeeds elapsed one up false empty ≡ (ok tt, one_run)
unfolding run_specific_migration run_migration parse_migration_sql strip join_lines sections marks
    starts_with lower record_migration upsert
runs = refl
