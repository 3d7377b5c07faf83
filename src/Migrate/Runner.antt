-- ===== src/Migrate/Runner.antt =====
-- migrate.py: running migrations and recording them. The directory, the checksum of a file, whether
-- a script succeeds and how long it takes are parameters.
use fastapi_asyncpg_template.Base.{
  ℕ, Bool, true, false, ◌&&◌, ◌||◌, not, Option, some, none, List, [], ◌∷◌, map, any, all, keep,
  if◌then◌else◌,
}
use fastapi_asyncpg_template.Base.Http.{
  lift, ◌>>=◌, ◌>>◌, Handler, error, ok, err, pure, raise, raise_if, gets, modify,
}
use fastapi_asyncpg_template.Migrate.Sections.{Direction, up, down, parse_migration_sql}
use fastapi_asyncpg_template.Migrate.Sequence.{
  text_eq, text_mem, numbers, has_duplicates, has_gap, out_of_order, select_up_migrations,
  select_down_migrations, sort_files,
}
use fastapi_asyncpg_template.TwoFactor.Codes.{Text}

-- A row of schema_migrations; `applied_at` is left out.
pub record Row : Type 0 where
  pub version : Text
  pub checksum : Option Text
  pub execution_time_ms : Option ℕ

-- The table, and the scripts that were executed, the last one first.
pub record Tables : Type 0 where
  pub rows : List Row
  pub executed : List Text

abbrev pub is_version : Text → Row → Bool
is_version v r = text_eq v r.version

abbrev pub versions : Tables → List Text
versions t = map (λ r. r.version) t.rows

-- INSERT … ON CONFLICT (version) DO UPDATE
unfoldable pub upsert : Row → List Row → List Row
upsert new [] = new ∷ []
upsert new (r ∷ rows) =
    let rest = upsert new rows in if text_eq new.version r.version then new ∷ rows else r ∷ rest

unfoldable pub record_migration : Text → Option Text → Option ℕ → Handler Tables (Unit {0})
record_migration v checksum ms = modify (λ t. record t {
  rows = upsert (record { version = v; checksum = checksum; execution_time_ms = ms }) t.rows;
})

unfoldable pub remove_migration_record : Text → Handler Tables (Unit {0})
remove_migration_record v =
    modify (λ t. record t { rows = keep (λ r. not (is_version v r)) t.rows })

abbrev pub is_blank : Text → Bool
is_blank [] = true
is_blank (c ∷ cs) = false

module _ (disk : Text → Option (List Text)) (compute_checksum : List Text → Text)
    (execute : Text → Bool) (elapsed : Text → ℕ) where
  -- The transaction of `run_migration`: a script that fails leaves nothing behind.
  abbrev pub transact : Text → Direction → List Text → Text → Handler Tables (Unit {0})
  transact v direction lines sql t =
      if is_blank sql
      then recorded v direction lines t
      else if execute sql
      then recorded v direction lines (record t { executed = sql ∷ t.executed })
      else (err (error "PostgresError"), t)
    where
      recorded : Text → Direction → List Text → Handler Tables (Unit {0})
      recorded v up lines = record_migration v (some (compute_checksum lines)) (some (elapsed v))
      recorded v down lines = remove_migration_record v

  abbrev pub is_down : Direction → Bool
  is_down up = false
  is_down down = true

  unfoldable pub run_migration : Text → Direction → Handler Tables (Unit {0})
  run_migration v direction = elim (disk v) [
    | none ↦ raise (error "FileNotFoundError")
    | some lines ↦ do
      let sql = parse_migration_sql lines direction
      raise_if (is_down direction && is_blank sql) (error "ValueError: no rollback section")
      transact v direction lines sql
  ]

  -- compute_checksum(filepath), for a file that is there.
  abbrev pub file_checksum : Text → Option Text
  file_checksum v = elim (disk v) [ none ↦ none | some lines ↦ some (compute_checksum lines) ]

  -- The record after `run_migration`, which the source makes a second time.
  abbrev pub record_again : Text → Direction → Handler Tables (Unit {0})
  record_again v up = record_migration v (file_checksum v) none
  record_again v down = remove_migration_record v

  unfoldable pub process : Direction → (dry_run : Bool) → List Text → Handler Tables (List Text)
  process direction dry_run [] = pure []
  process direction true (f ∷ fs) = process direction true fs >>= λ processed. pure (f ∷ processed)
  process direction false (f ∷ fs) = do
    run_migration f direction
    record_again f direction
    processed ← process direction false fs
    pure (f ∷ processed)

  -- A checksum that is recorded, of a file that is there, and differs from the file's.
  abbrev pub was_modified : Row → Bool
  was_modified r = elim r.checksum [
    | none ↦ false
    | some expected ↦ elim (file_checksum r.version) [
      | none ↦ false
      | some actual ↦ not (is_blank expected) && not (text_eq actual expected)
    ]
  ]

  unfoldable pub validate_migration_sequence : List Text → Handler Tables (Unit {0})
  validate_migration_sequence files = do
    raise_if (has_duplicates (numbers files))
        (error "ValueError: Duplicate migration sequence numbers")
    raise_if (has_gap files) (error "ValueError: Migration sequence gap")
    applied ← gets versions
    raise_if (out_of_order files applied) (error "ValueError: Out-of-order migration")
    rows ← gets (λ t. t.rows)
    raise_if (any was_modified rows) (error "ValueError: Checksum mismatch")

  abbrev pub process_selected : Bool → Option (List Text) → Handler Tables (List Text)
  process_selected dry_run none = pure []
  process_selected dry_run (some fs) = process up dry_run fs

  -- `apply_migrations`; `listing` are the .sql files of the directory.
  unfoldable pub apply_migrations :
      (listing : List Text)
      → Direction
      → (steps : Option ℕ) → (dry_run : Bool) → (target : Option Text) → Handler Tables (List Text)
  apply_migrations listing up steps dry_run target = do
    let files = sort_files listing
    applied ← gets versions
    validate_migration_sequence files
    selected ← lift (select_up_migrations files applied target steps)
    process_selected dry_run selected
  apply_migrations listing down steps dry_run target = do
    let files = sort_files listing
    applied ← gets versions
    validate_migration_sequence files
    selected ← lift (select_down_migrations files applied target steps)
    process down dry_run selected

  -- Is there nothing to do in this direction?
  abbrev pub is_settled : Direction → (applied : Bool) → Bool
  is_settled up applied = applied
  is_settled down applied = not applied

  unfoldable pub run_specific_migration :
      Text → Direction → (dry_run : Bool) → Handler Tables (Unit {0})
  run_specific_migration v direction dry_run = elim (disk v) [
    | none ↦ raise (error "FileNotFoundError")
    | some lines ↦ do
      applied ← gets versions
      if is_settled direction (text_mem v applied) || dry_run
          then pure tt
          else (run_migration v direction >> record_again v direction)
  ]

  abbrev pub subset : List Text → List Text → Bool
  subset fs gs = all (λ f. text_mem f gs) fs

  unfoldable pub check_all_migrations_applied : (listing : List Text) → Tables → Bool
  check_all_migrations_applied [] t = true
  check_all_migrations_applied (f ∷ fs) t =
      let files = sort_files (f ∷ fs) in
      elim (validate_migration_sequence files t).0 [
        | err e ↦ false
        | ok _ ↦ subset (versions t) files && subset files (versions t)
      ]
