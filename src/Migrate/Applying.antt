-- ===== src/Migrate/Applying.antt =====
-- What the runner records.
use fastapi_asyncpg_template.Base.{
  ◌∙◌, sym, ℕ, Bool, true, false, ◌&&◌, ◌||◌, not, Option, some, none, List, [], ◌∷◌, ◌≡◌, map, all,
  keep, find, refl, arith, Option-cases, inl, inr,
}
use fastapi_asyncpg_template.Base.Http.{pure, ◌>>=◌, ok, >>=-ok}
use fastapi_asyncpg_template.Migrate.Runner.{
  validate_migration_sequence, Row, Tables, upsert, versions, is_version, record_migration,
  run_migration, record_again, process, apply_migrations, run_specific_migration,
}
use fastapi_asyncpg_template.Migrate.Sections.{up}
use fastapi_asyncpg_template.Migrate.Sequence.{
  insert, sort_files, text_eq, text_mem, select_up_migrations,
}
use fastapi_asyncpg_template.TwoFactor.Codes.{Text}

text_eq_refl : (v : Text) → text_eq v v ≡ true
text_eq_refl [] = refl
text_eq_refl (c ∷ cs) = ground (arith, text_eq_refl cs)

text_eq_lem : (v w : Text) → text_eq v w ≡ true → v ≡ w
text_eq_lem [] [] h = refl
text_eq_lem [] (b ∷ bs) h = absurd (cc)
text_eq_lem (a ∷ cs) [] h = absurd (cc)
text_eq_lem (a ∷ cs) (b ∷ bs) h = ground (arith, text_eq_lem cs bs)

-- The row that was put is found.
find-upsert :
    (new : Row) (rows : List Row) → find (is_version new.version) (upsert new rows) ≡ some new
unfolding upsert
find-upsert new [] = ground (arith, text_eq_refl new.version)
find-upsert new (r ∷ rows) = ground (arith, text_eq_refl new.version, find-upsert new rows)

-- A version that is recorded stays so.
versions-upsert :
    (v : Text) (new : Row) (rows : List Row)
    → text_mem v (map (λ r. r.version) (upsert new rows))
      ≡ (text_mem v (map (λ r. r.version) rows) || text_eq v new.version)
unfolding upsert
versions-upsert v new [] = ground arith
versions-upsert v new (r ∷ rows) =
    ground (arith, versions-upsert v new rows, text_eq_lem new.version r.version)

all-insert : (p : Text → Bool) (f : Text) (fs : List Text) → all p (insert f fs) ≡ (p f && all p fs)
unfolding insert
all-insert p f [] = refl
all-insert p f (g ∷ gs) = ground (arith, all-insert p f gs)

all-sort_files : (p : Text → Bool) (fs : List Text) → all p (sort_files fs) ≡ all p fs
unfolding sort_files
all-sort_files p [] = refl
all-sort_files p (f ∷ fs) = ground (arith, all-insert p f (sort_files fs), all-sort_files p fs)

module _ (disk : Text → Option (List Text)) (compute_checksum : List Text → Text)
    (execute : Text → Bool) (elapsed : Text → ℕ) where
  abbrev pub row_of : Text → List Text → Option ℕ → Row
  row_of v lines ms = record {
    version = v;
    checksum = some (compute_checksum lines);
    execution_time_ms = ms;
  }

  -- One file that was run and recorded.
  run_up :
      (v : Text) (t t₁ t₂ : Tables)
      → run_migration disk compute_checksum execute elapsed v up t ≡ (ok tt, t₁)
      → record_again disk compute_checksum execute elapsed v up t₁ ≡ (ok tt, t₂)
      → (w : Text) → text_mem w (versions t₂) ≡ (text_mem w (versions t) || text_eq w v)
  unfolding run_migration record_migration
  run_up v t t₁ t₂ h k w = elim (Option-cases (disk v)) [
    | inl e ↦ absurd (ground (arith, e, h))
    | inr (lines, e) ↦
        let row = row_of v lines (some (elapsed v)) in
        let row' = row_of v lines none in
        ground
          (arith, e, h, k, versions-upsert w row t.rows, versions-upsert w row' (upsert row t.rows))
  ]

  -- The files that were processed are recorded, and so are those that were before.
  process-versions :
      (fs processed : List Text) (t t' : Tables)
      → process disk compute_checksum execute elapsed up false fs t ≡ (ok processed, t')
      → (w : Text) → text_mem w (versions t') ≡ (text_mem w (versions t) || text_mem w fs)
  unfolding process
  process-versions [] processed t t' h w = ground (arith, h)
  process-versions (f ∷ fs) processed t t' h w =
      let run = run_migration disk compute_checksum execute elapsed f up in
      let again = record_again disk compute_checksum execute elapsed f up in
      let rest = process disk compute_checksum execute elapsed up false fs in
      let (_, t₁, c, a) =
        >>=-ok run (λ _. again >>= λ _. rest >>= λ processed. pure (f ∷ processed)) t t' processed
          h in
      let (_, t₂, d, b) =
        >>=-ok again (λ _. rest >>= λ processed. pure (f ∷ processed)) t₁ t' processed a in
      let (ps, t₃, e, g) = >>=-ok rest (λ processed. pure (f ∷ processed)) t₂ t' processed b in
      ground (arith, run_up f t t₁ t₂ c d w, process-versions fs ps t₂ t₃ e w, g)

  pending-recorded :
      (files applied recorded : List Text)
      → ((w : Text)
          → text_mem w (keep (λ f. not (text_mem f applied)) files) ≡ true
          → text_mem w recorded ≡ true)
      → ((w : Text) → text_mem w applied ≡ true → text_mem w recorded ≡ true)
      → all (λ f. text_mem f recorded) files ≡ true
  pending-recorded [] applied recorded h k = refl
  pending-recorded (f ∷ fs) applied recorded h k =
      let rest = pending-recorded fs applied recorded (λ w e. h w (ground (arith, e))) k in
      ground (arith, rest, h f, k f, text_eq_refl f)

  selected :
      (listing processed : List Text) (t t' : Tables)
      → apply_migrations disk compute_checksum execute elapsed listing up none false none t
        ≡ (ok processed, t')
      → process disk compute_checksum execute elapsed up false
          (keep (λ f. not (text_mem f (versions t))) (sort_files listing))
          t
        ≡ (ok processed, t')
  unfolding apply_migrations select_up_migrations validate_migration_sequence
  selected listing processed t t' h = ground (arith, h)

  -- Migrating up without a limit and without a target, if it returns, has recorded every file of the
  -- directory.
  pub apply_migrations_complete :
      (listing processed : List Text) (t t' : Tables)
      → apply_migrations disk compute_checksum execute elapsed listing up none false none t
        ≡ (ok processed, t')
      → all (λ f. text_mem f (versions t')) listing ≡ true
  unfolding apply_migrations select_up_migrations
  apply_migrations_complete listing processed t t' h =
      let files = sort_files listing in
      let pending = keep (λ f. not (text_mem f (versions t))) files in
      let recorded = process-versions pending processed t t' (selected listing processed t t' h) in
      sym (all-sort_files (λ f. text_mem f (versions t')) listing)
      ∙ pending-recorded files (versions t) (versions t') (λ w e. ground (arith, recorded w, e))
          (λ w e. ground (arith, recorded w, e))

  -- A migration that is run by name records the checksum of its file, and no execution time: the time
  -- that the transaction stored is overwritten.
  run_specific_migration_no_time :
      (v : Text) (lines : List Text) (t t' : Tables)
      → disk v ≡ some lines
      → text_mem v (versions t) ≡ false
      → run_specific_migration disk compute_checksum execute elapsed v up false t ≡ (ok tt, t')
      → find (is_version v) t'.rows ≡ some (row_of v lines none)
  unfolding run_specific_migration run_migration record_migration
  run_specific_migration_no_time v lines t t' e n h = ground (
    arith,
    e,
    n,
    h,
    find-upsert (row_of v lines none) (upsert (row_of v lines (some (elapsed v))) t.rows),
  )
