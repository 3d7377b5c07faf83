-- ===== src/Migrate/Parsing.antt =====
-- Which lines of a migration run in which direction.
use fastapi_asyncpg_template.Base.{true, not, List, [], ◌∷◌, ◌++◌, ◌≡◌, refl, arith, keep, all}
use fastapi_asyncpg_template.Migrate.Sections.{
  up, down, sections, marks_down, marks_up, join_lines, parse_migration_sql,
}
use fastapi_asyncpg_template.TwoFactor.Codes.{Text, strip}

sections-down :
    (lines : List Text) → sections down lines ≡ ([], keep (λ l. not (marks_down l)) lines)
unfolding sections
sections-down [] = refl
sections-down (l ∷ ls) = ground (arith, sections-down ls)

sections-up :
    (lines : List Text)
    → all (λ l. not (marks_down l)) lines ≡ true
    → sections up lines ≡ (keep (λ l. not (marks_up l)) lines, [])
unfolding sections
sections-up [] h = refl
sections-up (l ∷ ls) h = ground (arith, sections-up ls)

sections_switch :
    (before : List Text) (mark : Text) (after : List Text)
    → all (λ l. not (marks_down l)) before ≡ true
    → marks_down mark ≡ true
    → sections up (before ++ mark ∷ after)
      ≡ (keep (λ l. not (marks_up l)) before, keep (λ l. not (marks_down l)) after)
unfolding sections
sections_switch [] mark after h m = ground (arith, m, sections-down after)
sections_switch (l ∷ ls) mark after h m = ground (arith, sections_switch ls mark after)

-- The first comment that contains the word "down" anywhere, in whatever case, ends the up section:
-- up runs the lines before it without the comments that contain "up", and down the lines after it
-- without the comments that contain "down".
parse_migration_sql_switch :
    (before : List Text) (mark : Text) (after : List Text)
    → all (λ l. not (marks_down l)) before ≡ true
    → marks_down mark ≡ true
    → (parse_migration_sql (before ++ mark ∷ after) up
        ≡ strip (join_lines (keep (λ l. not (marks_up l)) before)))
      × (parse_migration_sql (before ++ mark ∷ after) down
          ≡ strip (join_lines (keep (λ l. not (marks_down l)) after)))
unfolding parse_migration_sql
parse_migration_sql_switch before mark after h m =
    rw (sections_switch before mark after h m) (refl, refl)
