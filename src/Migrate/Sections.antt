-- ===== src/Migrate/Sections.antt =====
-- migrate.py: the two sections of a migration file, which is given as the list of its lines. A text
-- is the list of its code points (ASCII).
use fastapi_asyncpg_template.Base.{
  ℕ, Bool, true, false, ◌&&◌, ◌||◌, List, [], ◌∷◌, ◌++◌, map, leb, ◌==◌, ◌+◌, if◌then◌else◌,
}
use fastapi_asyncpg_template.TwoFactor.Codes.{Text, strip}

unfoldable pub lower : ℕ → ℕ
lower c = if leb b'A' c && leb c b'Z' then c + 32 else c

-- text.startswith(prefix)
unfoldable pub starts_with : (prefix : Text) → Text → Bool
starts_with [] text = true
starts_with (p ∷ ps) [] = false
starts_with (p ∷ ps) (c ∷ cs) = p == c && starts_with ps cs

-- part in text
unfoldable pub contains : (part : Text) → Text → Bool
contains part [] = starts_with part []
contains part (c ∷ cs) = starts_with part (c ∷ cs) || contains part cs

-- Is the line a comment that contains the word?
unfoldable pub marks : (word : Text) → (line : Text) → Bool
marks word line =
    let stripped = map lower (strip line) in
    starts_with (b'-' ∷ b'-' ∷ []) stripped && contains word stripped

abbrev pub marks_down : Text → Bool
marks_down = marks (b'd' ∷ b'o' ∷ b'w' ∷ b'n' ∷ [])

abbrev pub marks_up : Text → Bool
marks_up = marks (b'u' ∷ b'p' ∷ [])

pub data Direction : Type 0 where
  up down : Direction

-- The loop of `parse_migration_sql`: the lines of the two sections, from the current section on.
unfoldable pub sections : Direction → List Text → List Text × List Text
sections current [] = ([], [])
sections up (line ∷ lines) =
    let same = sections up lines in
    let switched = sections down lines in
    if marks_down line then switched else if marks_up line then same else (line ∷ same.0, same.1)
sections down (line ∷ lines) =
    let same = sections down lines in if marks_down line then same else (same.0, line ∷ same.1)

-- "\n".join(lines)
unfoldable pub join_lines : List Text → Text
join_lines [] = []
join_lines (line ∷ []) = line
join_lines (line ∷ next ∷ lines) = line ++ (10 ∷ join_lines (next ∷ lines))

unfoldable pub parse_migration_sql : List Text → Direction → Text
parse_migration_sql lines up = strip (join_lines (sections up lines).0)
parse_migration_sql lines down = strip (join_lines (sections up lines).1)
