-- ===== src/Migrate/Sequence.antt =====
-- migrate.py: sequence numbers, the checks on them and the choice of the files to run.
use fastapi_asyncpg_template.Base.{
  ℕ, suc, zero, ◌+◌, ◌*◌, ◌-◌, Bool, true, false, ◌&&◌, ◌||◌, not, Option, some, none, List, [],
  ◌∷◌, any, keep, take, ltb, ◌==◌, if◌then◌else◌, reverse, length,
}
use fastapi_asyncpg_template.Base.Http.{err, ok, Result, error}
use fastapi_asyncpg_template.TwoFactor.Codes.{Text, is_digit}

abbrev pub text_eq : Text → Text → Bool
text_eq [] [] = true
text_eq [] (b ∷ bs) = false
text_eq (a ∷ cs) [] = false
text_eq (a ∷ cs) (b ∷ bs) = a == b && text_eq cs bs

abbrev pub text_mem : Text → List Text → Bool
text_mem t = any (text_eq t)

-- The number that digits continue, read so far as `n`.
unfoldable pub number : ℕ → Text → ℕ
unfolding is_digit
number n [] = n
number n (c ∷ cs) = let rest = number (n * 10 + (c - b'0')) cs in if is_digit c then rest else n

unfoldable pub extract_sequence_number : Text → Option ℕ
unfolding is_digit
extract_sequence_number [] = none
extract_sequence_number (c ∷ cs) = if is_digit c then some (number 0 (c ∷ cs)) else none

abbrev pub with_number : Option ℕ → List ℕ → List ℕ
with_number none ns = ns
with_number (some n) ns = n ∷ ns

-- [seq for f in files if (seq := extract_sequence_number(f)) is not None]
unfoldable pub numbers : List Text → List ℕ
numbers [] = []
numbers (f ∷ fs) = with_number (extract_sequence_number f) (numbers fs)

abbrev pub mem : ℕ → List ℕ → Bool
mem n = any (λ m. n == m)

unfoldable pub has_duplicates : List ℕ → Bool
has_duplicates [] = false
has_duplicates (n ∷ ns) = mem n ns || has_duplicates ns

abbrev pub maximum : List ℕ → ℕ
maximum [] = 0
maximum (n ∷ ns) = let m = maximum ns in if ltb m n then n else m

-- min of a list that is not empty
abbrev pub minimum : ℕ → List ℕ → ℕ
minimum n [] = n
minimum n (m ∷ ms) = let k = minimum n ms in if ltb m k then m else k

-- Are the `count` numbers from `first` on all there?
abbrev pub covers : (first count : ℕ) → List ℕ → Bool
covers first zero ns = true
covers first (suc count) ns = mem first ns && covers (first + 1) count ns

unfoldable pub has_gap : List Text → Bool
has_gap files = gap_of (numbers files)
  where
    gap_of : List ℕ → Bool
    gap_of [] = false
    gap_of (n ∷ ns) =
        length (n ∷ ns) == length files
        && not (covers (minimum n ns) (maximum (n ∷ ns) + 1 - minimum n ns) (n ∷ ns))

abbrev pub before : ℕ → Option ℕ → Bool
before n none = false
before n (some m) = ltb m n

-- Is some file unapplied that comes before an applied one?
unfoldable pub out_of_order : List Text → (applied : List Text) → Bool
out_of_order files applied =
    any
      (λ f.
        not (text_mem f applied) && before (maximum (numbers applied)) (extract_sequence_number f))
      files

abbrev pub index_take : Text → List Text → List Text
index_take target [] = []
index_take target (f ∷ fs) =
    let rest = index_take target fs in if text_eq target f then f ∷ [] else f ∷ rest

abbrev pub take? : Option ℕ → List Text → List Text
take? none fs = fs
take? (some n) fs = take n fs

-- `if target:`
abbrev pub given : Option Text → Option Text
given none = none
given (some []) = none
given (some (c ∷ cs)) = some (c ∷ cs)

-- `_select_up_migrations`; the inner `none` is a target that is applied already.
unfoldable pub select_up_migrations :
    (files applied : List Text)
    → (target : Option Text) → (steps : Option ℕ) → Result (Option (List Text))
select_up_migrations files applied target steps =
    let pending = keep (λ f. not (text_mem f applied)) files in
    elim (given target) [
      | none ↦ ok (some (take? steps pending))
      | some t ↦
          if text_mem t pending
          then ok (some (take? steps (index_take t pending)))
          else if text_mem t applied
          then ok none
          else err (error "ValueError: target not found")
    ]

abbrev pub default_steps : Option Text → Option ℕ → Option ℕ
default_steps none none = some 1
default_steps (some t) none = none
default_steps target (some n) = some n

unfoldable pub select_down_migrations :
    (files applied : List Text) → (target : Option Text) → (steps : Option ℕ) → Result (List Text)
select_down_migrations files applied target steps =
    let in_order = keep (λ f. text_mem f applied) (reverse files) in
    elim (given target) [
      | none ↦ ok (take? (default_steps target steps) in_order)
      | some t ↦
          if text_mem t in_order
          then ok (take? (default_steps target steps) (index_take t in_order))
          else err (error "ValueError: target is not applied")
    ]

-- The order of file names.
abbrev pub text_leb : Text → Text → Bool
text_leb [] bs = true
text_leb (a ∷ cs) [] = false
text_leb (a ∷ cs) (b ∷ bs) = ltb a b || (a == b && text_leb cs bs)

-- The key of a file, where no number counts as sys.maxsize.
abbrev pub sort_key : Text → ℕ
sort_key f = elim (extract_sequence_number f) [ none ↦ 9223372036854775807 | some n ↦ n ]

abbrev pub precedes : Text → Text → Bool
precedes f g = ltb (sort_key f) (sort_key g) || (sort_key f == sort_key g && text_leb f g)

unfoldable pub insert : Text → List Text → List Text
insert f [] = f ∷ []
insert f (g ∷ gs) = let rest = insert f gs in if precedes f g then f ∷ g ∷ gs else g ∷ rest

-- sorted(files, key=sort_key)
unfoldable pub sort_files : List Text → List Text
sort_files [] = []
sort_files (f ∷ fs) = insert f (sort_files fs)
