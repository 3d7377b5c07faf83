-- ===== src/Webhooks/Texts.antt =====
-- What Python does with ASCII texts, each the list of its code points: equality, split, int and str.
use Prim.Native.Char.{code}
use fastapi_asyncpg_template.Base.{
  String, ℕ, suc, zero, Bool, true, false, ◌&&◌, Option, some, none, List, [], ◌∷◌, ◌++◌, ◌+◌, ◌*◌,
  ◌-◌, ◌/◌, ◌%◌, ltb, ◌==◌, if◌then◌else◌,
}
use fastapi_asyncpg_template.Base.Int.{ℤ, pos, negsuc}
use fastapi_asyncpg_template.TwoFactor.Codes.{Text, is_digit, strip}

-- The code points of a text.
abbrev pub codes : String → Text
codes String.[] = []
codes (String.◌∷◌ c s) = code c ∷ codes s

abbrev pub text_eq : Text → Text → Bool
text_eq [] [] = true
text_eq [] (d ∷ ds) = false
text_eq (c ∷ cs) [] = false
text_eq (c ∷ cs) (d ∷ ds) = c == d && text_eq cs ds

abbrev pub is_empty : Text → Bool
is_empty [] = true
is_empty (c ∷ cs) = false

abbrev pub onto_first : ℕ → List Text → List Text
onto_first c [] = (c ∷ []) ∷ []
onto_first c (part ∷ parts) = (c ∷ part) ∷ parts

-- text.split(sep)
unfoldable pub split : (sep : ℕ) → Text → List Text
split sep [] = [] ∷ []
split sep (c ∷ cs) = let rest = split sep cs in if c == sep then [] ∷ rest else onto_first c rest

abbrev pub before_cut : ℕ → Option (Text × Text) → Option (Text × Text)
before_cut c none = none
before_cut c (some (k, v)) = some (c ∷ k, v)

-- text.split(sep, 1), for a text in which the separator is.
unfoldable pub cut : (sep : ℕ) → Text → Option (Text × Text)
cut sep [] = none
cut sep (c ∷ cs) = let rest = cut sep cs in if c == sep then some ([], cs) else before_cut c rest

-- The digits that are left, from the number that was read and whether the last one was a digit: an
-- underscore may stand between two digits.
unfoldable pub read_digits : ℕ → Bool → Text → Option ℕ
unfolding is_digit
read_digits n after_digit [] = if after_digit then some n else none
read_digits n after_digit (c ∷ cs) =
    let digit = read_digits (n * 10 + (c - b'0')) true cs in
    let underscore = read_digits n false cs in
    if is_digit c then digit else if c == b'_' && after_digit then underscore else none

abbrev pub negated : Option ℕ → Option ℤ
negated none = none
negated (some zero) = some (pos 0)
negated (some (suc n)) = some (negsuc n)

abbrev pub not_negated : Option ℕ → Option ℤ
not_negated none = none
not_negated (some n) = some (pos n)

abbrev pub read_sign : Text → Option ℤ
read_sign [] = none
read_sign (c ∷ cs) =
    if c == b'-'
    then negated (read_digits 0 false cs)
    else not_negated (read_digits 0 false (if c == b'+' then cs else c ∷ cs))

-- int(text), which is none where it raises a ValueError.
unfoldable pub int : Text → Option ℤ
unfolding strip
int text = read_sign (strip text)

-- The digits of `n`, which is less than `fuel`.
abbrev pub digits : (fuel : ℕ) → ℕ → Text
digits zero n = []
digits (suc fuel) n =
    let rest = digits fuel (n / 10) in
    if ltb n 10 then (b'0' + n) ∷ [] else rest ++ ((b'0' + n % 10) ∷ [])

-- str(n)
unfoldable pub str : ℕ → Text
str n = digits (suc n) n
