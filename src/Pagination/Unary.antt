-- ===== src/Pagination/Unary.antt =====
-- Numbers written as texts in unary, for concrete lists.
use Prim.Native.Nat.{ℕ, zero, suc}
use Prim.Native.String.{String, [], ◌∷◌}
use mathlib.Core.Bool.{true}
use mathlib.Core.Logic.{inl, inr}
use mathlib.Core.Option.{Option, none, some}
use mathlib.Core.Path.{◌≡◌, refl}
use text.Mathlib.Text.{◌==◌ as str_eq}
use text.Mathlib.TextEquality.{eq_iff}
use text.Mathlib.TextLemmas.{cons-ne-nil}
use fastapi_asyncpg_template.Base.{truthy, Bool-cases}

abbrev pub unary : ℕ → String
unary zero = "1" ∷ []
unary (suc n) = "1" ∷ unary n

unfoldable pub read_unary : String → Option ℕ
read_unary [] = none
read_unary (c ∷ s) = elim (read_unary s) [ none ↦ some 0 | some n ↦ some (suc n) ]

pub read_unary-unary : (n : ℕ) → read_unary (unary n) ≡ some n
unfolding read_unary
read_unary-unary zero = refl
read_unary-unary (suc n) = rw (read_unary-unary n) refl

pub truthy-unary : (n : ℕ) → truthy (unary n) ≡ true
truthy-unary n = elim (Bool-cases (str_eq (unary n) "")) [
  | inr e ↦ rw e refl
  | inl e ↦ absurd (nonempty n ((eq_iff (unary n) "").0 e))
]
  where
    nonempty : (n : ℕ) → unary n ≡ "" → ⊥
    nonempty zero p = cons-ne-nil "1" [] p
    nonempty (suc n) p = cons-ne-nil "1" (unary n) p
