-- ===== src/Base/Lists.antt =====
-- Lists measured and indexed by native numbers, searched by Boolean tests.
use Prim.Native.Nat.{ℕ, zero, suc}
use Prim.Native.String.{String}
use mathlib.Core.Bool.{Bool, true, false, ◌||◌, ◌&&◌}
use mathlib.Core.List.{List, [], ◌∷◌, ◌++◌, map, reverse, reverse-cons}
use mathlib.Core.Option.{Option, none, some}
use mathlib.Core.Logic.{inl, inr}
use mathlib.Core.Path.{◌≡◌, refl}
use native.Mathlib.Omega.{arith}
use text.Mathlib.Text.{◌==◌ as str_eq}
use fastapi_asyncpg_template.Base.Tests.{if◌then◌else◌, ◌==◌, Bool-cases}

module _ {ℓ} {A : Type ℓ} where
  abbrev pub length : List A → ℕ
  length [] = 0
  length (x ∷ xs) = suc (length xs)

  abbrev pub get_elem? : List A → ℕ → Option A
  get_elem? [] i = none
  get_elem? (x ∷ xs) zero = some x
  get_elem? (x ∷ xs) (suc i) = get_elem? xs i

  abbrev pub take : ℕ → List A → List A
  take zero xs = []
  take (suc n) [] = []
  take (suc n) (x ∷ xs) = x ∷ take n xs

  -- any(test(x) for x in xs)
  abbrev pub any : (A → Bool) → List A → Bool
  any p [] = false
  any p (x ∷ xs) = p x || any p xs

  abbrev pub all : (A → Bool) → List A → Bool
  all p [] = true
  all p (x ∷ xs) = p x && all p xs

  -- [x for x in xs if test(x)]
  abbrev pub keep : (A → Bool) → List A → List A
  keep p [] = []
  keep p (x ∷ xs) = let rest = keep p xs in if p x then x ∷ rest else rest

  -- The first element that passes the test.
  abbrev pub find : (A → Bool) → List A → Option A
  find p [] = none
  find p (x ∷ xs) = if p x then some x else find p xs

  -- Some element of `xs` satisfies `P`, with its place kept.
  pub data Any {κ} (P : A → Type κ) : List A → Type (ℓ ⊔ κ) where
    here : {x : A} {xs : List A} → P x → Any P (x ∷ xs)
    there : {x : A} {xs : List A} → Any P xs → Any P (x ∷ xs)

-- Every element of `xs` satisfies `P`.
abbrev pub All {ℓ κ} : {A : Type ℓ} (P : A → Type κ) → List A → Type κ
All P [] = Unit
All P (x ∷ xs) = P x × All P xs

module _ {ℓ} {A : Type ℓ} where
  pub find_sound : (p : A → Bool) (xs : List A) (a : A) → find p xs ≡ some a → p a ≡ true
  find_sound p [] a h = ground arith
  find_sound p (x ∷ xs) a h = ground (arith, find_sound p xs a)

-- `x in xs` over texts and over numbers.
abbrev pub str_mem : String → List String → Bool
str_mem s = any (str_eq s)

abbrev pub nat_mem : ℕ → List ℕ → Bool
nat_mem n = any (λ m. n == m)

pub all-append {ℓ} :
    {A : Type ℓ} (p : A → Bool) (xs ys : List A) → all p (xs ++ ys) ≡ (all p xs && all p ys)
all-append p [] ys = refl
all-append p (c ∷ xs) ys = ground (arith, all-append p xs ys)

pub all-reverse {ℓ} : {A : Type ℓ} (p : A → Bool) (xs : List A) → all p (reverse xs) ≡ all p xs
all-reverse p [] = refl
all-reverse p (c ∷ xs) =
    rw reverse-cons (ground (arith, all-append p (reverse xs) (c ∷ []), all-reverse p xs))

-- What is kept satisfies the test, and what satisfies it is kept.
module _ {ℓ κ} {A : Type ℓ} {P : A → Type κ} (f : A → Bool) where
  pub Any-keep : ((a : A) → P a → f a ≡ true) → (xs : List A) → Any P xs → Any P (keep f xs)
  Any-keep h [] a = elim a [ ]
  Any-keep h (x ∷ xs) (here p) = rw (h x p) (here p)
  Any-keep h (x ∷ xs) (there a) = elim (Bool-cases (f x)) [
    | inl y ↦ rw y (there (Any-keep h xs a))
    | inr o ↦ rw o (Any-keep h xs a)
  ]

module _ {ℓ κ} {A : Type ℓ} {B : Type ℓ} {P : A → Type κ} {Q : B → Type κ} (f : A → B) where
  pub Any-map : ((a : A) → P a → Q (f a)) → (xs : List A) → Any P xs → Any Q (map f xs)
  Any-map h [] a = elim a [ ]
  Any-map h (x ∷ xs) (here p) = here (h x p)
  Any-map h (x ∷ xs) (there a) = there (Any-map h xs a)

module _ {ℓ κ} {A : Type ℓ} (P : A → Type κ) (f : A → Bool) where
  pub All-keep : (xs : List A) → All P xs → All P (keep f xs)
  All-keep [] a = tt
  All-keep (x ∷ xs) (p, a) = elim (Bool-cases (f x)) [
    | inl y ↦ rw y (p, All-keep xs a)
    | inr o ↦ rw o (All-keep xs a)
  ]

module _ {ℓ κ} {A : Type ℓ} {B : Type ℓ} (P : A → Type κ) (Q : B → Type κ) (f : A → B) where
  pub All-map : ((a : A) → P a → Q (f a)) → (xs : List A) → All P xs → All Q (map f xs)
  All-map h [] a = tt
  All-map h (x ∷ xs) (p, a) = (h x p, All-map h xs a)
