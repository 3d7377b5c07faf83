-- ===== src/Base/Http.antt =====
-- Handlers that change a state and may raise an `HTTPException`: what was written before a raise
-- stays written, so the state comes back beside the error too.
use Prim.Native.Nat.{ℕ}
use Prim.Native.String.{String}
use mathlib.Core.Bool.{Bool, true, false}
use mathlib.Core.Option.{Option, none, some}
use mathlib.Core.Path.{◌≡◌, refl}

-- What a handler raises: an `HTTPException` with its status and detail, or another exception.
pub data Raised : Type 0 where
  http : ℕ → String → Raised
  error : String → Raised

pub data Result {ℓ} (A : Type ℓ) : Type ℓ where
  ok : A → Result A
  err : Raised → Result A

-- A handler over the state `S`.
abbrev pub Handler {ℓ} : Type ℓ → Type ℓ → Type ℓ
Handler S A = S → Result A × S

module _ {ℓ} {S : Type ℓ} {A : Type ℓ} where
  abbrev pub pure : A → Handler S A
  pure a s = (ok a, s)

  abbrev pub raise : Raised → Handler S A
  raise e s = (err e, s)

  abbrev pub gets : (S → A) → Handler S A
  gets f s = (ok (f s), s)

  -- `x = ...; if not x: raise e`
  abbrev pub or_raise : Option A → Raised → Handler S A
  or_raise none e s = (err e, s)
  or_raise (some a) e s = (ok a, s)

module _ {ℓ} {S : Type ℓ} {A B : Type ℓ} where
  abbrev pub continue : Result A → (A → Handler S B) → Handler S B
  continue (ok a) f s = f a s
  continue (err e) f s = (err e, s)

infixl 5 ◌>>=◌ ◌>>◌
abbrev pub ◌>>=◌ {ℓ} : {S A B : Type ℓ} → Handler S A → (A → Handler S B) → Handler S B
◌>>=◌ m f s = let (r, s') = m s in continue r f s'

abbrev pub ◌>>◌ {ℓ} : {S A B : Type ℓ} → Handler S A → Handler S B → Handler S B
m >> n = m >>= λ _. n

abbrev pub modify : {S : Type 0} → (S → S) → Handler S (Unit {0})
modify f s = (ok tt, f s)

-- `if test: raise e`
abbrev pub raise_if : {S : Type 0} → Bool → Raised → Handler S (Unit {0})
raise_if true e s = (err e, s)
raise_if false e s = (ok tt, s)

abbrev pub lift {ℓ} : {S A : Type ℓ} → Result A → Handler S A
lift r s = (r, s)

-- A chain that returns ran both of its parts.
pub >>=-ok {ℓ} :
    {S A B : Type ℓ} (m : Handler S A) (f : A → Handler S B) (s s' : S) (b : B)
    → (m >>= f) s ≡ (ok b, s')
    → (a : A) × (t : S) × (m s ≡ (ok a, t)) × (f a t ≡ (ok b, s'))
>>=-ok {S} {A} {B} m f s s' b h = step (m s) refl
  where
    step :
        (r : Result A × S) → m s ≡ r → (a : A) × (t : S) × (m s ≡ (ok a, t)) × (f a t ≡ (ok b, s'))
    step (ok a, t) e = (a, t, e, rw e at h)
    step (err c, t) e = absurd (cc (rw e at h))

-- The state that a handler leaves, put beside a result that is known.
pub ok_path {ℓ} : {S A : Type ℓ} (r : Result A × S) (a : A) → r.0 ≡ ok a → r ≡ (ok a, r.1)
ok_path r a e = λ i. (e i, r.1)
