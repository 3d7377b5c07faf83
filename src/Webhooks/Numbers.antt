-- ===== src/Webhooks/Numbers.antt =====
-- Numbers written by `str` and hexadecimal digests, as the header of a signature is read.
use fastapi_asyncpg_template.Base.{
  ℕ, suc, zero, true, false, some, [], ◌∷◌, ◌++◌, ◌+◌, ◌*◌, ◌-◌, ◌/◌, ◌%◌, ◌<◌, all, reverse, ◌≡◌,
  refl, ◌∙◌, arith, ap, all-append, all-reverse, Bool-cases, inl, inr,
}
use mathlib.Core.List.{reverse-reverse}
use fastapi_asyncpg_template.Base.Int.{pos}
use fastapi_asyncpg_template.TwoFactor.Codes.{Text, strip, lstrip, is_space, is_digit}
use fastapi_asyncpg_template.Webhooks.Texts.{
  is_empty, split, int, read_digits, digits, str, read_sign,
}
use fastapi_asyncpg_template.Webhooks.Signature.{is_hex}

lstrip-hex : (cs : Text) → all is_hex cs ≡ true → lstrip cs ≡ cs
unfolding lstrip is_space is_digit
lstrip-hex [] h = refl
lstrip-hex (c ∷ cs) h = ground arith

pub strip-hex : (cs : Text) → all is_hex cs ≡ true → strip cs ≡ cs
unfolding strip
strip-hex cs h =
    rw (lstrip-hex cs h)
      (rw (lstrip-hex (reverse cs) (all-reverse is_hex cs ∙ h)) (reverse-reverse cs))

-- A separator cuts off the digits before it.
pub split-hex :
    (cs rest : Text)
    → all is_hex cs ≡ true
    → split b',' (cs ++ (b',' ∷ rest)) ≡ cs ∷ split b',' rest
unfolding split is_digit
split-hex [] rest h = refl
split-hex (c ∷ cs) rest h = ground (arith, split-hex cs rest)

pub split-hex_end : (cs : Text) → all is_hex cs ≡ true → split b',' cs ≡ cs ∷ []
unfolding split is_digit
split-hex_end [] h = refl
split-hex_end (c ∷ cs) h = ground (arith, split-hex_end cs)

all-digits : (fuel n : ℕ) → all is_digit (digits fuel n) ≡ true
unfolding is_digit
all-digits zero n = refl
all-digits (suc fuel) n = ground (
  arith,
  all-digits fuel (n / 10),
  all-append is_digit (digits fuel (n / 10)) ((b'0' + n % 10) ∷ []),
)

pub digits-hex : (cs : Text) → all is_digit cs ≡ true → all is_hex cs ≡ true
digits-hex [] h = refl
digits-hex (c ∷ cs) h = ground (arith, digits-hex cs)

-- The number that the digits are, after the number that was read.
abbrev value : ℕ → Text → ℕ
value n [] = n
value n (c ∷ cs) = value (n * 10 + (c - b'0')) cs

read_digits-value :
    (n : ℕ) (cs : Text) → all is_digit cs ≡ true → read_digits n true cs ≡ some (value n cs)
unfolding read_digits
read_digits-value n [] h = refl
read_digits-value n (c ∷ cs) h = elim (Bool-cases (is_digit c)) [
  | inl y ↦ rw y (read_digits-value (n * 10 + (c - b'0')) cs (rw y at h))
  | inr o ↦ absurd (cc (rw o at h))
]

value-append : (n : ℕ) (cs : Text) (c : ℕ) → value n (cs ++ (c ∷ [])) ≡ value n cs * 10 + (c - b'0')
value-append n [] c = refl
value-append n (d ∷ cs) c = value-append (n * 10 + (d - b'0')) cs c

value-digits : (fuel n : ℕ) → n < fuel → value 0 (digits fuel n) ≡ n
value-digits zero n h = omega arith
value-digits (suc fuel) n h =
    ground
      (arith, value-digits fuel (n / 10), value-append 0 (digits fuel (n / 10)) (b'0' + n % 10))

read_sign-digits :
    (c : ℕ) (cs : Text)
    → all is_digit (c ∷ cs) ≡ true
    → read_sign (c ∷ cs) ≡ some (pos (value 0 (c ∷ cs)))
unfolding is_digit read_digits
read_sign-digits c cs h = ground (arith, read_digits-value (c - b'0') cs)

int-digits :
    (cs : Text) → all is_digit cs ≡ true → is_empty cs ≡ false → int cs ≡ some (pos (value 0 cs))
unfolding int
int-digits [] h e = absurd (cc e)
int-digits (c ∷ cs) h e = rw (strip-hex (c ∷ cs) (digits-hex (c ∷ cs) h)) (read_sign-digits c cs h)

is_empty-append : (cs : Text) (c : ℕ) → is_empty (cs ++ (c ∷ [])) ≡ false
is_empty-append [] c = refl
is_empty-append (d ∷ cs) c = refl

pub is_empty-str : (n : ℕ) → is_empty (str n) ≡ false
unfolding str
is_empty-str n = ground (arith, is_empty-append (digits n (n / 10)) (b'0' + n % 10))

pub all-str : (n : ℕ) → all is_digit (str n) ≡ true
unfolding str
all-str n = all-digits (suc n) n

-- A number that is written is read back.
pub int-str : (n : ℕ) → int (str n) ≡ some (pos n)
unfolding str
int-str n =
    int-digits (str n) (all-str n) (is_empty-str n)
    ∙ ap (λ m. some (pos m)) (value-digits (suc n) n (omega arith))
