-- ===== src/TwoFactor/Replay.antt =====
-- How often a one-time code is accepted.
use mathlib.Core.List.{reverse-reverse}
use fastapi_asyncpg_template.Base.{
  ap, none, ◌+◌, ◌/◌, ◌≤◌, refl, ◌==◌, not, [], ◌∙◌, length, keep, arith, true, ◌∷◌, ◌≡◌, reverse,
  String, all, ℕ, all-reverse,
}
use fastapi_asyncpg_template.Base.Http.{Result, http, err, ok}
use fastapi_asyncpg_template.Auth.Service.{set_redis}
use fastapi_asyncpg_template.Auth.World.{flag, two_factor_replay, World, TwoFactor, Services}
use fastapi_asyncpg_template.TwoFactor.Codes.{Text, is_space, verify_totp, is_digit, strip, lstrip}
use fastapi_asyncpg_template.TwoFactor.Service.{verify_2fa_code_or_backup}

lstrip-digits : (cs : Text) → all is_digit cs ≡ true → lstrip cs ≡ cs
unfolding lstrip is_space is_digit
lstrip-digits [] h = refl
lstrip-digits (c ∷ cs) h = ground arith

-- A code of digits alone is read as it stands.
pub strip-digits : (cs : Text) → all is_digit cs ≡ true → strip cs ≡ cs
unfolding strip
strip-digits cs h =
    rw (lstrip-digits cs h)
      (rw (lstrip-digits (reverse cs) (all-reverse is_digit cs ∙ h)) (reverse-reverse cs))

keep-digits : (cs : Text) → all is_digit cs ≡ true → keep (λ c. not (c == b' ')) cs ≡ cs
unfolding is_digit
keep-digits [] h = refl
keep-digits (c ∷ cs) h = ground (arith, keep-digits cs)

verify_totp-digits :
    (x : Services) (secret : String) (code : Text) (now window : ℕ)
    → all is_digit code ≡ true
    → length code ≡ 6
    → verify_totp x secret code now window ≡ x.totp_verify secret code now window
unfolding verify_totp
verify_totp-digits x secret code now window digits six =
    rw (strip-digits code digits) (ground (arith, keep-digits code digits))

-- The code of a slice is accepted within one slice of it.
pub totp_valid :
    (x : Services) (secret : String) (slice now : ℕ)
    → all is_digit (x.totp_at secret slice) ≡ true
    → length (x.totp_at secret slice) ≡ 6
    → slice ≤ now / 30 + 1
    → now / 30 ≤ slice + 1
    → verify_totp x secret (x.totp_at secret slice) now 1 ≡ true
totp_valid x secret slice now digits six low high =
    rw (verify_totp-digits x secret (x.totp_at secret slice) now 1 digits six)
      (x.totp_verify-totp_at secret slice now 1 low high)

module _ (x : Services) (i : ℕ) (t : TwoFactor) where
  -- A code that passes in a slice that has not been used is accepted, and the slice is taken.
  pub accept_first :
      (code : Text) (now : ℕ) (w : World x.redis.Store)
      → verify_totp x (x.decrypt t.secret_encrypted) code now 1 ≡ true
      → x.redis.get w.redis now (two_factor_replay i (now / 30)) ≡ none
      → verify_2fa_code_or_backup x i t code now w
        ≡ (ok tt, set_redis (x.redis.set w.redis now (two_factor_replay i (now / 30)) flag 60) w)
  unfolding verify_2fa_code_or_backup
  accept_first code now w valid unused = ground (arith, valid, unused)

  -- Two one-time codes in one slice of 30 seconds: the second, also if it is right and another, is
  -- refused as a replay.
  pub one_code_in_a_slice :
      (code code' : Text) (now later : ℕ) (w : World x.redis.Store)
      → now ≤ later
      → later / 30 ≡ now / 30
      → verify_totp x (x.decrypt t.secret_encrypted) code now 1 ≡ true
      → verify_totp x (x.decrypt t.secret_encrypted) code' later 1 ≡ true
      → x.redis.get w.redis now (two_factor_replay i (now / 30)) ≡ none
      → (verify_2fa_code_or_backup x i t code' later
          (verify_2fa_code_or_backup x i t code now w).1).0
        ≡ err (http 400 "auth.two_factor_replay_detected")
  one_code_in_a_slice code code' now later w p same valid valid' unused =
      let key = two_factor_replay i (now / 30) in
      rw (accept_first code now w valid unused) (
        unfold verify_2fa_code_or_backup in
        ground (
          arith,
          valid',
          ap (λ (s : ℕ). two_factor_replay i s) same,
          x.redis.get-set w.redis now key flag 60 later key (omega arith) p,
        ))

  -- The code of one slice is accepted twice: in its own slice, and once more in the next.
  code_accepted_twice :
      (slice now later : ℕ) (w : World x.redis.Store)
      → all is_digit (x.totp_at (x.decrypt t.secret_encrypted) slice) ≡ true
      → length (x.totp_at (x.decrypt t.secret_encrypted) slice) ≡ 6
      → now / 30 ≡ slice
      → later / 30 ≡ slice + 1
      → x.redis.get w.redis now (two_factor_replay i (now / 30)) ≡ none
      → x.redis.get w.redis later (two_factor_replay i (later / 30)) ≡ none
      → let code = x.totp_at (x.decrypt t.secret_encrypted) slice in
        let first = verify_2fa_code_or_backup x i t code now w in
        (first.0 ≡ ok tt) × ((verify_2fa_code_or_backup x i t code later first.1).0 ≡ ok tt)
  code_accepted_twice slice now later w digits six here next unused unused' =
      let secret = x.decrypt t.secret_encrypted in
      let code = x.totp_at secret slice in
      let key = two_factor_replay i (now / 30) in
      let valid = totp_valid x secret slice now digits six (omega arith) (omega arith) in
      let valid' = totp_valid x secret slice later digits six (omega arith) (omega arith) in
      let kept : x.redis.get (x.redis.set w.redis now key flag 60) later
            (two_factor_replay i (later / 30))
          ≡ none =
        ground (
          arith,
          unused',
          x.redis.get-set w.redis now key flag 60 later (two_factor_replay i (later / 30))
              (omega arith) (omega arith),
        ) in
      rw (accept_first code now w valid unused) (
        refl,
        ap (λ (r : Result (Unit {0}) × World x.redis.Store). r.0)
            (accept_first code later _ valid' kept),
      )
