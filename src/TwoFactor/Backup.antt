-- ===== src/TwoFactor/Backup.antt =====
-- Backup codes are good for one use each.
use fastapi_asyncpg_template.Base.{
  ◌∙◌, inr, inl, Bool-cases, length, false, ◌≤◌, ◌++◌, Bool, ◌<◌, true, eq_iff, refl, str_eq, ◌&&◌,
  [], if◌then◌else◌, arith, ◌+◌, any, map, ◌≡◌, ◌∷◌, ℕ, List, String,
}
use fastapi_asyncpg_template.Auth.World.{Services, BackupCode}
use fastapi_asyncpg_template.TwoFactor.Codes.{
  backup_record, backup_code, hash_backup_code, verify_and_consume_backup_code, Text,
  generate_backup_codes, matches, consume,
}

-- How many unused records there are of the code with this hash, and of any code.
abbrev pub usable : String → List BackupCode → ℕ
usable hash [] = 0
usable hash (c ∷ cs) = (if matches hash c then 1 else 0) + usable hash cs

abbrev pub remaining : List BackupCode → ℕ
remaining [] = 0
remaining (c ∷ cs) = (if c.used then 0 else 1) + remaining cs

abbrev pub hash_of : BackupCode → String
hash_of c = c.code_hash

usable-consume :
    (hash other : String) (now : ℕ) (cs : List BackupCode)
    → usable other cs
      ≡ usable other (consume hash now cs).1
        + (if (consume hash now cs).0 && str_eq other hash then 1 else 0)
unfolding consume
usable-consume hash other now [] = refl
usable-consume hash other now (c ∷ cs) = ground (
  arith,
  usable-consume hash other now cs,
  eq_iff c.code_hash hash,
  eq_iff c.code_hash other,
  eq_iff other hash,
)

consume-eq-any :
    (hash : String) (now : ℕ) (cs : List BackupCode)
    → (consume hash now cs).0 ≡ any (matches hash) cs
unfolding consume
consume-eq-any hash now [] = refl
consume-eq-any hash now (c ∷ cs) = ground (arith, consume-eq-any hash now cs)

remaining-consume :
    (hash : String) (now : ℕ) (cs : List BackupCode)
    → remaining cs ≡ remaining (consume hash now cs).1 + (if (consume hash now cs).0 then 1 else 0)
unfolding consume
remaining-consume hash now [] = refl
remaining-consume hash now (c ∷ cs) = ground (arith, remaining-consume hash now cs)

map-hash-consume :
    (hash : String) (now : ℕ) (cs : List BackupCode)
    → map hash_of (consume hash now cs).1 ≡ map hash_of cs
unfolding consume
map-hash-consume hash now [] = refl
map-hash-consume hash now (c ∷ cs) = ground (arith, map-hash-consume hash now cs)

usable-zero :
    (hash : String) (cs : List BackupCode) → any (matches hash) cs ≡ true → 0 < usable hash cs
usable-zero hash [] h = absurd (cc)
usable-zero hash (c ∷ cs) h = ground (arith, usable-zero hash cs)

module _ (x : Services) (codes : List BackupCode) (candidate : Text) (now : ℕ) where
  abbrev pub attempt : Bool × List BackupCode
  attempt = verify_and_consume_backup_code x codes candidate now

  -- A candidate is accepted exactly if an unused record has its hash. Then one record with that
  -- hash becomes used; no record of another hash does, and no hash changes.
  pub verify_and_consume_exact :
      (other : String)
      → (attempt.0 ≡ any (matches (hash_backup_code x candidate)) codes)
        × (usable other codes
            ≡ usable other attempt.1
              + (if attempt.0 && str_eq other (hash_backup_code x candidate) then 1 else 0))
        × (remaining codes ≡ remaining attempt.1 + (if attempt.0 then 1 else 0))
        × (map hash_of attempt.1 ≡ map hash_of codes)
  unfolding verify_and_consume_backup_code
  verify_and_consume_exact other =
      let hash = hash_backup_code x candidate in
      (
        consume-eq-any hash now codes,
        usable-consume hash other now codes,
        remaining-consume hash now codes,
        map-hash-consume hash now codes,
      )

  -- Where no two unused records share the candidate's hash, an accepted code is refused the
  -- second time, however it is written then.
  second_use_refused :
      (again : Text) (later : ℕ)
      → hash_backup_code x again ≡ hash_backup_code x candidate
      → usable (hash_backup_code x candidate) codes ≤ 1
      → attempt.0 ≡ true
      → (verify_and_consume_backup_code x attempt.1 again later).0 ≡ false
  unfolding verify_and_consume_backup_code
  second_use_refused again later same single accepted =
      let hash = hash_backup_code x candidate in
      elim (Bool-cases (any (matches hash) (consume hash now codes).1)) [
        | inl more ↦ absurd (
            ground (
              arith,
              usable-zero hash (consume hash now codes).1 more,
              usable-consume hash hash now codes,
              eq_iff hash hash,
            ))
        | inr done ↦
            rw same (ground (arith, done, consume-eq-any hash later (consume hash now codes).1))
      ]

-- A code that was generated is in its list of records.
any-generated :
    (x : Services) (before after : List (Text × Text)) (d : Text × Text)
    → any
        (matches (hash_backup_code x (backup_code d)))
        (map (backup_record x) (map backup_code (before ++ d ∷ after)))
      ≡ true
any-generated x [] after d =
    ground (arith, eq_iff (hash_backup_code x (backup_code d)) (hash_backup_code x (backup_code d)))
any-generated x (b ∷ before) after d = ground (arith, any-generated x before after d)

remaining-fresh : (x : Services) (cs : List Text) → remaining (map (backup_record x) cs) ≡ length cs
remaining-fresh x [] = refl
remaining-fresh x (c ∷ cs) = omega (arith, remaining-fresh x cs)

-- Every generated code is accepted on its first use, and there are as many codes to use as draws.
generate-accepted :
    (x : Services) (before after : List (Text × Text)) (d : Text × Text) (now : ℕ)
    → let g = generate_backup_codes x (before ++ d ∷ after) in
      ((verify_and_consume_backup_code x g.1 (backup_code d) now).0 ≡ true)
      × (remaining g.1 ≡ length g.0)
unfolding generate_backup_codes verify_and_consume_backup_code
generate-accepted x before after d now =
    let codes = map backup_code (before ++ d ∷ after) in
    (
      consume-eq-any (hash_backup_code x (backup_code d)) now (map (backup_record x) codes)
          ∙ any-generated x before after d,
      remaining-fresh x codes,
    )
