-- ===== src/TwoFactor/Codes.antt =====
-- api/utils/totp.py: one-time codes and backup codes. The texts are ASCII, where `strip`, `isdigit`
-- and `upper` read single characters.
use fastapi_asyncpg_template.Base.{
  reverse, length, ◌-◌, ◌||◌, all, some, none, ◌==◌, ◌&&◌, [], true, str_eq, false, not, leb, ◌++◌,
  if◌then◌else◌, keep, ◌∷◌, Bool, String, map, ℕ, List,
}
use fastapi_asyncpg_template.Auth.World.{BackupCode, Services}

abbrev pub Text : Type 0
Text = List ℕ

unfoldable pub is_space : ℕ → Bool
is_space c = (leb 9 c && leb c 13) || (leb 28 c && leb c 32)

unfoldable pub is_digit : ℕ → Bool
is_digit c = leb b'0' c && leb c b'9'

unfoldable pub upper : ℕ → ℕ
upper c = if leb b'a' c && leb c b'z' then c - 32 else c

unfoldable pub lstrip : Text → Text
unfolding is_space
lstrip [] = []
lstrip (c ∷ cs) = let rest = lstrip cs in if is_space c then rest else c ∷ cs

unfoldable pub strip : Text → Text
unfolding lstrip
strip cs = reverse (lstrip (reverse (lstrip cs)))

-- `verify_totp`, at the time `now`
unfoldable pub verify_totp : Services → String → Text → (now valid_window : ℕ) → Bool
unfolding strip is_digit
verify_totp x secret code now valid_window =
    let cleaned = keep (λ c. not (c == b' ')) (strip code) in
    if not (all is_digit cleaned) || not (length cleaned == 6)
    then false
    else x.totp_verify secret cleaned now valid_window

unfoldable pub hash_backup_code : Services → Text → String
unfolding strip upper
hash_backup_code x code = x.sha256 (map upper (keep (λ c. not (c == b'-')) (strip code)))

-- A code from the two draws of `token_hex(2)`.
abbrev pub backup_code : Text × Text → Text
backup_code (part1, part2) = map upper part1 ++ (b'-' ∷ map upper part2)

abbrev pub backup_record : Services → Text → BackupCode
backup_record x code = record { code_hash = hash_backup_code x code; used = false; used_at = none }

-- `generate_backup_codes`, one code for each pair of draws.
unfoldable pub generate_backup_codes : Services → List (Text × Text) → List Text × List BackupCode
unfolding hash_backup_code upper
generate_backup_codes x draws =
    (map backup_code draws, map (backup_record x) (map backup_code draws))

-- An unused record of the code with this hash.
abbrev pub matches : String → BackupCode → Bool
matches hash c = str_eq c.code_hash hash && not c.used

abbrev pub use_up : ℕ → BackupCode → BackupCode
use_up now c = record c { used = true; used_at = some now }

-- The loop of `verify_and_consume_backup_code`: the first match is marked.
unfoldable pub consume : String → (now : ℕ) → List BackupCode → Bool × List BackupCode
consume hash now [] = (false, [])
consume hash now (c ∷ cs) =
    let rest = consume hash now cs in
    if matches hash c then (true, use_up now c ∷ cs) else (rest.0, c ∷ rest.1)

unfoldable pub verify_and_consume_backup_code :
    Services → List BackupCode → Text → (now : ℕ) → Bool × List BackupCode
unfolding consume
verify_and_consume_backup_code x codes candidate now =
    consume (hash_backup_code x candidate) now codes
