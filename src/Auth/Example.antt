-- ===== src/Auth/Example.antt =====
-- Services, users and a state to run the sign-in code on: a token is its claims, and the Redis
-- server is the one in memory.
use fastapi_asyncpg_template.Base.{
  ℕ, String, Bool, true, false, Option, some, none, List, [], ◌∷◌, ◌≡◌, ◌<◌, ◌≤◌, ltb,
  if◌then◌else◌, ◌==◌, ◌&&◌, arith, refl, str_eq,
}
use fastapi_asyncpg_template.Auth.World.{
  Services, Claims, World, User, TwoFactor, BackupCode, RedisKey-discrete, RedisKey, RedisValue,
}
use fastapi_asyncpg_template.Redis.{in_memory, Memory}

abbrev pub unexpired : ℕ → Option ℕ → Claims → Option Claims
unexpired now none c = some c
unexpired now (some exp) c = if ltb now exp then some c else none

abbrev pub decode_claims : ℕ → Claims → Option Claims
decode_claims now c = unexpired now c.exp c

pub decode_fresh :
    (now exp : ℕ) (c : Claims) → c.exp ≡ some exp → now < exp → decode_claims now c ≡ some c
decode_fresh now exp c e h = ground (arith, e)

pub decode_old :
    (now exp : ℕ) (c : Claims) → c.exp ≡ some exp → exp ≤ now → decode_claims now c ≡ none
decode_old now exp c e h = ground (arith, e)

unexpired-same : (now : ℕ) (e : Option ℕ) (c d : Claims) → unexpired now e c ≡ some d → c ≡ d
unexpired-same now none c d h = cc
unexpired-same now (some exp) c d h = ground arith

pub decode_same :
    (now later : ℕ) (t c d : Claims)
    → decode_claims now t ≡ some c
    → decode_claims later t ≡ some d
    → c ≡ d
decode_same now later t c d h k =
    ground (arith, unexpired-same now t.exp t c h, unexpired-same later t.exp t d k)

abbrev pub same_code : List ℕ → List ℕ → Bool
same_code [] [] = true
same_code [] (b ∷ bs) = false
same_code (a ∷ xs) [] = false
same_code (a ∷ xs) (b ∷ bs) = a == b && same_code xs bs

abbrev pub six_zeros : List ℕ
six_zeros = b'0' ∷ b'0' ∷ b'0' ∷ b'0' ∷ b'0' ∷ b'0' ∷ []

abbrev pub hash_of_text : List ℕ → String
hash_of_text [] = "empty"
hash_of_text (c ∷ cs) = if c == b'A' then "a" else "b"

abbrev pub services : Services
services = record {
  redis = in_memory RedisKey-discrete;
  Token = Claims;
  encode = λ c. c;
  decode = decode_claims;
  decode-encode = decode_fresh;
  decode-expired = decode_old;
  decode-stable = decode_same;
  checkpw = λ plain hashed. str_eq plain hashed;
  hashpw = λ s. s;
  encrypt = λ s. s;
  decrypt = λ s. s;
  decrypt-encrypt = λ s. refl;
  totp_at = λ s slice. six_zeros;
  totp_verify = λ s code now window. same_code code six_zeros;
  totp_verify-totp_at = λ s slice now window a b. refl;
  sha256 = hash_of_text;
  settings = record {
    access_token_expire_minutes = 30;
    refresh_token_expire_days = 7;
    sudo_token_expire_minutes = 5;
    two_factor_challenge_expire_minutes = 5;
  };
}

abbrev pub ana : User
ana = record {
  id = 1;
  username = "ana";
  email = "ana@example.org";
  hashed_password = some "secret";
  is_active = true;
  token_version = 1;
  roles = record { name = "Reader"; permissions = "user:read" ∷ [] } ∷ [];
}

-- A user with a second factor.
abbrev pub bob : User
bob = record {
  id = 2;
  username = "bob";
  email = "bob@example.org";
  hashed_password = some "hidden";
  is_active = true;
  token_version = 4;
  roles = [];
}

abbrev pub backup : BackupCode
backup = record { code_hash = "a"; used = false; used_at = none }

abbrev pub bob_factor : TwoFactor
bob_factor = record {
  user_id = 2;
  is_enabled = true;
  secret_encrypted = "seed";
  backup_codes = backup ∷ [];
}

abbrev pub world : World (Memory RedisKey RedisValue)
world = record {
  users = ana ∷ bob ∷ [];
  sessions = [];
  two_factor = bob_factor ∷ [];
  redis = λ k. none;
  events = [];
  audit = [];
  enforce_mfa = false;
  current_actor = none;
  current_impersonator = none;
}
