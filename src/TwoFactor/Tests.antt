-- ===== src/TwoFactor/Tests.antt =====
-- The theorems on the second factor at one state.
use fastapi_asyncpg_template.Base.{
  ℕ_discrete, true, false, some, none, List, [], ◌∷◌, ◌≡◌, arith, refl, if◌then◌else◌, ◌+◌, any,
  map, ◌&&◌, str_eq,
}
use fastapi_asyncpg_template.Base.Http.{ok, err, http}
use fastapi_asyncpg_template.Auth.Example.{ana, services, world, bob, backup, bob_factor, six_zeros}
use fastapi_asyncpg_template.Auth.Service.{
  issue_tokens_and_session, ask_second_factor, sign_in, check_credentials, user_claims, Request,
  authenticate_user, challenge, LoginResponse,
}
use fastapi_asyncpg_template.Auth.Tokens.{
  create_refresh_token, create_access_token, verify_password,
}
use fastapi_asyncpg_template.Auth.Users.{two_factor_row, get_two_factor, get_by_username}
use fastapi_asyncpg_template.Auth.World.{RedisKey-discrete, User, World, BackupCode}
use fastapi_asyncpg_template.TwoFactor.Backup.{verify_and_consume_exact, usable, remaining, hash_of}
use fastapi_asyncpg_template.TwoFactor.Challenge.{
  verify_two_factor_challenge-IsAnswered, challenge_once, IsAnswered,
}
use fastapi_asyncpg_template.TwoFactor.Codes.{
  is_digit, verify_totp, verify_and_consume_backup_code, hash_backup_code, matches,
  generate_backup_codes, Text,
}
use fastapi_asyncpg_template.TwoFactor.Login.{authenticate_user-Means, Means, stored_challenge}
use fastapi_asyncpg_template.TwoFactor.Replay.{one_code_in_a_slice}
use fastapi_asyncpg_template.TwoFactor.Service.{
  confirm_two_factor_setup, verify_2fa_code_or_backup, verify_two_factor_challenge,
}
use fastapi_asyncpg_template.TwoFactor.Setup.{confirm_two_factor_setup_lem, set_up}

-- The backup code A1 that Bob has, as it is typed.
abbrev typed : Text
typed = b'a' ∷ b'-' ∷ b'1' ∷ []

abbrev codes : List BackupCode
codes = backup ∷ record { code_hash = "b"; used = false; used_at = none } ∷ []

verify_and_consume_exact_example :
    let after = verify_and_consume_backup_code services codes typed 100 in
    (after.0 ≡ any (matches (hash_backup_code services typed)) codes)
    × (usable "b" codes
        ≡ usable "b" after.1
          + (if after.0 && str_eq "b" (hash_backup_code services typed) then 1 else 0))
    × (remaining codes ≡ remaining after.1 + (if after.0 then 1 else 0))
    × (map hash_of after.1 ≡ map hash_of codes)
verify_and_consume_exact_example = verify_and_consume_exact services codes typed 100 "b"

abbrev request : Request
request = record { host = none; user_agent = some "curl" }

-- Bob has given his password and holds the challenge 77.
abbrev asked : World services.redis.Store
asked = stored_challenge services bob 100 77 world

signs_in :
    authenticate_user services "bob" "hidden" 100 request 77 7 8 world ≡ (ok (challenge 77), asked)
unfolding authenticate_user check_credentials verify_password sign_in get_two_factor
    ask_second_factor
signs_in = refl

authenticate_user-Means_example :
    (u : User) × (get_by_username world "bob" ≡ some u)
    × (verify_password services "hidden" u.hashed_password ≡ true)
    × Means services world 100 77 u (challenge 77) asked
authenticate_user-Means_example =
    authenticate_user-Means services world asked "bob" "hidden" 100 request 77 7 8 (challenge 77)
      signs_in

-- He answers it with a one-time code.
abbrev answered : World services.redis.Store
answered = (verify_two_factor_challenge services 77 six_zeros 120 request 7 8 asked).1

abbrev response : LoginResponse services.Token
response = record {
  access_token = (create_access_token services (user_claims bob) 120 7).token;
  refresh_token = create_refresh_token services (user_claims bob) 120 8;
  user = bob;
}

answers :
    verify_two_factor_challenge services 77 six_zeros 120 request 7 8 asked
    ≡ (ok response, answered)
unfolding verify_two_factor_challenge RedisKey-discrete ℕ_discrete verify_totp
    issue_tokens_and_session
answers = refl

verify_two_factor_challenge-IsAnswered_example :
    IsAnswered services asked 77 six_zeros 120 request 7 8 response answered
verify_two_factor_challenge-IsAnswered_example =
    verify_two_factor_challenge-IsAnswered services asked 77 six_zeros 120 request 7 8 response
      answered answers

challenge_once_example :
    verify_two_factor_challenge services 77 six_zeros 160 request 9 10 answered
    ≡ (err (http 401 "auth.two_factor_challenge_expired"), answered)
challenge_once_example =
    challenge_once services 77 six_zeros six_zeros 120 160 request request 7 8 9 10 response asked
      answered answers

one_code_in_a_slice_example :
    (verify_2fa_code_or_backup services 2 bob_factor six_zeros 121
      (verify_2fa_code_or_backup services 2 bob_factor six_zeros 120 world).1).0
    ≡ err (http 400 "auth.two_factor_replay_detected")
unfolding verify_totp
one_code_in_a_slice_example =
    one_code_in_a_slice services 2 bob_factor six_zeros six_zeros 120 121 world (omega arith) refl
      refl refl refl

-- Ana sets up her second factor.
confirm_two_factor_setup_lem_example :
    let codes = generate_backup_codes services ((b'a' ∷ [], b'1' ∷ []) ∷ []) in
    let done = set_up services ana "seed" ((b'a' ∷ [], b'1' ∷ []) ∷ []) 100 160 world in
    (done.0 ≡ ok codes.0)
    × (get_two_factor done.1 1 ≡ some (two_factor_row 1 "seed" codes.1 true))
    × (confirm_two_factor_setup services ana six_zeros ((b'a' ∷ [], b'1' ∷ []) ∷ []) 160 done.1
        ≡ (err (http 400 "auth.two_factor_setup_expired"), done.1))
unfolding is_digit
confirm_two_factor_setup_lem_example =
    confirm_two_factor_setup_lem services ana "seed" ((b'a' ∷ [], b'1' ∷ []) ∷ []) 100 160 world
      (omega arith) (omega arith) refl refl refl
