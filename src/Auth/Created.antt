-- ===== src/Auth/Created.antt =====
-- A user who was created can sign in.
use fastapi_asyncpg_template.Base.{ℕ, ◌≡◌, true, false, none, some, [], ◌∷◌, ◌++◌, any, String}
use fastapi_asyncpg_template.Auth.Accounts.{UserCreate, new_user, same_names}
use fastapi_asyncpg_template.Auth.Service.{Request, publish, issue_tokens_and_session, user_claims}
use fastapi_asyncpg_template.Auth.Tokens.{create_access_token}
use fastapi_asyncpg_template.Auth.Users.{get_two_factor}
use fastapi_asyncpg_template.Auth.World.{User, World, Services, user_created}

module _ (x : Services) (w : World x.redis.Store) (i : ℕ) (c : UserCreate) (p : String)
    (given : c.password ≡ some p)
    (free : any (same_names (new_user i c (some (x.hashpw p)))) w.users ≡ false) where
  abbrev pub user : User
  user = new_user i c (some (x.hashpw p))

  -- The world with the user.
  abbrev pub joined : World x.redis.Store
  joined = publish (user_created i) (record w { users = w.users ++ user ∷ [] })

  module _ (matches : x.checkpw p (x.hashpw p) ≡ true) (single : get_two_factor w i ≡ none)
      (now jti jti' challenge : ℕ) (r : Request) where
    -- The world after the user has signed in.
    abbrev pub signed_in : World x.redis.Store
    signed_in = (issue_tokens_and_session x user now r jti jti' joined).1

    abbrev pub access_token : x.Token
    access_token = (create_access_token x (user_claims user) now jti).token
