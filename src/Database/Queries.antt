-- ===== src/Database/Queries.antt =====
-- api/core/database.py: the statements that write, with their retries. What the servers do with a
-- statement, and the network between, and the retry of tenacity are parameters. Durations, metrics and
-- the conversion of a row to a model, which checks nothing, are left out.
use fastapi_asyncpg_template.Base.{
  ℕ, suc, ◌≡◌, String, Bool, true, false, Option, none, some, List, [], ◌∷◌, if◌then◌else◌,
}
use fastapi_asyncpg_template.Base.Http.{ok, err}
use fastapi_asyncpg_template.Database.Select.{DataBase, get_pool}

pub data Exception : Type 0 where
  interface_error cannot_connect_now connection_does_not_exist os_error : Exception
  postgres_error runtime_error attribute_error : Exception
  other_error : ℕ → Exception

-- The classes of `_db_retry`.
abbrev pub retried : Exception → Bool
retried interface_error = true
retried cannot_connect_now = true
retried connection_does_not_exist = true
retried os_error = true
retried _ = false

-- `asyncpg.PostgresError` or `asyncpg.InterfaceError`
abbrev pub is_database_error : Exception → Bool
is_database_error interface_error = true
is_database_error cannot_connect_now = true
is_database_error connection_does_not_exist = true
is_database_error postgres_error = true
is_database_error _ = false

pub data Outcome (A : Type 0) : Type 0 where
  returned : A → Outcome A
  raised : Exception → Outcome A

abbrev pub Action : Type 0 → Type 0 → Type 0
Action W A = W → Outcome A × W

module _ {W : Type 0} {A B : Type 0} where
  abbrev pub proceed : Outcome A → (A → Action W B) → Action W B
  proceed (returned a) f w = f a w
  proceed (raised e) f w = (raised e, w)

infixl 5 ◌>>=◌
abbrev pub ◌>>=◌ : {W A B : Type 0} → Action W A → (A → Action W B) → Action W B
◌>>=◌ m f w = let (r, w') = m w in proceed r f w'

abbrev pub give : {W A : Type 0} → A → Action W A
give a w = (returned a, w)

abbrev pub fail : {W A : Type 0} → Exception → Action W A
fail e w = (raised e, w)

-- `retry` of tenacity, with `stop_after_attempt`, `retry_if_exception_type` and `reraise`: the attempts
-- have numbers, and the last exception is raised as it is.
pub record Retry : Type 1 where
  pub call :
      {W A : Type 0}
      → (attempts : ℕ) → (retry_if : Exception → Bool) → (ℕ → Action W A)
      → Action W A
  pub returns :
      {W A : Type 0} (n : ℕ) (p : Exception → Bool) (m : ℕ → Action W A) (w w' : W) (a : A)
      → m 0 w ≡ (returned a, w')
      → call (suc n) p m w ≡ (returned a, w')
  pub reraises_other :
      {W A : Type 0} (n : ℕ) (p : Exception → Bool) (m : ℕ → Action W A) (w w' : W) (e : Exception)
      → m 0 w ≡ (raised e, w')
      → p e ≡ false
      → call (suc n) p m w ≡ (raised e, w')
  pub reraises_last :
      {W A : Type 0} (p : Exception → Bool) (m : ℕ → Action W A) (w w' : W) (e : Exception)
      → m 0 w ≡ (raised e, w')
      → call 1 p m w ≡ (raised e, w')
  pub again :
      {W A : Type 0} (n : ℕ) (p : Exception → Bool) (m : ℕ → Action W A) (w w' : W) (e : Exception)
      → m 0 w ≡ (raised e, w')
      → p e ≡ true
      → call (suc (suc n)) p m w ≡ call (suc n) p (λ k. m (suc k)) w'

-- The session settings app.actor_id, app.client_ip and app.impersonator_id, as a call sets them or as
-- the connection has them, which is none for one that a pool gives.
pub data Audit : Type 0 where
  unchanged : Audit
  settings : (actor_id client_ip impersonator_id : String) → Audit

-- A pool, or a connection that the caller has.
pub data Target : Type 0 where
  pool connection : ℕ → Target

pub record Driver : Type 1 where
  pub Server : Type 0
  pub Statement : Type 0
  pub Row : Type 0
  pub acquire : (pool : ℕ) → Action Server (Unit {0})
  pub set_config : Target → Audit → Action Server (Unit {0})
  pub query : Target → Audit → Statement → Action Server (List Row)

abbrev pub or_empty : Option String → String
or_empty none = ""
or_empty (some s) = s

-- The context variables.
pub record Context : Type 0 where
  pub client_region : Option String
  pub actor_id : Option String
  pub client_ip : Option String
  pub impersonator_id : Option String

abbrev pub audit_of : Context → Audit
audit_of c = settings (or_empty c.actor_id) (or_empty c.client_ip) (or_empty c.impersonator_id)

abbrev pub head : {A : Type 0} → List A → Option A
head [] = none
head (a ∷ rest) = some a

module _ (x : Driver) (c : Context) where
  -- What the session has after the call of `set_config`, whose database errors are logged.
  abbrev pub audit_after : Audit → Outcome (Unit {0}) → Outcome Audit
  audit_after a (returned u) = returned a
  audit_after a (raised e) = if is_database_error e then returned unchanged else raised e

  abbrev pub configure : Target → Action x.Server Audit
  configure to w = let (r, w') = x.set_config to (audit_of c) w in (audit_after (audit_of c) r, w')

  unfoldable pub run_audited : Target → x.Statement → Action x.Server (List x.Row)
  run_audited to q = do a ← configure to; x.query to a q

module _ (t : Retry) (x : Driver) (db : DataBase) (c : Context) (draws : ℕ → ℕ) where
  -- `get_pool(use_primary=True)`, whose exception is a RuntimeError.
  abbrev pub primary_pool : (attempt : ℕ) → Action x.Server ℕ
  primary_pool n w = elim (get_pool true c.client_region (draws n) db).0 [
    | ok p ↦ (returned p.0, w)
    | err e ↦ (raised runtime_error, w)
  ]

  -- One attempt of `write`.
  unfoldable pub write_once : x.Statement → (attempt : ℕ) → Action x.Server (Option x.Row)
  write_once q n = do
    p ← primary_pool n
    u ← x.acquire p
    rows ← run_audited x c (pool p) q
    give (head rows)

  unfoldable pub write : x.Statement → Action x.Server (Option x.Row)
  write q = t.call 3 retried (write_once q)

  -- One attempt of `execute`: with no write pool, an attribute of None is asked for.
  unfoldable pub execute_once :
      (con : Option ℕ) → x.Statement → (attempt : ℕ) → Action x.Server (List x.Row)
  execute_once (some k) q n = run_audited x c (connection k) q
  execute_once none q n = elim db.write_pool [
    | none ↦ fail attribute_error
    | some p ↦ x.acquire p >>= λ u. run_audited x c (pool p) q
  ]

  unfoldable pub execute : (con : Option ℕ) → x.Statement → Action x.Server (List x.Row)
  execute con q = t.call 3 retried (execute_once con q)
