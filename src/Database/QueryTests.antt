-- ===== src/Database/QueryTests.antt =====
-- Statements that write, with a retry that counts its attempts down.
use fastapi_asyncpg_template.Base.{
  ℕ, zero, suc, ◌≡◌, refl, Bool, true, false, some, none, [], ◌∷◌, ◌∙◌, ap, if◌then◌else◌,
}
use fastapi_asyncpg_template.Database.Queries.{
  Exception, Outcome, returned, raised, connection_does_not_exist, postgres_error, Action, Retry,
  Context, pool, settings, write, execute,
}
use fastapi_asyncpg_template.Database.Retries.{taped, tape, writes-ran}
use fastapi_asyncpg_template.Database.Select.{DataBase}

abbrev before : ℕ → ℕ
before zero = zero
before (suc n) = n

module _ {W A : Type 0} where
  abbrev unless_retried : (Exception → Bool) → Outcome A × W → Outcome A × W → Outcome A × W
  unless_retried p (returned a, w) rest = (returned a, w)
  unless_retried p (raised e, w) rest = if p e then rest else (raised e, w)

  -- The attempts that are left after the next one.
  abbrev counted : ℕ → (Exception → Bool) → (ℕ → Action W A) → Action W A
  counted zero p m w = m 0 w
  counted (suc n) p m w = unless_retried p (m 0 w) (counted n p (λ k. m (suc k)) (m 0 w).1)

  abbrev call : ℕ → (Exception → Bool) → (ℕ → Action W A) → Action W A
  call n = counted (before n)

  module _ (p : Exception → Bool) (m : ℕ → Action W A) (w w' : W) where
    counted-returns :
        (n : ℕ) (a : A) → m 0 w ≡ (returned a, w') → counted n p m w ≡ (returned a, w')
    counted-returns zero a h = h
    counted-returns (suc n) a h =
        ap (λ o. unless_retried p o (counted n p (λ k. m (suc k)) (m 0 w).1)) h

    counted-other :
        (n : ℕ) (e : Exception)
        → m 0 w ≡ (raised e, w')
        → p e ≡ false
        → counted n p m w ≡ (raised e, w')
    counted-other zero e h o = h
    counted-other (suc n) e h o =
        ap (λ r. unless_retried p r (counted n p (λ k. m (suc k)) (m 0 w).1)) h ∙ rw o refl

    counted-again :
        (n : ℕ) (e : Exception)
        → m 0 w ≡ (raised e, w')
        → p e ≡ true
        → counted (suc n) p m w ≡ counted n p (λ k. m (suc k)) w'
    counted-again n e h y =
        ap (λ r. unless_retried p r (counted n p (λ k. m (suc k)) r.1)) h ∙ rw y refl

abbrev counting : Retry
counting = record {
  call = call;
  returns = λ n p m w w' a. counted-returns p m w w' n a;
  reraises_other = λ n p m w w' e. counted-other p m w w' n e;
  reraises_last = λ p m w w' e h. h;
  again = λ n p m w w' e. counted-again p m w w' n e;
}

abbrev context : Context
context = record {
  client_region = none;
  actor_id = some "7";
  client_ip = none;
  impersonator_id = none;
}

abbrev one_pool : DataBase
one_pool = record {
  write_pool = some 1;
  read_pools_by_region = [];
  health_task = false;
  region_priority = [];
  closed = [];
}

-- The reply of the first run is lost, and the statement is run twice.
writes-ran_example :
    (write counting
        (taped true)
        one_pool
        context
        (λ n. n)
        tt
        (tape
          (raised connection_does_not_exist ∷ returned (5 ∷ []) ∷ raised postgres_error ∷ [])
          [])
      ≡ (
        returned (some 5),
        tape
            (raised postgres_error ∷ [])
            ((pool 1, settings "7" "" "") ∷ (pool 1, settings "7" "" "") ∷ []),
      ))
    × (execute counting
          (taped true)
          one_pool
          context
          (λ n. n)
          none
          tt
          (tape
            (raised connection_does_not_exist ∷ returned (5 ∷ []) ∷ raised postgres_error ∷ [])
            [])
        ≡ (
          returned (5 ∷ []),
          tape
              (raised postgres_error ∷ [])
              ((pool 1, settings "7" "" "") ∷ (pool 1, settings "7" "" "") ∷ []),
        ))
writes-ran_example =
    writes-ran counting true one_pool context (λ n. n) 1 (raised connection_does_not_exist)
      (returned (5 ∷ [])) (raised postgres_error) [] refl
