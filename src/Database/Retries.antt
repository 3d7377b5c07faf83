-- ===== src/Database/Retries.antt =====
-- How often a statement that writes is run.
use fastapi_asyncpg_template.Base.{
  ℕ, suc, ◌≡◌, refl, Bool, true, false, some, none, List, [], ◌∷◌, Bool-cases, inl, inr, ◌∙◌, ap,
  if◌then◌else◌, arith,
}
use fastapi_asyncpg_template.Database.Queries.{
  Exception, Outcome, returned, raised, retried, interface_error, cannot_connect_now,
  connection_does_not_exist, os_error, postgres_error, runtime_error, attribute_error, other_error,
  Action, Retry, Driver, Context, Target, pool, Audit, unchanged, audit_of, head, write_once, write,
  execute_once, execute, run_audited, primary_pool,
}
use fastapi_asyncpg_template.Database.Select.{DataBase, get_pool}

-- Where a statement was run, and under which settings.
abbrev pub Run : Type 0
Run = Target × Audit

-- A server that has the answers to come, and the runs of the statement, the last one first.
pub record Tape : Type 0 where
  pub answers : List (Outcome (List ℕ))
  pub runs : List Run

abbrev pub answer : Run → List (Outcome (List ℕ)) → List Run → Outcome (List ℕ) × Tape
answer r [] rs = (returned [], record { answers = []; runs = r ∷ rs })
answer r (o ∷ os) rs = (o, record { answers = os; runs = r ∷ rs })

-- It takes the settings, or refuses them.
abbrev pub taped : (takes : Bool) → Driver
taped takes = record {
  Server = Tape;
  Statement = Unit {0};
  Row = ℕ;
  acquire = λ p w. (returned tt, w);
  set_config = λ to a w. (if takes then returned tt else raised postgres_error, w);
  query = λ to a q w. answer (to, a) w.answers w.runs;
}

abbrev pub tape : List (Outcome (List ℕ)) → List Run → Tape
tape os rs = record { answers = os; runs = rs }

-- The connection was lost, or not made.
abbrev pub is_lost : Exception → Bool
is_lost interface_error = true
is_lost cannot_connect_now = true
is_lost connection_does_not_exist = true
is_lost os_error = true
is_lost postgres_error = false
is_lost runtime_error = false
is_lost attribute_error = false
is_lost (other_error n) = false

retried-is_lost : (e : Exception) → retried e ≡ is_lost e
retried-is_lost interface_error = refl
retried-is_lost cannot_connect_now = refl
retried-is_lost connection_does_not_exist = refl
retried-is_lost os_error = refl
retried-is_lost postgres_error = refl
retried-is_lost runtime_error = refl
retried-is_lost attribute_error = refl
retried-is_lost (other_error n) = refl

-- An answer that comes, or an error that is not one of the connection.
abbrev pub is_final : {A : Type 0} → Outcome A → Bool
is_final (returned a) = true
is_final (raised e) = if is_lost e then false else true

abbrev pub mapped : {A B : Type 0} → (A → B) → Outcome A → Outcome B
mapped f (returned a) = returned (f a)
mapped f (raised e) = raised e

-- The statement is run until an answer is final, and three times at most.
abbrev pub ran :
    {A : Type 0}
    → (List ℕ → A)
    → Run
    → (first second third : Outcome (List ℕ)) → List (Outcome (List ℕ))
    → Outcome A × Tape
ran f r o₁ o₂ o₃ os =
    if is_final o₁
    then (mapped f o₁, tape (o₂ ∷ o₃ ∷ os) (r ∷ []))
    else if is_final o₂
    then (mapped f o₂, tape (o₃ ∷ os) (r ∷ r ∷ []))
    else (mapped f o₃, tape os (r ∷ r ∷ r ∷ []))

module _ (t : Retry) {A : Type 0} (f : List ℕ → A) (r : Run) where
  -- An attempt that runs the statement once.
  abbrev RunsOnce : (ℕ → Action Tape A) → Type 0
  RunsOnce m =
      (n : ℕ) (o : Outcome (List ℕ)) (os : List (Outcome (List ℕ))) (rs : List Run)
      → m n (tape (o ∷ os) rs) ≡ (mapped f o, tape os (r ∷ rs))

  call-last :
      (m : ℕ → Action Tape A) (o : Outcome (List ℕ)) (os : List (Outcome (List ℕ))) (rs : List Run)
      → RunsOnce m
      → t.call 1 retried m (tape (o ∷ os) rs) ≡ (mapped f o, tape os (r ∷ rs))
  call-last m (returned a) os rs h = t.returns 0 retried m _ _ (f a) (h 0 (returned a) os rs)
  call-last m (raised e) os rs h = t.reraises_last retried m _ _ e (h 0 (raised e) os rs)

  -- An attempt with others left.
  call-suc :
      (k : ℕ) (m : ℕ → Action Tape A) (o : Outcome (List ℕ)) (os : List (Outcome (List ℕ)))
      (rs : List Run)
      → RunsOnce m
      → t.call (suc (suc k)) retried m (tape (o ∷ os) rs) ≡ (
          if is_final o
          then (mapped f o, tape os (r ∷ rs))
          else t.call (suc k) retried (λ n. m (suc n)) (tape os (r ∷ rs)))
  call-suc k m (returned a) os rs h = t.returns (suc k) retried m _ _ (f a) (h 0 (returned a) os rs)
  call-suc k m (raised e) os rs h = elim (Bool-cases (is_lost e)) [
    | inl y ↦ t.again k retried m _ _ e (h 0 (raised e) os rs) (retried-is_lost e ∙ y) ∙ rw y refl
    | inr o ↦
        t.reraises_other (suc k) retried m _ _ e (h 0 (raised e) os rs) (retried-is_lost e ∙ o)
        ∙ rw o refl
  ]

  call-ran :
      (m : ℕ → Action Tape A) (o₁ o₂ o₃ : Outcome (List ℕ)) (os : List (Outcome (List ℕ)))
      → RunsOnce m
      → t.call 3 retried m (tape (o₁ ∷ o₂ ∷ o₃ ∷ os) []) ≡ ran f r o₁ o₂ o₃ os
  call-ran m o₁ o₂ o₃ os h = rw (call-suc 1 m o₁ (o₂ ∷ o₃ ∷ os) [] h) (
      rw (call-suc 0 (λ n. m (suc n)) o₂ (o₃ ∷ os) (r ∷ []) (λ n. h (suc n)))
        (rw (call-last (λ n. m (suc (suc n))) o₃ os (r ∷ r ∷ []) (λ n. h (suc (suc n)))) refl))

-- The settings that the audit triggers see.
abbrev pub seen : Bool → Context → Audit
seen true c = audit_of c
seen false c = unchanged

run_audited_lem :
    (takes : Bool) (c : Context) (to : Target) (o : Outcome (List ℕ)) (os : List (Outcome (List ℕ)))
    (rs : List Run)
    → run_audited (taped takes) c to tt (tape (o ∷ os) rs) ≡ (o, tape os ((to, seen takes c) ∷ rs))
unfolding run_audited
run_audited_lem true c to o os rs = refl
run_audited_lem false c to o os rs = refl

mapped_id : {A : Type 0} (o : Outcome A) → o ≡ mapped (λ a. a) o
mapped_id (returned a) = refl
mapped_id (raised e) = refl

module _ (t : Retry) (takes : Bool) (db : DataBase) (c : Context) (draws : ℕ → ℕ) where
  primary_pool_lem :
      (p n : ℕ) (w : Tape)
      → db.write_pool ≡ some p
      → primary_pool t (taped takes) db c draws n w ≡ (returned p, w)
  unfolding get_pool
  primary_pool_lem p n w h = ground (arith, h)

  write_once-RunsOnce :
      (p : ℕ)
      → db.write_pool ≡ some p
      → RunsOnce t head (pool p, seen takes c) (write_once t (taped takes) db c draws tt)
  unfolding write_once
  write_once-RunsOnce p h n (returned a) os rs =
      rw (primary_pool_lem p n (tape (returned a ∷ os) rs) h)
        (rw (run_audited_lem takes c (pool p) (returned a) os rs) refl)
  write_once-RunsOnce p h n (raised e) os rs =
      rw (primary_pool_lem p n (tape (raised e ∷ os) rs) h)
        (rw (run_audited_lem takes c (pool p) (raised e) os rs) refl)

  execute_once-RunsOnce :
      (p : ℕ)
      → db.write_pool ≡ some p
      → RunsOnce t
          (λ rows. rows)
          (pool p, seen takes c)
          (execute_once t (taped takes) db c draws none tt)
  unfolding execute_once
  execute_once-RunsOnce p h n o os rs =
      rw h (run_audited_lem takes c (pool p) o os rs ∙ ap (λ b. (b, _)) (mapped_id o))

  -- On a server that answers each run of a statement in any way, and either takes the session
  -- settings or refuses them with an error of PostgreSQL: write, and execute without a connection,
  -- run the statement on the write pool until an answer comes that is no lost connection, but three
  -- times at most, each time under the settings of the caller if the server takes them. They return
  -- or raise the last answer, write only the first row of it.
  pub writes-ran :
      (p : ℕ) (o₁ o₂ o₃ : Outcome (List ℕ)) (os : List (Outcome (List ℕ)))
      → db.write_pool ≡ some p
      → (write t (taped takes) db c draws tt (tape (o₁ ∷ o₂ ∷ o₃ ∷ os) [])
          ≡ ran head (pool p, seen takes c) o₁ o₂ o₃ os)
        × (execute t (taped takes) db c draws none tt (tape (o₁ ∷ o₂ ∷ o₃ ∷ os) [])
            ≡ ran (λ rows. rows) (pool p, seen takes c) o₁ o₂ o₃ os)
  unfolding write execute
  writes-ran p o₁ o₂ o₃ os h = (
    call-ran t head (pool p, seen takes c) (write_once t (taped takes) db c draws tt) o₁ o₂ o₃ os
        (write_once-RunsOnce p h),
    call-ran t (λ rows. rows) (pool p, seen takes c)
        (execute_once t (taped takes) db c draws none tt) o₁ o₂ o₃ os (execute_once-RunsOnce p h),
  )
