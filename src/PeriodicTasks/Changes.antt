-- ===== src/PeriodicTasks/Changes.antt =====
-- What a change of the periodic tasks leaves in Redis.
use fastapi_asyncpg_template.Base.{
  ℕ, ◌≤◌, ◌≡◌, refl, sym, ap, ◌∙◌, subst, inl, inr, String, Bool, true, false, not, ◌==◌, Option,
  none, some, find, is_some, arith, Option-cases,
}
use fastapi_asyncpg_template.Base.Http.{
  continue, Result, ok, err, Raised, Handler, >>=-ok, raise_if, or_raise, ◌>>=◌, ◌>>◌, pure, modify,
}
use fastapi_asyncpg_template.PeriodicTasks.Beat.{same_version}
use fastapi_asyncpg_template.PeriodicTasks.Service.{
  PeriodicTaskUpdate, get_task_by_name, insert_task, update_row, delete_row,
  notify_schedule_changed, create_task, update_task, delete_task, Change, created, edited, removed,
  change, forget, task_not_found, task_exists, validate_task_exists, validate_new_task,
}
use fastapi_asyncpg_template.PeriodicTasks.World.{PeriodicTask, BeatServices, World, next_version}

abbrev pub count : Option ℕ → ℕ
count none = 0
count (some v) = v

same_version_newer :
    (v last : Option ℕ) → count last ≤ count v → same_version (some (next_version v)) last ≡ false
same_version_newer v none h = refl
same_version_newer none (some u) h = ground arith
same_version_newer (some v) (some u) h = ground arith

pub same_version_refl : (v : Option ℕ) → same_version v v ≡ true
same_version_refl none = refl
same_version_refl (some v) = ground arith

next_newer : (v last : Option ℕ) → count last ≤ count v → count last ≤ count (some (next_version v))
next_newer none last h = omega arith
next_newer (some v) last h = omega arith

module _ (x : BeatServices) where
  -- Redis and the scheduler are as they were.
  abbrev Kept : World x → World x → Type 0
  Kept s t = (t.store ≡ s.store) × (t.last_version ≡ s.last_version)

  Kept-trans : (r s t : World x) → Kept r s → Kept s t → Kept r t
  Kept-trans r s t (a, b) (c, d) = (c ∙ a, d ∙ b)

  update_row-Kept :
      (i : ℕ) (u : PeriodicTaskUpdate x.Json) (w : World x) → Kept w (update_row x i u w).1
  unfolding update_row
  update_row-Kept i u w = elim (Option-cases (find (λ t. t.id == i) w.rows)) [
    | inl n ↦ rw n (refl, refl)
    | inr (t, e) ↦ rw e (ground arith)
  ]

  -- What a change that returns leaves: the cached schedule is gone and the version is a new one.
  abbrev Notified : World x → World x → Type 0
  Notified w w' = (v : World x) × Kept w v × (w' ≡ notify_schedule_changed x v)

  abbrev Notifies : {A : Type 0} → Handler (World x) A → Type 0
  Notifies {A} m = (w w' : World x) (a : A) → m w ≡ (ok a, w') → Notified w w'

  quiet-then :
      {A B : Type 0} (m : Handler (World x) A) (f : A → Handler (World x) B)
      → ((w : World x) → Kept w (m w).1)
      → ((a : A) → Notifies (f a))
      → Notifies (m >>= f)
  quiet-then m f k n w w' b h =
      let (a, v, e, rest) = >>=-ok m f w w' b h in
      let (u, kept, same) = n a v w' b rest in
      (u, Kept-trans w v u (subst (Kept w) (ap (λ r. r.1) e) (k w)) kept, same)

  notify-then : {A : Type 0} (b : A) → Notifies (modify (notify_schedule_changed x) >> pure b)
  notify-then b w w' a h = (w, (refl, refl), sym (ap (λ r. r.1) h))

  raise_if-Kept : (b : Bool) (e : Raised) (w : World x) → Kept w (raise_if b e w).1
  raise_if-Kept true e w = (refl, refl)
  raise_if-Kept false e w = (refl, refl)

  or_raise-Kept : {A : Type 0} (o : Option A) (e : Raised) (w : World x) → Kept w (or_raise o e w).1
  or_raise-Kept none e w = (refl, refl)
  or_raise-Kept (some a) e w = (refl, refl)

  validate_new_task-Kept : (n : Option String) (w : World x) → Kept w (validate_new_task x n w).1
  validate_new_task-Kept none w = (refl, refl)
  validate_new_task-Kept (some n) w = raise_if-Kept (not (x.registered n)) _ w

  returned :
      {A : Type 0} (r : Result A × World x) (u : Unit {0}) (w : World x)
      → forget x r ≡ (ok u, w)
      → (a : A) × (r ≡ (ok a, w))
  returned (ok a, v) u w h = (a, λ i. (ok a, (h i).1))
  returned (err e, v) u w h = absurd (cc h)

  -- The scheduler has seen no version that is newer than the one in Redis.
  abbrev pub Seen : World x → Type 0
  Seen w = count w.last_version ≤ count (x.redis.get_version w.store)

  abbrev KeepsSeen : {A : Type 0} → Handler (World x) A → Type 0
  KeepsSeen m = (w : World x) → Seen w → Seen (m w).1

  continue-Seen :
      {A B : Type 0} (r : Result A) (f : A → Handler (World x) B) (v : World x)
      → ((a : A) → KeepsSeen (f a))
      → Seen v
      → Seen (continue r f v).1
  continue-Seen (ok a) f v k s = k a v s
  continue-Seen (err e) f v k s = s

  Kept-then :
      {A B : Type 0} (m : Handler (World x) A) (f : A → Handler (World x) B)
      → ((w : World x) → Kept w (m w).1)
      → ((a : A) → KeepsSeen (f a))
      → KeepsSeen (m >>= f)
  Kept-then m f k n w s = let (a, b) = k w in continue-Seen (m w).0 f (m w).1 n (rw (a, b) s)

  forget-Seen : {A : Type 0} (r : Result A × World x) → Seen r.1 → Seen (forget x r).1
  forget-Seen (ok a, v) s = s
  forget-Seen (err e, v) s = s

  notify-Seen : {A : Type 0} (b : A) → KeepsSeen (modify (notify_schedule_changed x) >> pure b)
  notify-Seen b w s =
      rw
        (x.redis.get_version-incr (x.redis.delete_data w.store), x.redis.get_version-delete w.store)
        (next_newer (x.redis.get_version w.store) w.last_version s)

  -- A handler that notifies the scheduler if it returns, and keeps what it has seen in any case.
  abbrev Announces : {A : Type 0} → Handler (World x) A → Type 0
  Announces m = Notifies m × KeepsSeen m

  announce-then :
      {A B : Type 0} (m : Handler (World x) A) (f : A → Handler (World x) B)
      → ((w : World x) → Kept w (m w).1)
      → ((a : A) → Announces (f a))
      → Announces (m >>= f)
  announce-then m f k n = (quiet-then m f k (λ a. (n a).0), Kept-then m f k (λ a. (n a).1))

  announce : {A : Type 0} (b : A) → Announces (modify (notify_schedule_changed x) >> pure b)
  announce b = (notify-then b, notify-Seen b)

  create_task-Announces : (c : PeriodicTask x.Json) → Announces (create_task x c)
  unfolding create_task get_task_by_name insert_task
  create_task-Announces c =
      announce-then (validate_task_exists x c.task) _ (raise_if-Kept (not (x.registered c.task)) _)
        (λ a.
          announce-then (get_task_by_name x c.name) _ (λ w. (refl, refl))
            (λ existing.
              announce-then (raise_if (is_some existing) task_exists) _
                (raise_if-Kept (is_some existing) _)
                (λ b. announce-then (insert_task x c) _ (λ w. ground arith) (λ t. announce t))))

  update_task-Announces : (i : ℕ) (u : PeriodicTaskUpdate x.Json) → Announces (update_task x i u)
  unfolding update_task
  update_task-Announces i u =
      announce-then (validate_new_task x u.task) _ (validate_new_task-Kept u.task) (λ a.
        announce-then (update_row x i u) _ (update_row-Kept i u)
          (λ found. announce-then (or_raise found _) _ (or_raise-Kept found _) (λ t. announce t)))

  delete_task-Announces : (i : ℕ) → Announces (delete_task x i)
  unfolding delete_task delete_row
  delete_task-Announces i =
      announce-then (delete_row x i) _ (λ w. (refl, refl))
        (λ deleted.
          announce-then (raise_if (not deleted) task_not_found) _ (raise_if-Kept (not deleted) _)
            (λ b. announce true))

  pub change-Notifies : (c : Change x) → Notifies (change x c)
  unfolding change
  change-Notifies (created c) w w' a h =
      let (b, e) = returned (create_task x c w) a w' h in (create_task-Announces c).0 w w' b e
  change-Notifies (edited i u) w w' a h =
      let (b, e) = returned (update_task x i u w) a w' h in (update_task-Announces i u).0 w w' b e
  change-Notifies (removed i) w w' a h =
      let (b, e) = returned (delete_task x i w) a w' h in (delete_task-Announces i).0 w w' b e

  pub change-Seen : (c : Change x) → KeepsSeen (change x c)
  unfolding change
  change-Seen (created c) w s = forget-Seen (create_task x c w) ((create_task-Announces c).1 w s)
  change-Seen (edited i u) w s =
      forget-Seen (update_task x i u w) ((update_task-Announces i u).1 w s)
  change-Seen (removed i) w s = forget-Seen (delete_task x i w) ((delete_task-Announces i).1 w s)

  pub Notified-stale :
      (w w' : World x)
      → Seen w
      → Notified w w'
      → ((n : ℕ) → x.redis.get_data w'.store n ≡ none)
        × (same_version (x.redis.get_version w'.store) w'.last_version ≡ false)
  Notified-stale w w' s (v, (st, l), e) =
      subst
        (λ (u : World x).
          ((n : ℕ) → x.redis.get_data u.store n ≡ none)
          × (same_version (x.redis.get_version u.store) u.last_version ≡ false))
        (sym e)
        (
          (λ n.
              x.redis.get_data-incr (x.redis.delete_data v.store) n
              ∙ x.redis.get_data-delete v.store n),
          ap (λ k. same_version k v.last_version)
                (x.redis.get_version-incr (x.redis.delete_data v.store)
                  ∙ ap (λ k. some (next_version k))
                      (x.redis.get_version-delete v.store ∙ ap x.redis.get_version st))
              ∙ ap (same_version (some (next_version (x.redis.get_version w.store)))) l
              ∙ same_version_newer (x.redis.get_version w.store) w.last_version s,
        )
