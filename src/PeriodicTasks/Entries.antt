-- ===== src/PeriodicTasks/Entries.antt =====
-- What the schedule has for each row of the table.
use fastapi_asyncpg_template.Base.{
  String, Bool, true, false, Option, none, some, List, [], ◌∷◌, keep, find, str_eq, eq_iff, All,
  Any, here, there, ◌≡◌, ◌≢◌, refl, sym, ap, ◌∙◌, subst, arith, Bool-cases, inl, inr, if◌then◌else◌,
}
use fastapi_asyncpg_template.PeriodicTasks.Beat.{
  parse_schedule, assign, add_entry, new_schedule, fetch_tasks_from_db,
}
use fastapi_asyncpg_template.PeriodicTasks.World.{
  PeriodicTask, BeatServices, Schedule, ScheduleEntry,
}

not_eq : (s t : String) → s ≢ t → str_eq s t ≡ false
not_eq s t n = elim (Bool-cases (str_eq s t)) [ inl y ↦ absurd (n ((eq_iff s t).0 y)) | inr f ↦ f ]

module _ (x : BeatServices) where
  abbrev Entries : Type 0
  Entries = List (ScheduleEntry x.Json x.Cron)

  abbrev pub named :
      String → List (ScheduleEntry x.Json x.Cron) → Option (ScheduleEntry x.Json x.Cron)
  named n = find (λ e. str_eq e.name n)

  abbrev pub entry_of :
      PeriodicTask x.Json → Option (Schedule x.Cron) → Option (ScheduleEntry x.Json x.Cron)
  entry_of t none = none
  entry_of t (some s) =
      some (record { name = t.name; task = t.task; schedule = s; args = t.args; kwargs = t.kwargs })

  -- An enabled row whose schedule is parsed has an entry with its own task, schedule and arguments;
  -- other rows have none.
  abbrev pub expected : PeriodicTask x.Json → Option (ScheduleEntry x.Json x.Cron)
  expected t = if t.enabled then entry_of t (parse_schedule x t) else none

  -- The names are distinct: periodic_tasks.name is UNIQUE.
  abbrev pub Named : List (PeriodicTask x.Json) → Type 0
  Named [] = Unit {0}
  Named (t ∷ ts) = All (λ r. r.name ≢ t.name) ts × Named ts

  -- Each row has the entry that is expected, and there are no entries of other names.
  pub record Matches (rows : List (PeriodicTask x.Json)) (es : List (ScheduleEntry x.Json x.Cron))
      : Type 0 where
    pub rows_have : All (λ t. named t.name es ≡ expected t) rows
    pub no_others : All (λ e. Any (λ t. t.name ≡ e.name) rows) es

  named-assign :
      (n : String) (e : ScheduleEntry x.Json x.Cron) (es : Entries)
      → named n (assign x e es) ≡ (if str_eq e.name n then some e else named n es)
  named-assign n e [] = refl
  named-assign n e (f ∷ fs) = elim (Bool-cases (str_eq f.name e.name)) [
    | inl y ↦ rw y (ground (arith, ap (λ m. str_eq m n) ((eq_iff f.name e.name).0 y)))
    | inr o ↦ rw o (elim (Bool-cases (str_eq f.name n)) [
      | inl y ↦ rw y (ground (arith, o, y, eq_iff f.name n, eq_iff e.name n, eq_iff f.name e.name))
      | inr k ↦ rw k (named-assign n e fs)
    ])
  ]

  -- A task leaves the entries of other names alone.
  named-add_entry :
      (n : String) (t : PeriodicTask x.Json) (s : Option (Schedule x.Cron)) (es : Entries)
      → str_eq t.name n ≡ false
      → named n (add_entry x t s es) ≡ named n es
  named-add_entry n t none es h = refl
  named-add_entry n t (some s) es h = named-assign n _ es ∙ rw h refl

  named-new :
      (t : PeriodicTask x.Json) (s : Option (Schedule x.Cron)) (es : Entries)
      → named t.name es ≡ none
      → named t.name (add_entry x t s es) ≡ entry_of t s
  named-new t none es h = h
  named-new t (some s) es h = named-assign t.name _ es ∙ rw ((eq_iff t.name t.name).1 refl) refl

  -- The loop over the enabled rows.
  abbrev scheduled : List (PeriodicTask x.Json) → Entries → Entries
  scheduled rows es = new_schedule x (keep (λ t. t.enabled) rows) es

  abbrev with_row : PeriodicTask x.Json → Entries → Entries
  with_row t es = if t.enabled then add_entry x t (parse_schedule x t) es else es

  scheduled-row :
      (t : PeriodicTask x.Json) (rows : List (PeriodicTask x.Json)) (es : Entries)
      → scheduled (t ∷ rows) es ≡ scheduled rows (with_row t es)
  unfolding new_schedule
  scheduled-row t rows es = elim (Bool-cases t.enabled) [ inl y ↦ rw y refl | inr n ↦ rw n refl ]

  named-with_row :
      (n : String) (t : PeriodicTask x.Json) (es : Entries)
      → str_eq t.name n ≡ false
      → named n (with_row t es) ≡ named n es
  named-with_row n t es h = unchanged t.enabled
    where
      unchanged :
          (b : Bool)
          → named n (if b then add_entry x t (parse_schedule x t) es else es) ≡ named n es
      unchanged true = named-add_entry n t (parse_schedule x t) es h
      unchanged false = refl

  named-own :
      (t : PeriodicTask x.Json) (es : Entries)
      → named t.name es ≡ none
      → named t.name (with_row t es) ≡ expected t
  named-own t es h = own t.enabled
    where
      own :
          (b : Bool)
          → named t.name (if b then add_entry x t (parse_schedule x t) es else es)
            ≡ (if b then entry_of t (parse_schedule x t) else none)
      own true = named-new t (parse_schedule x t) es h
      own false = h

  named-scheduled :
      (n : String) (rows : List (PeriodicTask x.Json)) (es : Entries)
      → All (λ r. r.name ≢ n) rows
      → named n (scheduled rows es) ≡ named n es
  unfolding new_schedule
  named-scheduled n [] es a = refl
  named-scheduled n (t ∷ ts) es (d, a) =
      ap (named n) (scheduled-row t ts es)
      ∙ named-scheduled n ts (with_row t es) a
      ∙ named-with_row n t es (not_eq t.name n d)

  still_none :
      (t : PeriodicTask x.Json) (rows : List (PeriodicTask x.Json)) (es : Entries)
      → All (λ r. r.name ≢ t.name) rows
      → All (λ r. named r.name es ≡ none) rows
      → All (λ r. named r.name (with_row t es) ≡ none) rows
  still_none t [] es a b = tt
  still_none t (r ∷ rs) es (d, a) (e, b) = (
    named-with_row r.name t es (not_eq t.name r.name (λ q. d (sym q))) ∙ e,
    still_none t rs es a b,
  )

  scheduled-expected :
      (rows : List (PeriodicTask x.Json)) (es : Entries)
      → Named rows
      → All (λ r. named r.name es ≡ none) rows
      → All (λ t. named t.name (scheduled rows es) ≡ expected t) rows
  scheduled-expected [] es d a = tt
  scheduled-expected (t ∷ ts) es (d, ds) (e, a) =
      subst (λ fs. All (λ r. named r.name fs ≡ expected r) (t ∷ ts)) (sym (scheduled-row t ts es))
        (
          named-scheduled t.name ts (with_row t es) d ∙ named-own t es e,
          scheduled-expected ts (with_row t es) ds (still_none t ts es d a),
        )

  module _ (Q : ScheduleEntry x.Json x.Cron → Type 0) where
    All-assign :
        (e : ScheduleEntry x.Json x.Cron) (es : Entries) → Q e → All Q es → All Q (assign x e es)
    All-assign e [] q a = (q, tt)
    All-assign e (f ∷ fs) q (p, a) = elim (Bool-cases (str_eq f.name e.name)) [
      | inl y ↦ rw y (q, a)
      | inr o ↦ rw o (p, All-assign e fs q a)
    ]

    All-add_entry :
        (t : PeriodicTask x.Json) (s : Option (Schedule x.Cron)) (es : Entries)
        → ((e : ScheduleEntry x.Json x.Cron) → t.name ≡ e.name → Q e)
        → All Q es
        → All Q (add_entry x t s es)
    All-add_entry t none es k a = a
    All-add_entry t (some s) es k a = All-assign _ es (k _ refl) a

    All-scheduled :
        (rows : List (PeriodicTask x.Json)) (es : Entries)
        → ((e : ScheduleEntry x.Json x.Cron) → Any (λ t. t.name ≡ e.name) rows → Q e)
        → All Q es
        → All Q (scheduled rows es)
    unfolding new_schedule
    All-scheduled [] es k a = a
    All-scheduled (t ∷ ts) es k a =
        rw (scheduled-row t ts es)
          (All-scheduled ts (with_row t es) (λ e m. k e (there m)) (added t.enabled))
      where
        added : (b : Bool) → All Q (if b then add_entry x t (parse_schedule x t) es else es)
        added true = All-add_entry t (parse_schedule x t) es (λ e q. k e (here q)) a
        added false = a

  none-named : (rows : List (PeriodicTask x.Json)) → All (λ r. named r.name [] ≡ none) rows
  none-named [] = tt
  none-named (r ∷ rs) = (refl, none-named rs)

  -- The schedule of a table that was read.
  pub new_schedule-Matches :
      (rows : List (PeriodicTask x.Json))
      → Named rows
      → Matches rows (new_schedule x (fetch_tasks_from_db x true rows) [])
  unfolding fetch_tasks_from_db
  new_schedule-Matches rows d = record {
    rows_have = scheduled-expected rows [] d (none-named rows);
    no_others = All-scheduled (λ e. Any (λ t. t.name ≡ e.name) rows) rows [] (λ e m. m) tt;
  }
