-- ===== src/Webhooks/Kept.antt =====
-- What requests keep of the table of endpoints.
use fastapi_asyncpg_template.Base.{
  ℕ, Bool, true, false, not, Option, none, some, List, [], ◌∷◌, ◌++◌, ◌==◌, All, All-keep, All-map,
  ◌≡◌, refl, sym, subst, arith, ◌⊎◌, inl, inr, Bool-cases, Option-cases, if◌then◌else◌,
}
use fastapi_asyncpg_template.Base.Http.{Result, ok, err, Raised, or_raise, raise_if, continue, pure}
use fastapi_asyncpg_template.TwoFactor.Codes.{Text}
use fastapi_asyncpg_template.Webhooks.Endpoints.{
  Network, Environment, validate_webhook_url, WebhookEndpoint, WebhookEndpointCreate,
  WebhookEndpointUpdate, validate_create, validate_update, fits,
}
use fastapi_asyncpg_template.Webhooks.Service.{
  Endpoints, Request, not_found, create, update, delete, serve, serve_all, create_endpoint,
  update_endpoint, delete_endpoint, get_endpoint, get_endpoint_by_id, update_returning, delete_row,
  updated, new_endpoint, check_new_url,
}

unit_cases : (r : Result (Unit {0})) → (r ≡ ok tt) ⊎ ((e : Raised) × (r ≡ err e))
unit_cases (ok u) = inl refl
unit_cases (err e) = inr (e, refl)

Result-cases : {A : Type 0} (r : Result A) → ((a : A) × (r ≡ ok a)) ⊎ ((e : Raised) × (r ≡ err e))
Result-cases (ok a) = inl (a, refl)
Result-cases (err e) = inr (e, refl)

validate_update-fits :
    (c c' : WebhookEndpointUpdate) → validate_update c ≡ ok c' → fits 7 2048 c'.url ≡ true
unfolding validate_update
validate_update-fits c c' e = ground arith

continue-pure_state :
    {S A B : Type 0} (g : A → B) (r : Result A × S) → (continue r.0 (λ a. pure (g a)) r.1).1 ≡ r.1
continue-pure_state g (ok a, s) = refl
continue-pure_state g (err e, s) = refl

module _ {S : Type 0} {A : Type 0} where
  or_raise_state : (o : Option A) (e : Raised) (s : S) → (or_raise o e s).1 ≡ s
  or_raise_state none e s = refl
  or_raise_state (some a) e s = refl

raise_if_state : {S : Type 0} (b : Bool) (e : Raised) (s : S) → (raise_if b e s).1 ≡ s
raise_if_state true e s = refl
raise_if_state false e s = refl

-- A property of a row that creation gives and that an update keeps, each after its checks.
module _ (x : Network) (env : Environment) (P : WebhookEndpoint → Type 0)
    (created : (now i : ℕ) (token : Text) (by : Option ℕ) (c : WebhookEndpointCreate)
      → validate_webhook_url x env now c.url ≡ ok tt
      → P (new_endpoint now i token by c))
    (changed : (now : ℕ) (c : WebhookEndpointUpdate) (e : WebhookEndpoint)
      → fits 7 2048 c.url ≡ true
      → check_new_url x env now c.url ≡ ok tt
      → P e
      → P (updated now c e)) where
  All-append_one :
      (rows : Endpoints) (e : WebhookEndpoint) → All P rows → P e → All P (rows ++ (e ∷ []))
  All-append_one [] e a p = (p, tt)
  All-append_one (r ∷ rows) e (q, a) p = (q, All-append_one rows e a p)

  All-create_endpoint :
      (now i : ℕ) (token : Text) (by : Option ℕ) (c : WebhookEndpointCreate) (rows : Endpoints)
      → All P rows
      → All P (create_endpoint x env now i token by c rows).1
  unfolding create_endpoint
  All-create_endpoint now i token by c rows a =
      elim (unit_cases (validate_webhook_url x env now c.url)) [
        | inl y ↦
            rw y
              (All-append_one rows (new_endpoint now i token by c) a (created now i token by c y))
        | inr (e, q) ↦ rw q a
      ]

  module _ (now i : ℕ) (c : WebhookEndpointUpdate) (f : fits 7 2048 c.url ≡ true) where
    changed_if :
        (e : WebhookEndpoint)
        → check_new_url x env now c.url ≡ ok tt
        → P e
        → P (if e.id == i then updated now c e else e)
    changed_if e h g = elim (Bool-cases (e.id == i)) [
      | inl y ↦ rw y (changed now c e f h g)
      | inr o ↦ rw o g
    ]

    All-update_returning :
        (rows : Endpoints)
        → check_new_url x env now c.url ≡ ok tt
        → All P rows
        → All P (update_returning now i c rows).1
    unfolding update_returning
    All-update_returning rows y a = All-map P P _ (λ e g. changed_if e y g) rows a

    All-update_endpoint :
        (rows : Endpoints) → All P rows → All P (update_endpoint x env now i c rows).1
    unfolding update_endpoint get_endpoint update_returning
    All-update_endpoint rows a = elim (unit_cases (check_new_url x env now c.url)) [
      | inr (e, q) ↦ rw q a
      | inl y ↦ rw y (elim (Option-cases (get_endpoint_by_id i rows)) [
        | inl n ↦ rw n a
        | inr (e, q) ↦ rw q (
            subst (All P)
              (sym (
                or_raise_state (get_endpoint_by_id i (update_returning now i c rows).1) not_found
                  (update_returning now i c rows).1))
              (All-update_returning rows y a))
      ])
    ]

  All-delete_endpoint : (i : ℕ) (rows : Endpoints) → All P rows → All P (delete_endpoint i rows).1
  unfolding delete_endpoint get_endpoint delete_row
  All-delete_endpoint i rows a = elim (Option-cases (get_endpoint_by_id i rows)) [
    | inl n ↦ rw n a
    | inr (e, q) ↦ rw q (rw raise_if_state (All-keep P (λ e. not (e.id == i)) rows a))
  ]

  All-serve :
      (now : ℕ) (r : Request) (rows : Endpoints) → All P rows → All P (serve x env now r rows).1
  unfolding serve
  All-serve now (create i token by c) rows a = elim (Result-cases (validate_create c)) [
    | inr (e, q) ↦ rw q a
    | inl (c', q) ↦ rw q (
        subst (All P)
          (sym (continue-pure_state some (create_endpoint x env now i token (some by) c' rows)))
          (All-create_endpoint now i token (some by) c' rows a))
  ]
  All-serve now (update i c) rows a = elim (Result-cases (validate_update c)) [
    | inr (e, q) ↦ rw q a
    | inl (c', q) ↦ rw q (
        subst (All P) (sym (continue-pure_state some (update_endpoint x env now i c' rows)))
          (All-update_endpoint now i c' (validate_update-fits c c' q) rows a))
  ]
  All-serve now (delete i) rows a =
      subst (All P) (sym (continue-pure_state (λ u. none) (delete_endpoint i rows)))
        (All-delete_endpoint i rows a)

  pub All-serve_all :
      (rs : List (ℕ × Request)) (rows : Endpoints) → All P rows → All P (serve_all x env rs rows)
  All-serve_all [] rows a = a
  All-serve_all ((now, r) ∷ rs) rows a =
      All-serve_all rs (serve x env now r rows).1 (All-serve now r rows a)
