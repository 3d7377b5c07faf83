-- ===== src/Roles/Tokens.antt =====
-- A change of a role logs out the users who have it.
use fastapi_asyncpg_template.Roles.Dao as RoleDao
use fastapi_asyncpg_template.Base.{
  ℕ, ◌+◌, ◌≡◌, ◌≢◌, refl, sym, ap, ◌∙◌, String, Bool, true, false, not, Option, some, none, List,
  [], ◌∷◌, map, keep, find_sound, ◌==◌, arith, inl, inr, ◌⊎◌,
}
use fastapi_asyncpg_template.Base.Http.{
  Result, ok, Handler, Raised, or_raise, raise_if, ◌>>◌, >>=-ok,
}
use fastapi_asyncpg_template.Auth.Access.{get_current_user-outdated, get_current_user-known}
use fastapi_asyncpg_template.Auth.Dependencies.{get_current_user}
use fastapi_asyncpg_template.Auth.Users.{get_by_id, user_by_id}
use fastapi_asyncpg_template.Auth.World.{User, World, Services}
use fastapi_asyncpg_template.Roles.Dao.{bumped, joined, updated_role}
use fastapi_asyncpg_template.Roles.Service.{
  role_exists, role_not_found, get_role_by_id, update_role, delete_role, name_taken,
}
use fastapi_asyncpg_template.Roles.World.{RoleData, Tables, has_role, RoleUpdate, RoleServices}

pub user_by_id-map :
    (f : User → User) (i : ℕ) (us : List User) (u : User)
    → ((u : User) → (f u).id ≡ u.id)
    → user_by_id us i ≡ some u
    → user_by_id (map f us) i ≡ some (f u)
user_by_id-map f i [] u h e = ground arith
user_by_id-map f i (v ∷ us) u h e = ground (arith, h v, user_by_id-map f i us u h)

bumped-id : (ur : List (ℕ × ℕ)) (i : ℕ) (u : User) → (bumped ur i u).id ≡ u.id
bumped-id ur i u = ground arith

state-or_raise : {S A : Type 0} (o : Option A) (e : Raised) (s : S) → (or_raise o e s).1 ≡ s
state-or_raise none e s = refl
state-or_raise (some a) e s = refl

pass_check :
    {S A : Type 0} (b : Bool) (e : Raised) (f : Handler S A) (s s' : S) (a : A)
    → (raise_if b e >> f) s ≡ (ok a, s')
    → f s ≡ (ok a, s')
pass_check true e f s s' a h = absurd (cc h)
pass_check false e f s s' a h = h

-- The user `k` of `ns` has the version after that of the user `k` of `us`.
abbrev IsBumped : List User → List User → ℕ → Type 0
IsBumped us ns k =
    (u n : User)
    → user_by_id us k ≡ some u
    → user_by_id ns k ≡ some n
    → n.token_version ≡ u.token_version + 1

bumped_version :
    (ur : List (ℕ × ℕ)) (i k : ℕ) (us : List User) (u : User)
    → has_role k i ur ≡ true
    → user_by_id us k ≡ some u
    → (bumped ur i u).token_version ≡ u.token_version + 1
bumped_version ur i k us u h e =
    let same : u.id ≡ k = ground (arith, find_sound (λ r. r.id == k) us u e) in rw (same, h) refl

pub same_user : (o : Option User) (m n : User) → o ≡ some m → o ≡ some n → n ≡ m
same_user o m n e d = cc

module _ (ur : List (ℕ × ℕ)) (i k : ℕ) (us : List User) (f : User → User)
    (h : has_role k i ur ≡ true) (g : (u : User) → (f u).id ≡ u.id)
    (d : (u : User) → (f u).token_version ≡ u.token_version) where
  bumped_before : IsBumped us (map f (map (bumped ur i) us)) k
  bumped_before u n e e' =
      let there =
        user_by_id-map f k (map (bumped ur i) us) (bumped ur i u) g
          (user_by_id-map (bumped ur i) k us u (bumped-id ur i) e) in
      let same = same_user _ (f (bumped ur i u)) n there e' in
      ap (λ (m : User). m.token_version) same ∙ d (bumped ur i u) ∙ bumped_version ur i k us u h e

  bumped_after : IsBumped us (map (bumped ur i) (map f us)) k
  bumped_after u n e e' =
      let first = user_by_id-map f k us u g e in
      let there = user_by_id-map (bumped ur i) k (map f us) (f u) (bumped-id ur i) first in
      let same = same_user _ (bumped ur i (f u)) n there e' in
      ap (λ (m : User). m.token_version) same
      ∙ bumped_version ur i k (map f us) (f u) h first
      ∙ ap (λ t. t + 1) (d u)

module _ (r : RoleServices) {S : Type 0} where
  -- A look-up of a role changes the cache only.
  get_role_by_id-keeps :
      (now i : ℕ) (t t' : Tables S r.hash.Store) (a : Result RoleData)
      → get_role_by_id r now i t ≡ (a, t')
      → (t'.world ≡ t.world) × (t'.user_roles ≡ t.user_roles)
  unfolding get_role_by_id RoleDao.get_role_by_id
  get_role_by_id-keeps now i t t' a e =
      let p = RoleDao.get_role_by_id r now i t in
      let same : t' ≡ p.1 =
        sym (ap (λ (q : Result RoleData × Tables S r.hash.Store). q.1) e)
        ∙ state-or_raise p.0 role_not_found p.1 in
      (
        ap (λ (s : Tables S r.hash.Store). s.world) same,
        ap (λ (s : Tables S r.hash.Store). s.user_roles) same,
      )

  -- An update or a deletion of the role `i` by the service that succeeds.
  abbrev pub Changes : ℕ → ℕ → Tables S r.hash.Store → Tables S r.hash.Store → Type 0
  Changes now i t t' =
      (delete_role r now i t ≡ (ok tt, t'))
      ⊎ ((c : RoleUpdate) × (d : RoleData) × (update_role r now i c t ≡ (ok d, t')))

  deleted-IsBumped :
      (i k : ℕ) (t : Tables S r.hash.Store)
      → has_role k i t.user_roles ≡ true
      → IsBumped t.world.users (RoleDao.delete_role r i t).world.users k
  unfolding RoleDao.delete_role
  deleted-IsBumped i k t h =
      bumped_before t.user_roles i k t.world.users
        (joined r (keep (λ q. not (q.id == i)) t.roles) (keep (λ p. not (p.1 == i)) t.user_roles)) h
        (λ u. refl) (λ u. refl)

  updated-IsBumped :
      (now i k : ℕ) (c : RoleUpdate) (t : Tables S r.hash.Store)
      → has_role k i t.user_roles ≡ true
      → IsBumped t.world.users (RoleDao.update_role r now i c t).1.world.users k
  unfolding RoleDao.update_role
  updated-IsBumped now i k c t h =
      bumped_after t.user_roles i k t.world.users (joined r _ t.user_roles) h (λ u. refl)
        (λ u. refl)

  carried :
      (now i k : ℕ) (t t1 t' : Tables S r.hash.Store) {t2 : Tables S r.hash.Store}
      → t1.world ≡ t.world
      → t' ≡ t2
      → IsBumped t1.world.users t2.world.users k
      → IsBumped t.world.users t'.world.users k
  carried now i k t t1 t' {t2} w last b u n e e' =
      b u n (ap (λ (x : World S). user_by_id x.users k) w ∙ e)
        (ap (λ (x : Tables S r.hash.Store). user_by_id x.world.users k) (sym last) ∙ e')

  changed-IsBumped :
      (now i k : ℕ) (t t' : Tables S r.hash.Store)
      → has_role k i t.user_roles ≡ true
      → Changes now i t t'
      → IsBumped t.world.users t'.world.users k
  unfolding delete_role update_role
  changed-IsBumped now i k t t' h (inl e) =
      let (a, t1, got, rest) = >>=-ok (get_role_by_id r now i) _ t t' tt e in
      let (w, ur) = get_role_by_id-keeps now i t t1 (ok a) got in
      let last : t' ≡ RoleDao.delete_role r i t1 =
        sym (ap (λ (q : Result (Unit {0}) × Tables S r.hash.Store). q.1) rest) in
      carried now i k t t1 t' w last (deleted-IsBumped i k t1 (ap (has_role k i) ur ∙ h))
  changed-IsBumped now i k t t' h (inr (c, d, e)) =
      let (a, t1, got, rest) = >>=-ok (get_role_by_id r now i) _ t t' d e in
      let (w, ur) = get_role_by_id-keeps now i t t1 (ok a) got in
      let last : t' ≡ (RoleDao.update_role r now i c t1).1 =
        sym (
          ap (λ (q : Result RoleData × Tables S r.hash.Store). q.1)
            (pass_check (name_taken r i c.name t1) role_exists _ t1 t' d rest))
        ∙ state-or_raise _ role_not_found _ in
      carried now i k t t1 t' w last (updated-IsBumped now i k c t1 (ap (has_role k i) ur ∙ h))

-- A token that let a user in who has a role is refused at every time after an update or a
-- deletion of that role by the service that succeeds, whatever the endpoint requires.
pub role_change-logs_out :
    (x : Services) (r : RoleServices) (t t' : Tables x.redis.Store r.hash.Store)
    (w' : World x.redis.Store) (i now before later : ℕ) (token : x.Token)
    (scopes scopes' : List String) (u v : User)
    → has_role u.id i t.user_roles ≡ true
    → get_current_user x before scopes token t.world ≡ (ok u, w')
    → Changes r now i t t'
    → (get_current_user x later scopes' token t'.world).0 ≢ ok v
unfolding get_by_id
role_change-logs_out x r t t' w' i now before later token scopes scopes' u v h e c =
    get_current_user-outdated x t.world t'.world w' before later token scopes scopes' u v
      (λ n e'.
        changed-IsBumped r now i u.id t t' h c u n
          (get_current_user-known x t.world w' before token scopes u e) e')
      e
