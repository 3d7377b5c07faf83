-- ===== src/WebSocket/Dict.antt =====
-- A Python dict with numbers for keys, as the list of its items.
use fastapi_asyncpg_template.Base.{
  ℕ, Option, some, none, List, [], ◌∷◌, ◌≡◌, refl, ◌==◌, if◌then◌else◌, arith,
}

module _ {V : Type 0} where
  abbrev pub lookup : ℕ → List (ℕ × V) → Option V
  lookup k [] = none
  lookup k ((j, v) ∷ d) = if j == k then some v else lookup k d

  abbrev pub put : ℕ → V → List (ℕ × V) → List (ℕ × V)
  put k v [] = (k, v) ∷ []
  put k v ((j, w) ∷ d) = let rest = put k v d in if j == k then (k, v) ∷ d else (j, w) ∷ rest

  -- del d[k]
  abbrev pub remove_key : ℕ → List (ℕ × V) → List (ℕ × V)
  remove_key k [] = []
  remove_key k ((j, w) ∷ d) = let rest = remove_key k d in if j == k then rest else (j, w) ∷ rest

  pub lookup-put :
      (j k : ℕ) (v : V) (d : List (ℕ × V))
      → lookup j (put k v d) ≡ (if k == j then some v else lookup j d)
  lookup-put j k v [] = refl
  lookup-put j k v ((i, w) ∷ d) = ground (arith, lookup-put j k v d)

  pub lookup-remove_key :
      (j k : ℕ) (d : List (ℕ × V))
      → lookup j (remove_key k d) ≡ (if k == j then none else lookup j d)
  lookup-remove_key j k [] = ground arith
  lookup-remove_key j k ((i, w) ∷ d) = ground (arith, lookup-remove_key j k d)
