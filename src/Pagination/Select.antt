-- ===== src/Pagination/Select.antt =====
-- The rows of a statement with conditions, a cursor, ORDER BY id DESC, LIMIT and OFFSET.
use fastapi_asyncpg_template.Base.{
  ℕ, zero, suc, ◌<◌, ◌≢◌, String, Bool, Option, some, none, List, [], ◌∷◌, truthy, ltb, take, keep,
  ◌&&◌, if◌then◌else◌,
}
use fastapi_asyncpg_template.Base.Http.{Result, ok, err, error}

module _ {ℓ} {A : Type ℓ} where
  abbrev pub drop : ℕ → List A → List A
  drop zero xs = xs
  drop (suc n) [] = []
  drop (suc n) (x ∷ xs) = drop n xs

module _ {ℓ} {A : Type ℓ} (id : A → ℕ) where
  abbrev pub insert_desc : A → List A → List A
  insert_desc x [] = x ∷ []
  insert_desc x (y ∷ ys) =
      let rest = insert_desc x ys in if ltb (id y) (id x) then x ∷ y ∷ ys else y ∷ rest

  -- ORDER BY id DESC
  abbrev pub order_desc : List A → List A
  order_desc [] = []
  order_desc (x ∷ xs) = insert_desc x (order_desc xs)

  abbrev pub limited : Option ℕ → List A → List A
  limited none xs = xs
  limited (some n) xs = take n xs

  -- The statement, with the conditions `test`; the cast `$1::uuid` fails on a text that is no id.
  unfoldable pub select_page :
      (uuid : String → Option ℕ)
      → (test : A → Bool) → (limit : Option ℕ) → (cursor : Option String) → (offset : ℕ) → List A
      → Result (List A)
  select_page uuid test limit none offset rows =
      ok (limited limit (drop offset (keep test (order_desc rows))))
  select_page uuid test limit (some cursor) offset rows =
      if truthy cursor
      then (elim (uuid cursor) [
        | none ↦ err (error "DataError")
        | some c ↦
            ok (limited limit (drop offset (keep (λ r. test r && ltb (id r) c) (order_desc rows))))
      ])
      else ok (limited limit (drop offset (keep test (order_desc rows))))

  -- Every id is below `k`.
  abbrev pub Below : ℕ → List A → Type 0
  Below k [] = Unit {0}
  Below k (x ∷ xs) = (id x < k) × Below k xs

  -- The ids go down.
  abbrev pub Desc : List A → Type 0
  Desc [] = Unit {0}
  Desc (x ∷ xs) = Below (id x) xs × Desc xs

  abbrev pub Fresh : ℕ → List A → Type 0
  Fresh k [] = Unit {0}
  Fresh k (x ∷ xs) = (id x ≢ k) × Fresh k xs

  -- No two rows have one id.
  abbrev pub Distinct : List A → Type 0
  Distinct [] = Unit {0}
  Distinct (x ∷ xs) = Fresh (id x) xs × Distinct xs
