-- ===== src/Pagination/Order.antt =====
-- Rows with distinct ids, ordered and filtered, go down; those below a row are those after it.
use fastapi_asyncpg_template.Base.{
  ℕ, ◌<◌, ◌≡◌, ◌≢◌, refl, Bool, List, [], ◌∷◌, ◌++◌, ltb, keep, ◌&&◌, arith, Bool-cases, inl, inr,
}
use fastapi_asyncpg_template.Pagination.Select.{
  insert_desc, order_desc, Below, Desc, Fresh, Distinct,
}

module _ {A : Type 0} (id : A → ℕ) where
  Below-insert_desc :
      (k : ℕ) (x : A) (ys : List A) → id x < k → Below id k ys → Below id k (insert_desc id x ys)
  Below-insert_desc k x [] p b = (p, tt)
  Below-insert_desc k x (y ∷ ys) p b = elim (Bool-cases (ltb (id y) (id x))) [
    | inl e ↦ rw e (p, b)
    | inr e ↦ rw e (b.0, Below-insert_desc k x ys p b.1)
  ]

  Below-later : (k l : ℕ) (ys : List A) → k < l → Below id k ys → Below id l ys
  Below-later k l [] p b = tt
  Below-later k l (y ∷ ys) p b = (omega (arith, p, b.0), Below-later k l ys p b.1)

  Desc-insert_desc :
      (x : A) (ys : List A) → Fresh id (id x) ys → Desc id ys → Desc id (insert_desc id x ys)
  Desc-insert_desc x [] f d = (tt, tt)
  Desc-insert_desc x (y ∷ ys) f d = elim (Bool-cases (ltb (id y) (id x))) [
    | inl e ↦
        let p : id y < id x = ground arith in rw e ((p, Below-later (id y) (id x) ys p d.0), d)
    | inr e ↦
        let p : id x < id y = ground arith in
        rw e (Below-insert_desc (id y) x ys p d.0, Desc-insert_desc x ys f.1 d.1)
  ]

  Fresh-insert_desc :
      (k : ℕ) (x : A) (ys : List A) → id x ≢ k → Fresh id k ys → Fresh id k (insert_desc id x ys)
  Fresh-insert_desc k x [] p f = (p, tt)
  Fresh-insert_desc k x (y ∷ ys) p f = elim (Bool-cases (ltb (id y) (id x))) [
    | inl e ↦ rw e (p, f)
    | inr e ↦ rw e (f.0, Fresh-insert_desc k x ys p f.1)
  ]

  Fresh-order_desc : (k : ℕ) (xs : List A) → Fresh id k xs → Fresh id k (order_desc id xs)
  Fresh-order_desc k [] f = tt
  Fresh-order_desc k (x ∷ xs) f =
      Fresh-insert_desc k x (order_desc id xs) f.0 (Fresh-order_desc k xs f.1)

  pub Desc-order_desc : (xs : List A) → Distinct id xs → Desc id (order_desc id xs)
  Desc-order_desc [] d = tt
  Desc-order_desc (x ∷ xs) d =
      Desc-insert_desc x (order_desc id xs) (Fresh-order_desc (id x) xs d.0)
        (Desc-order_desc xs d.1)

  Below-keep : (k : ℕ) (p : A → Bool) (xs : List A) → Below id k xs → Below id k (keep p xs)
  Below-keep k p [] b = tt
  Below-keep k p (x ∷ xs) b = elim (Bool-cases (p x)) [
    | inl e ↦ rw e (b.0, Below-keep k p xs b.1)
    | inr e ↦ rw e (Below-keep k p xs b.1)
  ]

  pub Desc-keep : (p : A → Bool) (xs : List A) → Desc id xs → Desc id (keep p xs)
  Desc-keep p [] d = tt
  Desc-keep p (x ∷ xs) d = elim (Bool-cases (p x)) [
    | inl e ↦ rw e (Below-keep (id x) p xs d.0, Desc-keep p xs d.1)
    | inr e ↦ rw e (Desc-keep p xs d.1)
  ]

  pub keep-keep : (p q : A → Bool) (xs : List A) → keep (λ x. p x && q x) xs ≡ keep q (keep p xs)
  keep-keep p q [] = refl
  keep-keep p q (x ∷ xs) = ground (arith, keep-keep p q xs)

  keep-Below : (k : ℕ) (xs : List A) → Below id k xs → keep (λ r. ltb (id r) k) xs ≡ xs
  keep-Below k [] b = refl
  keep-Below k (x ∷ xs) b = ground (arith, keep-Below k xs b.1, b.0)

  Below-middle :
      (k : ℕ) (pre : List A) (x : A) (post : List A) → Below id k (pre ++ (x ∷ post)) → id x < k
  Below-middle k [] x post b = b.0
  Below-middle k (y ∷ pre) x post b = Below-middle k pre x post b.1

  -- Of rows that go down, those below the row `x` are those after it.
  pub keep-after :
      (pre : List A) (x : A) (post : List A)
      → Desc id (pre ++ (x ∷ post))
      → keep (λ r. ltb (id r) (id x)) (pre ++ (x ∷ post)) ≡ post
  keep-after [] x post d = ground (arith, keep-Below (id x) post d.0)
  keep-after (y ∷ pre) x post d =
      ground (arith, keep-after pre x post d.1, Below-middle (id y) pre x post d.0)
