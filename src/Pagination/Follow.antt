-- ===== src/Pagination/Follow.antt =====
-- A client that follows the cursors of `apply_cursor_pagination`, over any list that fetches as
-- `Listing` says.
use mathlib.Core.List.{append_assoc}
use fastapi_asyncpg_template.Base.{
  ℕ, zero, suc, ◌+◌, ◌<◌, ◌≤◌, ◌≡◌, refl, sym, ap, ◌∙◌, String, true, Option, some, none, List, [],
  ◌∷◌, ◌++◌, truthy, ltb, length, take, if◌then◌else◌, arith,
}
use fastapi_asyncpg_template.Base.Http.{Result, ok, err}
use fastapi_asyncpg_template.Pagination.Page.{
  Base64, last, cursor_value, end_cursor_of, apply_cursor_pagination,
}
use fastapi_asyncpg_template.Pagination.Select.{drop}

module _ {A : Type 0} where
  take_page :
      (n : ℕ) (xs : List A)
      → (if ltb n (length (take (suc n) xs)) then take n (take (suc n) xs) else take (suc n) xs)
        ≡ take n xs
  take_page zero [] = refl
  take_page (suc n) [] = ground arith
  take_page zero (x ∷ xs) = ground arith
  take_page (suc n) (x ∷ xs) = ground (arith, take_page n xs)

  take-drop : (n : ℕ) (xs : List A) → take n xs ++ drop n xs ≡ xs
  take-drop zero xs = refl
  take-drop (suc n) [] = refl
  take-drop (suc n) (x ∷ xs) = ap (λ ys. x ∷ ys) (take-drop n xs)

  length-drop : (n : ℕ) (xs : List A) → length (drop n xs) ≤ length xs
  length-drop zero xs = omega arith
  length-drop (suc n) [] = omega arith
  length-drop (suc n) (x ∷ xs) = omega (arith, length-drop n xs)

  last-split :
      (y : A) (ys : List A)
      → (x : A) × (pre : List A) × (last (y ∷ ys) ≡ some x) × (y ∷ ys ≡ pre ++ (x ∷ []))
  last-split y [] = (y, [], refl, refl)
  last-split y (z ∷ zs) =
      let (x, pre, e, d) = last-split z zs in (x, y ∷ pre, ground arith, ap (λ ys. y ∷ ys) d)

  -- What a list promises of its rows `all`: from the start, and after a row by the row's text.
  pub record Listing (fetch : ℕ → Option String → Result (List A)) (text : A → String)
      (all : List A) : Type 0 where
    pub start : (n : ℕ) → fetch (suc n) none ≡ ok (take (suc n) all)
    pub after_row :
        (pre : List A) (x : A) (post : List A) (n : ℕ)
        → all ≡ pre ++ (x ∷ post)
        → fetch (suc n) (some (text x)) ≡ ok (take (suc n) post)
    pub text_truthy : (x : A) → truthy (text x) ≡ true

  module _ (b : Base64) (fetch : ℕ → Option String → Result (List A)) (text : A → String)
      (first : ℕ) where
    abbrev append_rest : List A → Option (List A) → Option (List A)
    append_rest items none = none
    append_rest items (some rest) = some (items ++ rest)

    -- The items of the pages from `after` on, until a page is empty; none if the fuel runs out or a
    -- page is an error.
    unfoldable pub follow : (fuel : ℕ) → (after : Option String) → Option (List A)
    follow zero after = none
    follow (suc fuel) after = elim (apply_cursor_pagination b text fetch first after none) [
      | err e ↦ none
      | ok page ↦ elim page.items [
        | [] ↦ some []
        | x ∷ xs ↦ append_rest (x ∷ xs) (follow fuel page.end_cursor)
      ]
    ]

    -- A page, where the list has `rest` from the cursor on.
    page_of :
        (after : Option String) (rest : List A)
        → ((n : ℕ) → fetch (suc n) (cursor_value b after) ≡ ok (take (suc n) rest))
        → apply_cursor_pagination b text fetch first after none
          ≡ ok (record {
            items = take first rest;
            total_count = none;
            end_cursor = end_cursor_of b text (take first rest);
          })
    unfolding apply_cursor_pagination
    page_of after rest h =
        rw
          (
            apply_cursor_pagination,
            (let e : first + 1 ≡ suc first = omega arith in e),
            h first,
            take_page first rest,
          )
          refl

    -- The cursor of a page whose last item is `x`.
    cursor_value-end :
        (items : List A) (x : A)
        → last items ≡ some x
        → truthy (text x) ≡ true
        → cursor_value b (end_cursor_of b text items) ≡ some (text x)
    unfolding cursor_value end_cursor_of
    cursor_value-end items x e t =
        ground (arith, b.encode_truthy (text x) t, b.decode-encode (text x))

  module _ (b : Base64) (fetch : ℕ → Option String → Result (List A)) (text : A → String) (m : ℕ)
      (all : List A) (l : Listing fetch text all) where
    -- The list has `rest` left from the cursor on.
    abbrev Left : Option String → List A → Type 0
    Left after rest = (n : ℕ) → fetch (suc n) (cursor_value b after) ≡ ok (take (suc n) rest)

    -- One page that is not empty, and what follows after it.
    one_page :
        (fuel : ℕ) (pre : List A) (y : A) (ys : List A) (after : Option String)
        → all ≡ pre ++ (y ∷ ys)
        → Left after (y ∷ ys)
        → ((after' : Option String)
            → Left after' (drop m ys)
            → follow b fetch text (suc m) fuel after' ≡ some (drop m ys))
        → follow b fetch text (suc m) (suc fuel) after ≡ some (y ∷ ys)
    unfolding follow
    one_page fuel pre y ys after e h ih =
        let (x, i, el, es) = last-split y (take m ys) in
        let cut : y ∷ ys ≡ i ++ (x ∷ drop m ys) =
          sym (ap (λ zs. y ∷ zs) (take-drop m ys))
          ∙ ap (λ zs. zs ++ drop m ys) es
          ∙ append_assoc i (x ∷ []) (drop m ys) in
        let whole : all ≡ (pre ++ i) ++ (x ∷ drop m ys) =
          e ∙ ap (λ zs. pre ++ zs) cut ∙ sym (append_assoc pre i (x ∷ drop m ys)) in
        let left : Left (end_cursor_of b text (y ∷ take m ys)) (drop m ys) = λ n.
          rw (cursor_value-end b fetch text (suc m) (y ∷ take m ys) x el (l.text_truthy x))
            (l.after_row (pre ++ i) x (drop m ys) n whole) in
        rw
          (
            page_of b fetch text (suc m) after (y ∷ ys) h,
            follow,
            ih (end_cursor_of b text (y ∷ take m ys)) left,
          )
          (ap (λ zs. some (y ∷ zs)) (take-drop m ys))

    follow_from :
        (fuel : ℕ) (pre rest : List A) (after : Option String)
        → all ≡ pre ++ rest
        → Left after rest
        → length rest < fuel
        → follow b fetch text (suc m) fuel after ≡ some rest
    unfolding follow
    follow_from zero pre rest after e h q = absurd (omega arith)
    follow_from (suc fuel) pre [] after e h q =
        rw (page_of b fetch text (suc m) after [] h, follow) refl
    follow_from (suc fuel) pre (y ∷ ys) after e h q =
        one_page fuel pre y ys after e h (λ after' left.
          follow_from fuel (pre ++ (y ∷ take m ys)) (drop m ys) after'
            (e
              ∙ ap (λ zs. pre ++ zs) (sym (ap (λ zs. y ∷ zs) (take-drop m ys)))
              ∙ sym (append_assoc pre (y ∷ take m ys) (drop m ys)))
            left (omega (arith, length-drop m ys)))

    pub follow-all :
        (fuel : ℕ) → length all < fuel → follow b fetch text (suc m) fuel none ≡ some all
    follow-all fuel q = follow_from fuel [] all none refl (unfold cursor_value in l.start) q
