-- ===== src/Pagination/Listed.antt =====
-- The statements of the lists fetch as a client of the cursors expects.
use fastapi_asyncpg_template.Base.{
  ℕ, ◌≡◌, refl, ap, ◌∙◌, subst, String, Bool, true, Option, some, List, ◌∷◌, ◌++◌, truthy, keep,
  ltb, ◌&&◌,
}
use fastapi_asyncpg_template.Pagination.Follow.{Listing}
use fastapi_asyncpg_template.Pagination.Order.{Desc-order_desc, Desc-keep, keep-keep, keep-after}
use fastapi_asyncpg_template.Pagination.Select.{order_desc, select_page, Distinct, Desc}

module _ {A : Type 0} (id : A → ℕ) (uuid : String → Option ℕ) (text : ℕ → String) where
  -- Ids are written as texts that are not empty and are read back.
  pub record IsText : Type 0 where
    pub uuid-text : (i : ℕ) → uuid (text i) ≡ some i
    pub truthy-text : (i : ℕ) → truthy (text i) ≡ true

  module _ (t : IsText) (test : A → Bool) (rows : List A) (d : Distinct id rows) where
    pub select_page-Listing :
        Listing
          (λ limit cursor. select_page id uuid test (some limit) cursor 0 rows)
          (λ r. text (id r))
          (keep test (order_desc id rows))
    unfolding select_page
    select_page-Listing = record {
      start = λ n. refl;
      after_row = λ pre x post n e.
          let down : Desc id (pre ++ (x ∷ post)) =
            subst (Desc id) e
              (Desc-keep id test (order_desc id rows) (Desc-order_desc id rows d)) in
          let left : keep (λ r. test r && ltb (id r) (id x)) (order_desc id rows) ≡ post =
            keep-keep id test (λ r. ltb (id r) (id x)) (order_desc id rows)
            ∙ ap (keep (λ r. ltb (id r) (id x))) e
            ∙ keep-after id pre x post down in
          rw (t.truthy-text (id x), t.uuid-text (id x), left) refl;
      text_truthy = λ x. t.truthy-text (id x);
    }
