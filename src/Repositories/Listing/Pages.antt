-- ===== src/Repositories/Listing/Pages.antt =====
-- How pages follow each other.
use theclub_api.Prelude.{
  ℕ, zero, suc, ◌≡◌, refl, ap, ◌∙◌, subst, arith, ◌==◌, true, false, Bool-cases, inl, inr, keep,
  take, length, none, some, List, [], ◌∷◌, ◌++◌,
}
use theclub_api.Repositories.Listing.{
  Place, is_before, is_after_cursor, insert_desc, order_desc, take, page,
}
use theclub_api.Repositories.Listing.Sorted.{
  IsApart, IsDesc, order_desc-IsDesc, order_desc-keep, cut,
}

-- A page is short and then the last one, or full, and then it ends with a row that more may follow.
pub data Cut {A : Type 0} (n : ℕ) (rows : List A) : Type 0 where
  short : (length (take n rows) == n) ≡ false → take n rows ≡ rows → Cut n rows
  full :
      (before : List A) (last : A) (after : List A)
      → (length (take n rows) == n) ≡ true
      → take n rows ≡ before ++ last ∷ []
      → rows ≡ before ++ last ∷ after
      → Cut n rows

pub cut_page : {A : Type 0} (n : ℕ) (rows : List A) → Cut (suc n) rows
cut_page n [] = short (ground arith) refl
cut_page zero (x ∷ rows) = full [] x rows (ground arith) refl refl
cut_page (suc n) (x ∷ rows) = elim (cut_page n rows) [
  | short few all ↦ short (ground (arith, few)) (ap (λ r. x ∷ r) all)
  | full before last after many here there ↦
      full (x ∷ before) last after (ground (arith, many)) (ap (λ r. x ∷ r) here)
        (ap (λ r. x ∷ r) there)
]

length-insert_desc :
    {A : Type 0} (place : A → Place) (x : A) (xs : List A)
    → length (insert_desc place x xs) ≡ suc (length xs)
unfolding insert_desc
length-insert_desc place x [] = refl
length-insert_desc place x (y ∷ ys) = elim (Bool-cases (is_before (place x) (place y))) [
  | inl newer ↦ rw newer refl
  | inr older ↦ rw older (ap suc (length-insert_desc place x ys))
]

pub length-order_desc :
    {A : Type 0} (place : A → Place) (xs : List A) → length (order_desc place xs) ≡ length xs
unfolding order_desc
length-order_desc place [] = refl
length-order_desc place (x ∷ xs) =
    length-insert_desc place x (order_desc place xs) ∙ ap suc (length-order_desc place xs)

module _ {A : Type 0} (place : A → Place) (limit : ℕ) (rows : List A)
    (apart : IsApart place rows) where
  keep-true : (xs : List A) → keep (λ _. true) xs ≡ xs
  keep-true [] = refl
  keep-true (x ∷ xs) = ap (λ r. x ∷ r) (keep-true xs)

  -- The first page begins with the newest row.
  pub page_first : page place none limit rows ≡ take limit (order_desc place rows)
  unfolding page
  page_first = ap (λ r. take limit (order_desc place r)) (keep-true rows)

  -- The page after a row begins with the row that follows it in the order.
  pub page_after :
      (xs : List A) (last : A) (rest : List A)
      → order_desc place rows ≡ xs ++ last ∷ rest
      → page place (some (place last)) limit rows ≡ take limit rest
  unfolding page
  page_after xs last rest e = ap (take limit) (
      order_desc-keep place (is_after_cursor place (some (place last))) rows apart
      ∙ ap (keep (λ x. is_before (place last) (place x))) e
      ∙ cut place xs last rest (subst (IsDesc place) e (order_desc-IsDesc place rows apart)))
