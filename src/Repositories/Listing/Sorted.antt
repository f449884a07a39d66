-- ===== src/Repositories/Listing/Sorted.antt =====
-- The order of a history, and what a cursor cuts from it.
use theclub_api.Prelude.{
  ◌≡◌, refl, sym, ap, ◌∙◌, arith, ◌==◌, Bool, true, false, ◌&&◌, keep, Bool-cases, inl, inr, List,
  [], ◌∷◌, ◌++◌, if◌then◌else◌,
}
use theclub_api.Repositories.Listing.{Place, is_before, insert_desc, order_desc}

abbrev pub same_place : Place → Place → Bool
same_place a b = a.0 == b.0 && a.1 == b.1

before_trans : (a b c : Place) → is_before a b ≡ true → is_before b c ≡ true → is_before a c ≡ true
before_trans a b c h k = ground arith

before_total : (a b : Place) → same_place a b ≡ false → is_before a b ≡ false → is_before b a ≡ true
before_total a b h k = ground arith

pub before_irrefl : (a : Place) → is_before a a ≡ false
before_irrefl a = ground arith

pub before_asym : (a b : Place) → is_before a b ≡ true → is_before b a ≡ false
before_asym a b h = ground arith

module _ {A : Type 0} (place : A → Place) where
  -- Every row is older than the place.
  abbrev pub AllBefore : Place → List A → Type 0
  AllBefore p [] = Unit
  AllBefore p (x ∷ xs) = (is_before p (place x) ≡ true) × AllBefore p xs

  -- Newest first, with no two rows at one place.
  abbrev pub IsDesc : List A → Type 0
  IsDesc [] = Unit
  IsDesc (x ∷ xs) = AllBefore (place x) xs × IsDesc xs

  abbrev pub AllApart : Place → List A → Type 0
  AllApart p [] = Unit
  AllApart p (x ∷ xs) = (same_place p (place x) ≡ false) × AllApart p xs

  -- No two rows have the same time and id.
  abbrev pub IsApart : List A → Type 0
  IsApart [] = Unit
  IsApart (x ∷ xs) = AllApart (place x) xs × IsApart xs

  AllBefore-trans :
      (p q : Place) (xs : List A) → is_before p q ≡ true → AllBefore q xs → AllBefore p xs
  AllBefore-trans p q [] h all = tt
  AllBefore-trans p q (x ∷ xs) h (first, all) =
      (before_trans p q (place x) h first, AllBefore-trans p q xs h all)

  AllBefore-insert_desc :
      (p : Place) (x : A) (xs : List A)
      → is_before p (place x) ≡ true
      → AllBefore p xs
      → AllBefore p (insert_desc place x xs)
  unfolding insert_desc
  AllBefore-insert_desc p x [] h all = (h, tt)
  AllBefore-insert_desc p x (y ∷ ys) h (first, all) =
      elim (Bool-cases (is_before (place x) (place y))) [
        | inl newer ↦ rw newer (h, (first, all))
        | inr older ↦ rw older (first, AllBefore-insert_desc p x ys h all)
      ]

  AllApart-insert_desc :
      (p : Place) (x : A) (xs : List A)
      → same_place p (place x) ≡ false
      → AllApart p xs
      → AllApart p (insert_desc place x xs)
  unfolding insert_desc
  AllApart-insert_desc p x [] h all = (h, tt)
  AllApart-insert_desc p x (y ∷ ys) h (first, all) =
      elim (Bool-cases (is_before (place x) (place y))) [
        | inl newer ↦ rw newer (h, (first, all))
        | inr older ↦ rw older (first, AllApart-insert_desc p x ys h all)
      ]

  AllApart-order_desc : (p : Place) (xs : List A) → AllApart p xs → AllApart p (order_desc place xs)
  unfolding order_desc
  AllApart-order_desc p [] h = tt
  AllApart-order_desc p (x ∷ xs) (h, all) =
      AllApart-insert_desc p x (order_desc place xs) h (AllApart-order_desc p xs all)

  insert_desc-IsDesc :
      (x : A) (xs : List A) → AllApart (place x) xs → IsDesc xs → IsDesc (insert_desc place x xs)
  unfolding insert_desc
  insert_desc-IsDesc x [] apart desc = (tt, tt)
  insert_desc-IsDesc x (y ∷ ys) (here, apart) (all, desc) =
      elim (Bool-cases (is_before (place x) (place y))) [
        | inl newer ↦
            rw newer ((newer, AllBefore-trans (place x) (place y) ys newer all), (all, desc))
        | inr older ↦ rw older (
          AllBefore-insert_desc (place y) x ys (before_total (place x) (place y) here older) all,
          insert_desc-IsDesc x ys apart desc,
        )
      ]

  pub order_desc-IsDesc : (xs : List A) → IsApart xs → IsDesc (order_desc place xs)
  unfolding order_desc
  order_desc-IsDesc [] h = tt
  order_desc-IsDesc (x ∷ xs) (apart, h) =
      insert_desc-IsDesc x (order_desc place xs) (AllApart-order_desc (place x) xs apart)
        (order_desc-IsDesc xs h)

  -- A row that is newer than all of a list comes first.
  insert_desc-front :
      (x : A) (xs : List A) → AllBefore (place x) xs → insert_desc place x xs ≡ x ∷ xs
  unfolding insert_desc
  insert_desc-front x [] h = refl
  insert_desc-front x (y ∷ ys) (h, all) = rw h refl

  AllBefore-keep :
      (p : Place) (q : A → Bool) (xs : List A) → AllBefore p xs → AllBefore p (keep q xs)
  AllBefore-keep p q [] h = tt
  AllBefore-keep p q (x ∷ xs) (h, all) = elim (Bool-cases (q x)) [
    | inl kept ↦ rw kept (h, AllBefore-keep p q xs all)
    | inr dropped ↦ rw dropped (AllBefore-keep p q xs all)
  ]

  keep-insert_desc :
      (q : A → Bool) (x : A) (xs : List A)
      → IsDesc xs
      → keep q (insert_desc place x xs)
        ≡ (if q x then insert_desc place x (keep q xs) else keep q xs)
  unfolding insert_desc
  keep-insert_desc q x [] h = refl
  keep-insert_desc q x (y ∷ ys) (all, h) = elim (Bool-cases (is_before (place x) (place y))) [
    | inl newer ↦ rw newer (
        ap (λ r. if q x then r else keep q (y ∷ ys))
          (sym (
            insert_desc-front x (keep q (y ∷ ys)) (
              AllBefore-keep (place x) q (y ∷ ys)
                (newer, AllBefore-trans (place x) (place y) ys newer all)))))
    | inr older ↦
        let inner = keep-insert_desc q x ys h in
        elim (Bool-cases (q x)) [
          | inl new_kept ↦ elim (Bool-cases (q y)) [
            | inl kept ↦ rw (older, new_kept, kept, older) (ap (λ r. y ∷ r) (rw new_kept at inner))
            | inr dropped ↦ rw (older, new_kept, dropped) (rw new_kept at inner)
          ]
          | inr new_dropped ↦ elim (Bool-cases (q y)) [
            | inl kept ↦ rw (older, new_dropped, kept) (ap (λ r. y ∷ r) (rw new_dropped at inner))
            | inr dropped ↦ rw (older, new_dropped, dropped) (rw new_dropped at inner)
          ]
        ]
  ]

  AllApart-keep : (p : Place) (q : A → Bool) (xs : List A) → AllApart p xs → AllApart p (keep q xs)
  AllApart-keep p q [] h = tt
  AllApart-keep p q (x ∷ xs) (h, all) = elim (Bool-cases (q x)) [
    | inl kept ↦ rw kept (h, AllApart-keep p q xs all)
    | inr dropped ↦ rw dropped (AllApart-keep p q xs all)
  ]

  pub IsApart-keep : (q : A → Bool) (xs : List A) → IsApart xs → IsApart (keep q xs)
  IsApart-keep q [] h = tt
  IsApart-keep q (x ∷ xs) (apart, h) = elim (Bool-cases (q x)) [
    | inl kept ↦ rw kept (AllApart-keep (place x) q xs apart, IsApart-keep q xs h)
    | inr dropped ↦ rw dropped (IsApart-keep q xs h)
  ]

  -- To keep rows and to order them may change places.
  pub order_desc-keep :
      (q : A → Bool) (xs : List A)
      → IsApart xs
      → order_desc place (keep q xs) ≡ keep q (order_desc place xs)
  unfolding order_desc
  order_desc-keep q [] h = refl
  order_desc-keep q (x ∷ xs) (apart, h) =
      let inner = order_desc-keep q xs h in
      let step = keep-insert_desc q x (order_desc place xs) (order_desc-IsDesc xs h) in
      elim (Bool-cases (q x)) [
        | inl kept ↦ rw kept (ap (insert_desc place x) inner ∙ sym (rw kept at step))
        | inr dropped ↦ rw dropped (inner ∙ sym (rw dropped at step))
      ]

  -- Of a list that is newest first, the rows before the place of one of them are those after it.
  keep_all : (p : Place) (xs : List A) → AllBefore p xs → keep (λ x. is_before p (place x)) xs ≡ xs
  keep_all p [] h = refl
  keep_all p (x ∷ xs) (h, all) = rw h (ap (λ r. x ∷ r) (keep_all p xs all))

  pub cut :
      (xs : List A) (last : A) (rest : List A)
      → IsDesc (xs ++ last ∷ rest)
      → keep (λ x. is_before (place last) (place x)) (xs ++ last ∷ rest) ≡ rest
  cut [] last rest (all, h) = rw (before_irrefl (place last)) (keep_all (place last) rest all)
  cut (x ∷ xs) last rest (all, h) =
      rw (before_asym (place x) (place last) (member xs all)) (cut xs last rest h)
    where
      member :
          (ys : List A)
          → AllBefore (place x) (ys ++ last ∷ rest)
          → is_before (place x) (place last) ≡ true
      member [] (here, _) = here
      member (y ∷ ys) (_, there) = member ys there
