-- ===== src/Rows.antt =====
-- A table of rows by primary key, oldest row first, and the statements on it.
use theclub_api.Prelude.{
  All, any, Bool-cases, inl, inr, ℕ, ◌≡◌, refl, Bool, true, false, Option, none, some, List, [],
  ◌∷◌, ◌++◌, arith, ◌==◌, keep, if◌then◌else◌,
}
use mathlib.Core.Option
use theclub_api.Result.{Result, ok, err, integrity_error, multiple_results, no_result}

abbrev pub Table {ℓ} : Type ℓ → Type ℓ
Table V = List (ℕ × V)

module _ {ℓ} {V : Type ℓ} where
  -- `SELECT … WHERE id = k`
  abbrev pub find_id : ℕ → Table V → Option V
  find_id k [] = none
  find_id k ((j, v) ∷ t) = if j == k then some v else find_id k t

  -- the row with the key `k` becomes `v`; it is added at the end if there is none
  unfoldable pub set_id : ℕ → V → Table V → Table V
  set_id k v [] = (k, v) ∷ []
  set_id k v ((j, w) ∷ t) = if j == k then (k, v) ∷ t else (j, w) ∷ set_id k v t

  -- `UPDATE … SET f WHERE id = k`
  unfoldable pub update_id : ℕ → (V → V) → Table V → Table V
  update_id k f [] = []
  update_id k f ((j, v) ∷ t) = (j, if j == k then f v else v) ∷ update_id k f t

  -- `UPDATE … SET f WHERE p`
  unfoldable pub update_where : (V → Bool) → (V → V) → Table V → Table V
  update_where p f [] = []
  update_where p f ((j, v) ∷ t) = (j, if p v then f v else v) ∷ update_where p f t

  -- `DELETE … WHERE id = k`
  unfoldable pub delete_id : ℕ → Table V → Table V
  delete_id k [] = []
  delete_id k ((j, w) ∷ t) = let rest = delete_id k t in if j == k then rest else (j, w) ∷ rest

  -- `SELECT … WHERE p`
  abbrev pub select : (V → Bool) → Table V → Table V
  select p = keep (λ row. p row.1)

  -- `INSERT`: the primary key refuses a key that is there
  unfoldable pub insert_row : ℕ → V → Table V → Result (Table V)
  insert_row k v t = elim (find_id k t) [
    | none ↦ ok (t ++ (k, v) ∷ [])
    | some _ ↦ err integrity_error
  ]

  pub find_id-set_id :
      (j k : ℕ) (v : V) (t : Table V)
      → find_id j (set_id k v t) ≡ (if k == j then some v else find_id j t)
  unfolding set_id
  find_id-set_id j k v [] = refl
  find_id-set_id j k v ((i, w) ∷ t) = ground (arith, find_id-set_id j k v t)

  pub find_id-update_id :
      (j k : ℕ) (f : V → V) (t : Table V)
      → find_id j (update_id k f t) ≡ (if k == j then Option.map f (find_id j t) else find_id j t)
  unfolding update_id
  find_id-update_id j k f [] = ground arith
  find_id-update_id j k f ((i, w) ∷ t) = ground (arith, find_id-update_id j k f t)

  pub find_id-update_where :
      (j : ℕ) (p : V → Bool) (f : V → V) (t : Table V)
      → find_id j (update_where p f t) ≡ Option.map (λ v. if p v then f v else v) (find_id j t)
  unfolding update_where
  find_id-update_where j p f [] = refl
  find_id-update_where j p f ((i, w) ∷ t) = ground (arith, find_id-update_where j p f t)

  pub find_id-delete_id :
      (j k : ℕ) (t : Table V) → find_id j (delete_id k t) ≡ (if k == j then none else find_id j t)
  unfolding delete_id
  find_id-delete_id j k [] = ground arith
  find_id-delete_id j k ((i, w) ∷ t) = ground (arith, find_id-delete_id j k t)

  find_id-append_row :
      (j k : ℕ) (v : V) (t : Table V)
      → find_id k t ≡ none
      → find_id j (t ++ (k, v) ∷ []) ≡ (if k == j then some v else find_id j t)
  find_id-append_row j k v [] h = refl
  find_id-append_row j k v ((i, w) ∷ t) h = ground (arith, find_id-append_row j k v t)

  -- An insertion under a new key adds the row at the end; one under a key that is there is refused.
  pub insert_row-fresh :
      (k : ℕ) (v : V) (t : Table V) → find_id k t ≡ none → insert_row k v t ≡ ok (t ++ (k, v) ∷ [])
  unfolding insert_row
  insert_row-fresh k v t h = rw (insert_row, h) refl

  pub insert_row-clash :
      (k : ℕ) (v w : V) (t : Table V)
      → find_id k t ≡ some w
      → insert_row k v t ≡ err integrity_error
  unfolding insert_row
  insert_row-clash k v w t h = rw (insert_row, h) refl

  -- The deletion of a row that was added takes it out and leaves the others.
  pub delete_id-append_row :
      (k : ℕ) (v : V) (t : Table V) → find_id k t ≡ none → delete_id k (t ++ (k, v) ∷ []) ≡ t
  unfolding delete_id
  delete_id-append_row k v [] h = ground arith
  delete_id-append_row k v ((i, w) ∷ t) h = ground (arith, delete_id-append_row k v t)

  -- After an insertion the new row is found, and every other row as before.
  pub find_id-insert_row :
      (j k : ℕ) (v : V) (t u : Table V)
      → insert_row k v t ≡ ok u
      → (find_id k t ≡ none) × (find_id j u ≡ (if k == j then some v else find_id j t))
  unfolding insert_row
  find_id-insert_row j k v t u h = ground (arith, find_id-append_row j k v t)

-- What a selection gives after another statement.
module _ {ℓ} {V : Type ℓ} (p : V → Bool) where
  pub select_none : (rows : Table V) → any (λ row. p row.1) rows ≡ false → select p rows ≡ []
  select_none [] h = refl
  select_none (r ∷ rows) h = ground (arith, select_none rows)

  pub select-append_row :
      (rows : Table V) (r : ℕ × V)
      → select p rows ≡ []
      → p r.1 ≡ true
      → select p (rows ++ r ∷ []) ≡ r ∷ []
  select-append_row [] r h t = rw t refl
  select-append_row (o ∷ rows) r h t = elim (Bool-cases (p o.1)) [
    | inl here ↦ absurd (ground arith)
    | inr other ↦ rw other (select-append_row rows r (rw other at h) t)
  ]

  pub select-skip_row :
      (rows : Table V) (r : ℕ × V) → p r.1 ≡ false → select p (rows ++ r ∷ []) ≡ select p rows
  select-skip_row [] r h = rw h refl
  select-skip_row (o ∷ rows) r h = ground (arith, select-skip_row rows r h)

  pub select-update_id :
      (k : ℕ) (f : V → V) (rows : Table V)
      → ((v : V) → p (f v) ≡ p v)
      → select p (update_id k f rows) ≡ update_id k f (select p rows)
  unfolding update_id
  select-update_id k f [] h = refl
  select-update_id k f ((id, r) ∷ rows) h = ground (arith, h r, select-update_id k f rows h)

  pub select-delete_id :
      (k : ℕ) (rows : Table V) → select p (delete_id k rows) ≡ delete_id k (select p rows)
  unfolding delete_id
  select-delete_id k [] = refl
  select-delete_id k ((id, r) ∷ rows) = ground (arith, select-delete_id k rows)

-- No two rows have the same primary key.
abbrev pub IsKeyed {ℓ} : {V : Type ℓ} → Table V → Type ℓ
IsKeyed [] = Unit
IsKeyed ((k, v) ∷ t) = (find_id k t ≡ none) × IsKeyed t

module _ {ℓ} {V : Type ℓ} where
  pub set_id-IsKeyed : (k : ℕ) (v : V) (t : Table V) → IsKeyed t → IsKeyed (set_id k v t)
  unfolding set_id
  set_id-IsKeyed k v [] h = (refl, tt)
  set_id-IsKeyed k v ((j, w) ∷ t) h = elim (Bool-cases (j == k)) [
    | inl here ↦ rw here (ground (arith, h.0), h.1)
    | inr other ↦ rw other (ground (arith, h.0, find_id-set_id j k v t), set_id-IsKeyed k v t h.1)
  ]

  found_later :
      (k : ℕ) (v : V) (t rows : Table V)
      → find_id k t ≡ none
      → All (λ r. find_id r.0 t ≡ some r.1) rows
      → All (λ r. find_id r.0 ((k, v) ∷ t) ≡ some r.1) rows
  found_later k v t [] free h = tt
  found_later k v t ((j, w) ∷ rows) free h =
      (ground (arith, free, h.0), found_later k v t rows free h.1)

  -- Of a table whose keys are all different, every row is found by its key.
  pub find_id_rows : (t : Table V) → IsKeyed t → All (λ r. find_id r.0 t ≡ some r.1) t
  find_id_rows [] h = tt
  find_id_rows ((k, v) ∷ t) h = (ground arith, found_later k v t t h.0 (find_id_rows t h.1))

  -- Of a table whose keys are all different, the one row that a selection gives is found by its key.
  pub find_id-select :
      (p : V → Bool) (k : ℕ) (v : V) (t : Table V)
      → IsKeyed t
      → select p t ≡ (k, v) ∷ []
      → find_id k t ≡ some v
  find_id-select p k v [] h one = absurd (cc)
  find_id-select p k v ((j, w) ∷ t) h one = elim (Bool-cases (p w)) [
    | inl here ↦ ground (arith, rw here at one)
    | inr other ↦ ground (arith, h.0, find_id-select p k v t h.1 (rw other at one))
  ]

  pub select-selected :
      (p : V → Bool) (k : ℕ) (v : V) (t : Table V) → select p t ≡ (k, v) ∷ [] → p v ≡ true
  select-selected p k v [] one = absurd (cc)
  select-selected p k v ((j, w) ∷ t) one = elim (Bool-cases (p w)) [
    | inl here ↦ ground (arith, here, rw here at one)
    | inr other ↦ select-selected p k v t (rw other at one)
  ]

  any-select_none : (p : V → Bool) (t : Table V) → select p t ≡ [] → any (λ row. p row.1) t ≡ false
  any-select_none p [] none_left = refl
  any-select_none p ((j, w) ∷ t) none_left = elim (Bool-cases (p w)) [
    | inl here ↦ absurd (cc (rw here at none_left))
    | inr other ↦ rw other (any-select_none p t (rw other at none_left))
  ]

  -- Where it is written and no longer selected, none is.
  pub any-set_id :
      (p : V → Bool) (k : ℕ) (v new : V) (t : Table V)
      → IsKeyed t
      → select p t ≡ (k, v) ∷ []
      → p new ≡ false
      → any (λ row. p row.1) (set_id k new t) ≡ false
  unfolding set_id
  any-set_id p k v new [] h one gone = absurd (cc)
  any-set_id p k v new ((j, w) ∷ t) h one gone = elim (Bool-cases (p w)) [
    | inl here ↦
        let only : (j, w) ∷ select p t ≡ (k, v) ∷ [] = rw here at one in
        let last : select p t ≡ [] = cc only in ground (arith, gone, only, any-select_none p t last)
    | inr other ↦ ground (
      arith,
      other,
      h.0,
      find_id-select p k v t h.1 (rw other at one),
      any-set_id p k v new t h.1 (rw other at one) gone,
    )
  ]

  -- Where it is written and still selected, it is still the only one.
  pub select-set_id :
      (p : V → Bool) (k : ℕ) (v new : V) (t : Table V)
      → IsKeyed t
      → select p t ≡ (k, v) ∷ []
      → p new ≡ true
      → select p (set_id k new t) ≡ (k, new) ∷ []
  unfolding set_id
  select-set_id p k v new [] h one still = absurd (cc)
  select-set_id p k v new ((j, w) ∷ t) h one still = elim (Bool-cases (p w)) [
    | inl here ↦ ground (arith, rw here at one)
    | inr other ↦ ground (
      arith,
      h.0,
      find_id-select p k v t h.1 (rw other at one),
      select-set_id p k v new t h.1 (rw other at one) still,
    )
  ]

pub delete_id_own {ℓ} : {V : Type ℓ} (k : ℕ) (v : V) → delete_id k ((k, v) ∷ []) ≡ []
unfolding delete_id
delete_id_own k v = let self : (k == k) ≡ true = ground arith in rw self refl

pub update_id_own {ℓ} :
    {V : Type ℓ} (k : ℕ) (f : V → V) (v : V) → update_id k f ((k, v) ∷ []) ≡ (k, f v) ∷ []
unfolding update_id
update_id_own k f v = let self : (k == k) ≡ true = ground arith in rw self refl

-- `scalar_one_or_none()` and `scalar_one()`
abbrev pub scalar_one_or_none {ℓ} : {A : Type ℓ} → List A → Result (Option A)
scalar_one_or_none [] = ok none
scalar_one_or_none (x ∷ []) = ok (some x)
scalar_one_or_none (x ∷ y ∷ rest) = err multiple_results

abbrev pub scalar_one {ℓ} : {A : Type ℓ} → List A → Result A
scalar_one [] = err no_result
scalar_one (x ∷ []) = ok x
scalar_one (x ∷ y ∷ rest) = err multiple_results

pub scalar_one_or_none-eq-some {ℓ} :
    {A : Type ℓ} (rows : List A) (x : A) → scalar_one_or_none rows ≡ ok (some x) → rows ≡ x ∷ []
scalar_one_or_none-eq-some [] x h = absurd (cc)
scalar_one_or_none-eq-some (y ∷ []) x h = cc
scalar_one_or_none-eq-some (y ∷ z ∷ rest) x h = absurd (cc)
