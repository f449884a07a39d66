-- ===== src/Exec.antt =====
-- Statements of one database session: they read and write the tables and may raise. What was written
-- before an exception is still there when it is raised; `transaction` takes it back.
pub mod Frames
pub mod Session
use theclub_api.Prelude.{◌≡◌, refl, sym, ap, ◌∙◌, Option, none, some}
use theclub_api.Result.{Error, Result, ok, err}

abbrev pub Exec {ℓ} : Type ℓ → Type ℓ → Type ℓ
Exec S A = S → Result A × S

module _ {ℓ} {S A : Type ℓ} where
  abbrev pub pure : A → Exec S A
  pure a s = (ok a, s)

  abbrev pub raise : Error → Exec S A
  raise e s = (err e, s)

  abbrev pub lift : Result A → Exec S A
  lift r s = (r, s)

  abbrev pub gets : (S → A) → Exec S A
  gets f s = (ok (f s), s)

  -- `async with session.begin()`: commit, or roll back if anything raises
  abbrev pub finish : S → Result A × S → Result A × S
  finish before (ok a, after) = (ok a, after)
  finish before (err e, after) = (err e, before)

  unfoldable pub transaction : Exec S A → Exec S A
  transaction m s = finish s (m s)

err_injective {ℓ} : {A : Type ℓ} {x y : Error} → ◌≡◌ {A = Result A} (err x) (err y) → x ≡ y
err_injective e = cc

module _ {ℓ} {S A B : Type ℓ} where
  abbrev pub continue : Result A × S → (A → Exec S B) → Result B × S
  continue (ok a, s) f = f a s
  continue (err e, s) f = (err e, s)

  infixl 5 ◌>>=◌ ◌>>◌
  unfoldable pub ◌>>=◌ : Exec S A → (A → Exec S B) → Exec S B
  ◌>>=◌ m f s = continue (m s) f

  abbrev pub ◌>>◌ : Exec S A → Exec S B → Exec S B
  m >> n = m >>= λ _. n

  -- A block that returned: its first statement returned, and so did the rest from there.
  pub bind_returned {κ} :
      {R : Type κ} (m : Exec S A) (f : A → Exec S B) (s t : S) (b : B)
      → (m >>= f) s ≡ (ok b, t)
      → ((a : A) (u : S) → m s ≡ (ok a, u) → f a u ≡ (ok b, t) → R)
      → R
  unfolding ◌>>=◌
  bind_returned {R} m f s t b h use_it = continued (m s) refl h
    where
      continued : (r : Result A × S) → m s ≡ r → continue r f ≡ (ok b, t) → R
      continued (ok a, u) e k = use_it a u e k
      continued (err x, u) e k = absurd (cc)

  -- A block that raised: its first statement did, or the rest did from where that left off.
  pub bind_raised {κ} :
      {R : Type κ} (m : Exec S A) (f : A → Exec S B) (s t : S) (x : Error)
      → (m >>= f) s ≡ (err x, t)
      → (m s ≡ (err x, t) → R)
      → ((a : A) (u : S) → m s ≡ (ok a, u) → f a u ≡ (err x, t) → R)
      → R
  unfolding ◌>>=◌
  bind_raised {R} m f s t x h at_once use_it = continued (m s) refl h
    where
      continued : (r : Result A × S) → m s ≡ r → continue r f ≡ (err x, t) → R
      continued (ok a, u) e k = use_it a u e k
      continued (err y, u) e k =
          at_once (e ∙ (λ i. (err (err_injective (ap (λ p. p.0) k) i), (k i).1)))

pub ok_injective {ℓ} : {A : Type ℓ} {a b : A} → Result.ok a ≡ ok b → a ≡ b
ok_injective e = cc

-- Two runs that returned and are equal returned the same and left the same state.
pub returned_eq {ℓ} :
    {S A : Type ℓ} {a b : A} {s t : S}
    → ◌≡◌ {A = Result A × S} (ok a, s) (ok b, t)
    → (a ≡ b) × (s ≡ t)
returned_eq h = (ok_injective (ap (λ x. x.0) h), ap (λ x. x.1) h)

-- A statement that returned goes on with what it returned, from the state that it left.
pub bind_ok {ℓ} :
    {S A B : Type ℓ} (m : Exec S A) (f : A → Exec S B) (s : S) (a : A)
    → (m s).0 ≡ ok a
    → (m >>= f) s ≡ f a (m s).1
unfolding ◌>>=◌
bind_ok m f s a h = ap (λ r. continue (r, (m s).1) f) h

-- The same, with the state that the statement left named.
pub bind_step {ℓ} :
    {S A B : Type ℓ} (m : Exec S A) (f : A → Exec S B) (s t : S) (a : A)
    → m s ≡ (ok a, t)
    → (m >>= f) s ≡ f a t
unfolding ◌>>=◌
bind_step m f s t a h = ap (λ r. continue r f) h

-- A transaction whose statement returned commits.
pub transaction_ok {ℓ} :
    {S A : Type ℓ} (m : Exec S A) (s : S) (a : A)
    → (m s).0 ≡ ok a
    → transaction m s ≡ (ok a, (m s).1)
unfolding transaction
transaction_ok m s a h = ap (λ r. finish s (r, (m s).1)) h

-- A lift that returned had a value and left the state alone.
pub lift_returned {ℓ} :
    {S A : Type ℓ} (r : Result A) (a : A) (s t : S) → lift r s ≡ (ok a, t) → (r ≡ ok a) × (t ≡ s)
lift_returned r a s t h = (ap (λ p. p.0) h, ap (λ p. p.1) (sym h))
