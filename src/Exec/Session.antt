-- ===== src/Exec/Session.antt =====
-- app/infra/db.py, `unit_of_work`: a session whose transaction may be committed before its end.
use theclub_api.Prelude.{◌≡◌, ap}
use theclub_api.Result.{Result, ok, err}
use theclub_api.Exec.{Exec}

-- the state as the session sees it, and what has been committed
pub record Session {ℓ} (S : Type ℓ) : Type ℓ where
  pub current : S
  pub committed : S

abbrev pub commit {ℓ} : {S : Type ℓ} → Exec (Session S) (Unit {ℓ})
commit s = (ok tt, record { current = s.current; committed = s.current })

module _ {ℓ} {S A : Type ℓ} where
  abbrev stepped : Session S → Result A × S → Result A × Session S
  stepped s (r, t) = (r, record s { current = t })

  -- statements in the transaction
  abbrev pub within : Exec S A → Exec (Session S) A
  within m s = stepped s (m s.current)

  abbrev pub close : Result A × Session S → Result A × S
  close (ok a, s) = (ok a, s.current)
  close (err e, s) = (err e, s.committed)

  -- `unit_of_work`: commit at the end, or go back to what was committed if anything raises
  unfoldable pub unit_of_work : Exec (Session S) A → Exec S A
  unit_of_work m s = close (m (record { current = s; committed = s }))

  -- A block of statements that returned in the session returned in the state that the session sees.
  pub within_returned :
      (m : Exec S A) (s t : Session S) (a : A)
      → within m s ≡ (ok a, t)
      → m s.current ≡ (ok a, t.current)
  within_returned m s t a h = λ i. ((h i).0, (h i).1.current)

  closed :
      (r : Result A × Session S) (t : S) (a : A)
      → close r ≡ (ok a, t)
      → (u : Session S) × (r ≡ (ok a, u)) × (u.current ≡ t)
  closed (ok b, u) t a h = (u, λ i. ((h i).0, u), ap (λ x. x.1) h)
  closed (err e, u) t a h = absurd (cc (ap (λ x. x.0) h))

  -- A unit of work that returned committed what the session saw at its end.
  pub unit_of_work_returned :
      (m : Exec (Session S) A) (s t : S) (a : A)
      → unit_of_work m s ≡ (ok a, t)
      → (u : Session S) × (m (record { current = s; committed = s }) ≡ (ok a, u)) × (u.current ≡ t)
  unfolding unit_of_work
  unit_of_work_returned m s t a h = closed _ t a h
