-- ===== src/Exec/Frames.antt =====
-- Statements that leave a part of the state as it was, whether they return or raise.
use theclub_api.Prelude.{◌≡◌, refl, sym, ap, ◌∙◌}
use theclub_api.Result.{Error, Result, ok, err}
use theclub_api.Exec.{Exec, pure, raise, lift, gets, continue, ◌>>=◌}

pub record Frames {ℓ} {S X A : Type ℓ} (part : S → X) (m : Exec S A) : Type ℓ where
  pub at : (s : S) → part (m s).1 ≡ part s

module _ {ℓ} {S X A : Type ℓ} {part : S → X} where
  pub Frames-pure : (a : A) → Frames part (pure {A = A} a)
  Frames-pure a = record { at = λ s. refl }

  pub Frames-raise : (e : Error) → Frames part (raise {A = A} e)
  Frames-raise e = record { at = λ s. refl }

  pub Frames-lift : (r : Result A) → Frames part (lift r)
  Frames-lift r = record { at = λ s. refl }

  pub Frames-gets : (f : S → A) → Frames part (gets f)
  Frames-gets f = record { at = λ s. refl }

-- After a run of such a statement the part is what it was.
pub framed {ℓ} :
    {S X A : Type ℓ} {part : S → X} {m : Exec S A} {s t : S} {r : Result A}
    → Frames part m
    → m s ≡ (r, t)
    → part t ≡ part s
framed {part} {s} f e = ap (λ p. part p.1) (sym e) ∙ f.at s

module _ {ℓ} {S X A B : Type ℓ} {part : S → X} where
  continue-part :
      (f : A → Exec S B)
      → ((a : A) → Frames part (f a))
      → (r : Result A × S) → part (continue r f).1 ≡ part r.1
  continue-part f kf (ok a, s) = (kf a).at s
  continue-part f kf (err e, s) = refl

  pub Frames-bind :
      (m : Exec S A) (f : A → Exec S B)
      → Frames part m
      → ((a : A) → Frames part (f a))
      → Frames part (m >>= f)
  unfolding ◌>>=◌
  Frames-bind m f km kf = record { at = λ s. continue-part f kf (m s) ∙ km.at s }

pub ruleset frames_rules = (Frames-pure, Frames-raise, Frames-lift, Frames-gets, Frames-bind)
