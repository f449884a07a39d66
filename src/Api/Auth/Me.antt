-- ===== src/Api/Auth/Me.antt =====
-- A registration and the access token that it gives.
use theclub_api.Prelude.{◌+◌, ◌≤◌, ℕ, ◌≡◌, ap, String, some}
use theclub_api.Result.{Result, ok, err}
use Prim.Native.String.{◌++◌ as append_str}
use theclub_api.Exec.{Exec}
use theclub_api.Exec.Session.{Session}
use theclub_api.Config.{Settings}
use theclub_api.Db.{Db}
use theclub_api.World.{World, Claims, payload}
use theclub_api.World.Transactions.{begun}
use theclub_api.Services.Auth.Registered.{Registered}
use theclub_api.Api.Auth.{get_session, end_session}

module _ {A : Type 0} (w : World) where
  ended :
      (r : Result A × Session Db) (a : A) (after : Db)
      → end_session r ≡ (ok a, after)
      → (s : Session Db) × (r ≡ (ok a, s)) × (s.current ≡ after)
  ended (ok b, s) a after h = (s, λ i. ((h i).0, s), ap (λ r. r.1) h)
  ended (err e, s) a after h =
      let bad : ◌≡◌ {A = Result A} (err e) (ok a) = ap (λ r. r.0) h in absurd (cc bad)

  -- A request that returned: its handler returned in the transaction that began with it.
  pub get_session_returned :
      (handler : Exec (Session Db) A) (db after : Db) (a : A)
      → get_session w handler db ≡ (ok a, after)
      → (s : Session Db) × (handler (record { current = begun w db; committed = begun w db })
          ≡ (ok a, s))
        × (s.current ≡ after)
  unfolding get_session
  get_session_returned handler db after a h = ended _ a after h

-- A token that PyJWT has signed decodes under its secret to its payload, from the time that it was issued
-- at until a second before it expires; the times of a token are whole seconds.
abbrev pub DecodesSigned : World → Settings → Type 0
DecodesSigned w settings =
    (t : ℕ) (c : Claims)
    → c.iat ≤ t
    → t + 1000000 ≤ c.exp
    → w.jwt_decode t (w.jwt_encode c settings.jwt_secret settings.jwt_algorithm) settings.jwt_secret
        settings.jwt_algorithm
      ≡ payload (some c.sub)
