-- ===== src/Security/Rotation.antt =====
-- Access tokens across a rotation of the signing secret.
use theclub_api.Prelude.{
  ℕ, ◌≡◌, refl, sym, ap, ◌∙◌, ◌⊎◌, inl, inr, ◌↔◌, String, Option, none, some, List, [], ◌∷◌, ◌++◌,
  All,
}
use theclub_api.Result.{
  ◌>>=◌, Result, ok, err, token_expired, or_raise-eq-ok, >>=-eq-ok as result_returned,
}
use theclub_api.World.{World, Decoded, payload, expired, invalid}
use theclub_api.Exec.{ok_injective}
use theclub_api.Security.{answer_or, user_of, try_secrets, decode_access_token}

module _ (w : World) (now : ℕ) (token algorithm : String) where
  -- The token has no valid signature under a secret.
  abbrev pub IsForeign : String → Type 0
  IsForeign secret = w.jwt_decode now token secret algorithm ≡ invalid

  decoded_cases :
      (secret : String)
      → ((sub : Option String) × (w.jwt_decode now token secret algorithm ≡ payload sub))
        ⊎ ((w.jwt_decode now token secret algorithm ≡ expired) ⊎ IsForeign secret)
  decoded_cases secret = go (w.jwt_decode now token secret algorithm) refl
    where
      go :
          (d : Decoded)
          → w.jwt_decode now token secret algorithm ≡ d
          → ((sub : Option String) × (w.jwt_decode now token secret algorithm ≡ payload sub))
            ⊎ ((w.jwt_decode now token secret algorithm ≡ expired) ⊎ IsForeign secret)
      go (payload sub) e = inl (sub, e)
      go expired e = inr (inl e)
      go invalid e = inr (inr e)

  -- The first secret that a token is not foreign to, with those before it.
  abbrev pub IsSignedBy : String → List String → Type 0
  IsSignedBy secret secrets =
      (before : List String) × (rest : List String) × (secrets ≡ before ++ secret ∷ rest)
      × All IsForeign before

  try_secrets_first :
      (secret : String) (before rest : List String)
      → All IsForeign before
      → try_secrets w now token algorithm (before ++ secret ∷ rest)
        ≡ try_secrets w now token algorithm (secret ∷ rest)
  unfolding try_secrets
  try_secrets_first secret [] rest h = refl
  try_secrets_first secret (s ∷ before) rest h =
      ap (λ d. answer_or w d (try_secrets w now token algorithm (before ++ secret ∷ rest))) h.0
      ∙ try_secrets_first secret before rest h.1

  try_secrets_found :
      (secrets : List String) (sub : Option String)
      → try_secrets w now token algorithm secrets ≡ ok sub
      → (secret : String) × IsSignedBy secret secrets
        × (w.jwt_decode now token secret algorithm ≡ payload sub)
  unfolding try_secrets
  try_secrets_found [] sub h = absurd (cc)
  try_secrets_found (s ∷ secrets) sub h = elim (decoded_cases s) [
    | inl (sub', e) ↦
        let same : Result.ok sub' ≡ ok sub =
          sym (ap (λ d. answer_or w d (try_secrets w now token algorithm secrets)) e) ∙ h in
        (s, ([], secrets, refl, tt), e ∙ ap payload (ok_injective same))
    | inr (inl e) ↦
        let bad : err token_expired ≡ ok sub =
          sym (ap (λ d. answer_or w d (try_secrets w now token algorithm secrets)) e) ∙ h in
        absurd (cc bad)
    | inr (inr e) ↦
        let (secret, (before, rest, split, foreign), found) =
          try_secrets_found secrets sub
            (sym (ap (λ d. answer_or w d (try_secrets w now token algorithm secrets)) e) ∙ h) in
        (secret, (s ∷ before, rest, ap (λ l. s ∷ l) split, (e, foreign)), found)
  ]

  -- A token is accepted for a user exactly if there is a secret, the current one or a previous one,
  -- that it decodes under to a payload that names the user, and its signature is invalid under every
  -- secret before that one.
  pub decode_access_token_iff :
      (secret : String) (previous_secrets : List String) (user_id : ℕ)
      → (decode_access_token w now token secret algorithm previous_secrets ≡ ok user_id) ↔ (
          (signer : String) × (sub : String) × IsSignedBy signer (secret ∷ previous_secrets)
          × (w.jwt_decode now token signer algorithm ≡ payload (some sub))
          × (w.parse_uuid sub ≡ some user_id))
  unfolding decode_access_token try_secrets
  decode_access_token_iff secret previous_secrets user_id = (
    λ h.
        let (sub, found, named) =
          result_returned (try_secrets w now token algorithm (secret ∷ previous_secrets)) _ h in
        let (signer, signed, decoded) = try_secrets_found (secret ∷ previous_secrets) sub found in
        named_by signer sub signed decoded named,
    λ (signer, sub, (before, rest, split, foreign), decoded, named).
        ap (λ r. r >>= user_of w)
          (ap (try_secrets w now token algorithm) split
            ∙ try_secrets_first signer before rest foreign
            ∙ ap (λ d. answer_or w d (try_secrets w now token algorithm rest)) decoded)
        ∙ (rw named refl),
  )
    where
      named_by :
          (signer : String) (sub : Option String)
          → IsSignedBy signer (secret ∷ previous_secrets)
          → w.jwt_decode now token signer algorithm ≡ payload sub
          → user_of w sub ≡ ok user_id
          → (signer : String) × (sub : String) × IsSignedBy signer (secret ∷ previous_secrets)
            × (w.jwt_decode now token signer algorithm ≡ payload (some sub))
            × (w.parse_uuid sub ≡ some user_id)
      named_by signer none signed decoded h = absurd (cc)
      named_by signer (some sub) signed decoded h =
          (signer, sub, signed, decoded, or_raise-eq-ok _ _ user_id h)
