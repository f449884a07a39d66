-- ===== src/Domain/Fairness/Message.antt =====
-- Which spins share an HMAC message: `_message` read backwards.
use theclub_api.Prelude.{
  ℕ, zero, suc, ◌≡◌, refl, sym, ap, ◌∙◌, [], ◌∷◌, ◌++◌, All, arith, ◌==◌, if◌then◌else◌,
}
use theclub_api.Domain.Fairness.{Bytes, decimal, message}
use theclub_api.Domain.Fairness.Decimal.{NotColon, decimal-injective, decimal-NotColon}

abbrev until_colon : Bytes → Bytes
until_colon [] = []
until_colon (c ∷ s) = let rest = until_colon s in if c == b':' then [] else c ∷ rest

abbrev past_colon : Bytes → Bytes
past_colon [] = []
past_colon (c ∷ s) = let rest = past_colon s in if c == b':' then s else rest

until_colon-append : (s t : Bytes) → All NotColon s → until_colon (s ++ b':' ∷ t) ≡ s
until_colon-append [] t h = refl
until_colon-append (c ∷ s) t h = ground (arith, until_colon-append s t h.1)

past_colon-append : (s t : Bytes) → All NotColon s → past_colon (s ++ b':' ∷ t) ≡ t
past_colon-append [] t h = refl
past_colon-append (c ∷ s) t h = ground (arith, past_colon-append s t h.1)

until_colon_self : (s : Bytes) → All NotColon s → until_colon s ≡ s
until_colon_self [] h = refl
until_colon_self (c ∷ s) h = ground (arith, until_colon_self s h.1)

past_colon_self : (s : Bytes) → All NotColon s → past_colon s ≡ []
past_colon_self [] h = refl
past_colon_self (c ∷ s) h = ground (arith, past_colon_self s h.1)

-- what follows the client seed and its colon
abbrev tail : ℕ → ℕ → Bytes
tail nonce zero = decimal nonce
tail nonce (suc r) = decimal nonce ++ b':' ∷ b'r' ∷ decimal (suc r)

message-tail : (s : Bytes) (nonce r : ℕ) → message s nonce r ≡ s ++ b':' ∷ tail nonce r
unfolding message
message-tail s nonce zero = refl
message-tail s nonce (suc r) = ground arith

until_colon-tail : (nonce r : ℕ) → until_colon (tail nonce r) ≡ decimal nonce
until_colon-tail nonce zero = until_colon_self _ (decimal-NotColon nonce)
until_colon-tail nonce (suc r) = until_colon-append _ _ (decimal-NotColon nonce)

-- the round, from what follows the second colon
abbrev round_part : ℕ → Bytes
round_part zero = []
round_part (suc r) = b'r' ∷ decimal (suc r)

past_colon-tail : (nonce r : ℕ) → past_colon (tail nonce r) ≡ round_part r
past_colon-tail nonce zero = past_colon_self _ (decimal-NotColon nonce)
past_colon-tail nonce (suc r) = past_colon-append _ _ (decimal-NotColon nonce)

round_part-injective : (r s : ℕ) → round_part r ≡ round_part s → r ≡ s
round_part-injective zero zero e = refl
round_part-injective zero (suc s) e = cc
round_part-injective (suc r) zero e = cc
round_part-injective (suc r) (suc s) e = decimal-injective (suc r) (suc s) (cc)

-- Two messages made of client seeds that hold no colon are equal only if the client seeds, the
-- nonces and the rounds of rejection sampling are.
pub message-injective :
    (s t : Bytes) (n m r q : ℕ)
    → All NotColon s
    → All NotColon t
    → message s n r ≡ message t m q
    → (s ≡ t) × (n ≡ m) × (r ≡ q)
message-injective s t n m r q hs ht e = (
  sym (until_colon-append s _ hs) ∙ ap until_colon whole ∙ until_colon-append t _ ht,
  decimal-injective n m (sym (until_colon-tail n r) ∙ ap until_colon rests ∙ until_colon-tail m q),
  round_part-injective r q (sym (past_colon-tail n r) ∙ ap past_colon rests ∙ past_colon-tail m q),
)
  where
    whole : s ++ b':' ∷ tail n r ≡ t ++ b':' ∷ tail m q
    whole = sym (message-tail s n r) ∙ e ∙ message-tail t m q

    rests : tail n r ≡ tail m q
    rests = sym (past_colon-append s _ hs) ∙ ap past_colon whole ∙ past_colon-append t _ ht
