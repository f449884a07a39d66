-- ===== src/Domain/Fairness.antt =====
-- app/domain/fairness.py: from a seed to an outcome, by HMAC and rejection sampling.
-- A string is its UTF-8 bytes and a byte a number below 256. `hmac` stands for the standard
-- library's HMAC-SHA256, `hmac key message`, and `sha256_hex` for the hexadecimal SHA-256.
pub mod Decimal
pub mod Message
pub mod Uniform
pub mod Outcome
use theclub_api.Prelude.{
  ℕ, zero, suc, ◌+◌, ◌*◌, ◌/◌, ◌%◌, ◌^◌, Option, none, some, List, [], ◌∷◌, ◌++◌, ltb, ◌==◌,
  if◌then◌else◌,
}

abbrev pub Bytes : Type 0
Bytes = List ℕ

abbrev pub seed_bytes : ℕ
seed_bytes = 32

abbrev pub chunk_size : ℕ
chunk_size = 4

abbrev pub chunk_space : ℕ
chunk_space = 2 ^ 32

pub record SeedMaterial : Type 0 where
  pub server_seed : Bytes
  pub client_seed : Bytes
  pub nonce : ℕ

-- The decimal digits of `f"{n}"`, last digit split off first; the fuel is the number itself.
digits : ℕ → ℕ → Bytes
digits zero n = []
digits (suc fuel) n =
    let front = digits fuel (n / 10) in
    if ltb n 10 then (b'0' + n) ∷ [] else front ++ (b'0' + n % 10) ∷ []

unfoldable pub decimal : ℕ → Bytes
unfolding digits
decimal n = digits (suc n) n

-- `_message`
unfoldable pub message : Bytes → ℕ → ℕ → Bytes
message client_seed nonce round_index =
    if round_index == 0
    then client_seed ++ b':' ∷ decimal nonce
    else client_seed ++ b':' ∷ (decimal nonce ++ b':' ∷ b'r' ∷ decimal round_index)

-- `int.from_bytes(block, "big")` of one block of four bytes
abbrev pub from_bytes : ℕ → ℕ → ℕ → ℕ → ℕ
from_bytes a b c d = a * 2 ^ 24 + b * 2 ^ 16 + c * 2 ^ 8 + d

-- The loop of `_uniform_below`, one block of four bytes at a time; a shorter rest is not read.
scan_blocks : ℕ → ℕ → Bytes → Option ℕ
scan_blocks limit modulus (a ∷ b ∷ c ∷ d ∷ digest) =
    let value = from_bytes a b c d in
    let rest = scan_blocks limit modulus digest in
    if ltb value limit then some (value % modulus) else rest
scan_blocks limit modulus _ = none

-- `_uniform_below`
unfoldable pub uniform_below : Bytes → ℕ → Option ℕ
unfolding scan_blocks
uniform_below digest modulus = scan_blocks (chunk_space / modulus * modulus) modulus digest

module _ (hmac : Bytes → Bytes → Bytes) where
  -- one round of the loop of `derive_outcome`
  unfoldable pub attempt : SeedMaterial → ℕ → ℕ → Option ℕ
  attempt seed modulus round_index =
      uniform_below (hmac seed.server_seed (message seed.client_seed seed.nonce round_index))
        modulus

  -- `while True`, on fuel: `none` says that the fuel ran out
  derive_from : ℕ → SeedMaterial → ℕ → ℕ → Option ℕ
  derive_from zero seed modulus round_index = none
  derive_from (suc fuel) seed modulus round_index = elim (attempt seed modulus round_index) [
    | some result ↦ some result
    | none ↦ derive_from fuel seed modulus (round_index + 1)
  ]

  -- `derive_outcome`
  unfoldable pub derive_outcome : ℕ → SeedMaterial → ℕ → Option ℕ
  unfolding derive_from
  derive_outcome fuel seed modulus = derive_from fuel seed modulus 0
