-- ===== src/Domain/Fairness/Uniform.antt =====
-- The range of `uniform_below`, and how often each value comes up.
use native.Mathlib.Nat.{div-add-mod', mod-eq_of_lt, mul-add-mod_self_right}
use theclub_api.Prelude.{
  lt→ltb, ℕ, zero, suc, ◌+◌, ◌-◌, ◌*◌, ◌/◌, ◌%◌, ◌^◌, ◌≤◌, ◌<◌, ◌≡◌, refl, ap, ◌∙◌, none, some,
  Bool, false, ◌&&◌, [], ◌∷◌, arith, ltb, ◌==◌, if◌then◌else◌,
}
use theclub_api.Domain.Fairness.{Bytes, chunk_space, scan_blocks, uniform_below}

scan_blocks-lt :
    (limit m : ℕ) (digest : Bytes) {r : ℕ} → 0 < m → scan_blocks limit m digest ≡ some r → r < m
unfolding scan_blocks
scan_blocks-lt limit m (a ∷ b ∷ c ∷ d ∷ digest) h e = grind (arith, scan_blocks-lt limit m digest)
scan_blocks-lt limit m _ h e = cc

-- A value that `uniform_below` accepts is below the modulus.
pub uniform_below-lt :
    (digest : Bytes) (m : ℕ) {r : ℕ} → 0 < m → uniform_below digest m ≡ some r → r < m
unfolding uniform_below
uniform_below-lt digest m h e = scan_blocks-lt _ m digest h e

-- How many numbers below `n` pass a test.
pub tally : (ℕ → Bool) → ℕ → ℕ
tally p zero = 0
tally p (suc n) = (if p n then 1 else 0) + tally p n

tally-cong : (p q : ℕ → Bool) (n : ℕ) → ((v : ℕ) → v < n → p v ≡ q v) → tally p n ≡ tally q n
unfolding tally
tally-cong p q zero h = refl
tally-cong p q (suc n) h =
    rw (h n (omega arith)) (omega (arith, tally-cong p q n (λ v l. h v (omega arith))))

tally-suc : (p : ℕ → Bool) (n : ℕ) → tally p (suc n) ≡ (if p n then 1 else 0) + tally p n
unfolding tally
tally-suc p n = refl

-- Numbers at or above `limit` fail the test, so they do not count.
tally_cut :
    (p : ℕ → Bool) (limit d : ℕ) → tally (λ v. ltb v limit && p v) (limit + d) ≡ tally p limit
tally_cut p limit zero =
    let e : limit + 0 ≡ limit = omega arith in
    rw e (tally-cong _ p limit (λ v l. rw (lt→ltb v limit l)))
tally_cut p limit (suc d) =
    let e : limit + suc d ≡ suc (limit + d) = omega arith in
    let off : ltb (limit + d) limit ≡ false = ground arith in
    rw (e, tally-suc, off) (omega (arith, tally_cut p limit d))

-- Among m numbers in a row from a multiple of m, each remainder occurs once.
tally_mod_row :
    (m r q s : ℕ)
    → r < m
    → s ≤ m
    → tally (λ v. v % m == r) (q * m + s)
      ≡ tally (λ v. v % m == r) (q * m) + (if ltb r s then 1 else 0)
tally_mod_row m r q zero h k = let e : q * m + 0 ≡ q * m = omega arith in rw e (ground arith)
tally_mod_row m r q (suc s) h k =
    let e : q * m + suc s ≡ suc (q * m + s) = omega arith in
    let rest : (q * m + s) % m ≡ s = mul-add-mod_self_right q m s ∙ mod-eq_of_lt k in
    rw (e, tally-suc, rest) (ground (arith, tally_mod_row m r q s h (omega arith)))

tally_mod : (m r q : ℕ) → r < m → tally (λ v. v % m == r) (q * m) ≡ q
tally_mod m r zero h = let e : 0 * m ≡ 0 = omega arith in rw e (unfold tally in refl)
tally_mod m r (suc q) h =
    let e : suc q * m ≡ q * m + m = omega arith in
    rw e (ground (arith, tally_mod_row m r q m h (omega arith), tally_mod m r q h))

-- `v.to_bytes(4, "big")`: the four bytes of a number below 2 ^ 32
abbrev pub block : ℕ → Bytes
block v = v / 2 ^ 24 ∷ v / 2 ^ 16 % 256 ∷ v / 2 ^ 8 % 256 ∷ v % 256 ∷ []

-- `uniform_below` reads the outcome `r` off this one block.
abbrev pub yields : ℕ → ℕ → ℕ → Bool
yields m r v = elim (uniform_below (block v) m) [ none ↦ false | some x ↦ x == r ]

from_bytes-block :
    (v : ℕ)
    → v / 2 ^ 24 * 2 ^ 24 + v / 2 ^ 16 % 256 * 2 ^ 16 + v / 2 ^ 8 % 256 * 2 ^ 8 + v % 256 ≡ v
from_bytes-block v = omega arith

uniform_below-block :
    (m v : ℕ)
    → uniform_below (block v) m ≡ (if ltb v (chunk_space / m * m) then some (v % m) else none)
unfolding uniform_below
uniform_below-block m v = rw (from_bytes-block v)

yields_lem : (m r v : ℕ) → yields m r v ≡ (ltb v (chunk_space / m * m) && v % m == r)
yields_lem m r v = rw (uniform_below-block m v, yields) (ground arith)

-- Of the 2 ^ 32 values that a block of four bytes can have, each outcome below the modulus is read
-- off exactly as many as any other, 2 ^ 32 / modulus.
pub uniform_below_unbiased : (m r : ℕ) → r < m → tally (yields m r) chunk_space ≡ chunk_space / m
uniform_below_unbiased m r h =
    let limit : ℕ = chunk_space / m * m in
    let e : chunk_space ≡ limit + (chunk_space - limit) =
      omega (arith, div-add-mod' chunk_space m) in
    tally-cong (yields m r) (λ v. ltb v limit && v % m == r) chunk_space (λ v _. yields_lem m r v)
    ∙ ap (tally (λ v. ltb v limit && v % m == r)) e
    ∙ tally_cut (λ v. v % m == r) limit (chunk_space - limit)
    ∙ tally_mod m r (chunk_space / m) h
