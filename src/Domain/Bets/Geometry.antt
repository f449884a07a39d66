-- ===== src/Domain/Bets/Geometry.antt =====
-- Which selections are figures, in terms of the grid of app/domain/roulette/table.py alone: the place
-- where a figure begins and the steps from there to its numbers.
use theclub_api.Prelude.{
  ℕ, zero, suc, ◌+◌, ◌%◌, ◌<◌, ◌≡◌, ◌⊎◌, inl, inr, refl, subst, Bool, true, false, not, ◌&&◌, ◌||◌,
  Bool-cases, List, [], ◌∷◌, arith, leb, ◌==◌, ==_iff, any, map, ℤ,
}
use theclub_api.Domain.Table.{BetType}
use theclub_api.Domain.Bets.{same_set, integers}
use theclub_api.Domain.Bets.Figures.{holds_upto, holds_upto_at}

-- A kind of figure: which numbers it can begin at, and the steps to all its numbers.
abbrev pub Kind : Type 0
Kind = (ℕ → Bool) × List ℕ

abbrev pub cells : ℕ → List ℕ → List ℕ
cells n steps = map (λ k. n + k) steps

-- The set is that of a figure of this kind, or of one of these kinds.
abbrev pub IsAt : Kind → List ℤ → Type 0
IsAt (begins, steps) ns =
    (n : ℕ) × (n < 37) × (begins n ≡ true) × (same_set ns (integers (cells n steps)) ≡ true)

abbrev pub IsOneOf : List Kind → List ℤ → Type 0
IsOneOf [] ns = ⊥
IsOneOf (kind ∷ kinds) ns = IsAt kind ns ⊎ IsOneOf kinds ns

-- On the grid a number is three less than its right neighbour and one less than its upper one; the
-- numbers of the top row are divisible by 3, and a street begins in the lowest row.
abbrev pub kinds : BetType → List Kind
kinds BetType.straight = (λ n. true, 0 ∷ []) ∷ []
kinds BetType.split =
    (λ n. leb 1 n && leb n 33, 0 ∷ 3 ∷ []) ∷ (λ n. not (n % 3 == 0), 0 ∷ 1 ∷ []) ∷ []
kinds BetType.street = (λ n. n % 3 == 1, 0 ∷ 1 ∷ 2 ∷ []) ∷ []
kinds BetType.corner = (λ n. not (n % 3 == 0) && leb n 32, 0 ∷ 1 ∷ 3 ∷ 4 ∷ []) ∷ []
kinds BetType.line = (λ n. n % 3 == 1 && leb n 31, 0 ∷ 1 ∷ 2 ∷ 3 ∷ 4 ∷ 5 ∷ []) ∷ []
kinds _ = []

abbrev eq_nats : List ℕ → List ℕ → Bool
eq_nats [] [] = true
eq_nats (x ∷ xs) (y ∷ ys) = x == y && eq_nats xs ys
eq_nats _ _ = false

eq_nats-eq : (xs ys : List ℕ) → eq_nats xs ys ≡ true → xs ≡ ys
eq_nats-eq [] [] h = refl
eq_nats-eq (x ∷ xs) (y ∷ ys) h = ground (arith, ==_iff x y, eq_nats-eq xs ys)
eq_nats-eq [] (y ∷ ys) h = absurd (cc)
eq_nats-eq (x ∷ xs) [] h = absurd (cc)

-- Every listed figure is of one of the kinds, and every figure of the kinds is listed.
abbrev is_of : List ℕ → Kind → ℕ → Bool
is_of f (begins, steps) n = begins n && eq_nats f (cells n steps)

unfoldable pub some_upto : (ℕ → Bool) → ℕ → Bool
some_upto test zero = false
some_upto test (suc k) = some_upto test k || test k

some_upto_at :
    (test : ℕ → Bool) (k : ℕ) → some_upto test k ≡ true → (n : ℕ) × (n < k) × (test n ≡ true)
unfolding some_upto
some_upto_at test zero h = absurd (cc h)
some_upto_at test (suc k) h = elim (Bool-cases (test k)) [
  | inl here ↦ (k, omega arith, here)
  | inr other ↦
      let (n, below, there) = some_upto_at test k (ground arith) in (n, omega (arith, below), there)
]

unfoldable pub known : List Kind → List ℕ → Bool
known [] f = false
known (kind ∷ kinds) f = some_upto (is_of f kind) 37 || known kinds f

abbrev listed_at : List (List ℕ) → Kind → ℕ → Bool
listed_at figures (begins, steps) n = not (begins n) || any (eq_nats (cells n steps)) figures

unfoldable pub all_listed : List (List ℕ) → List Kind → Bool
all_listed figures [] = true
all_listed figures (kind ∷ kinds) =
    holds_upto (listed_at figures kind) 37 && all_listed figures kinds

pub known-IsOneOf :
    (kinds : List Kind) (f : List ℕ) (ns : List ℤ)
    → known kinds f ≡ true
    → same_set ns (integers f) ≡ true
    → IsOneOf kinds ns
unfolding known
known-IsOneOf [] f ns h same = absurd (cc h)
known-IsOneOf ((begins, steps) ∷ kinds) f ns h same =
    elim (Bool-cases (some_upto (is_of f (begins, steps)) 37)) [
      | inl here ↦
          let (n, below, test) = some_upto_at (is_of f (begins, steps)) 37 here in
          let starts : begins n ≡ true = ground arith in
          let equal : eq_nats f (cells n steps) ≡ true = ground arith in
          inl (
            n,
            below,
            starts,
            subst (λ g. same_set ns (integers g) ≡ true) (eq_nats-eq f (cells n steps) equal) same,
          )
      | inr other ↦ inr (known-IsOneOf kinds f ns (rw other at h) same)
    ]

any-eq_nats :
    (p : List ℕ → Bool) (g : List ℕ) (figures : List (List ℕ))
    → any (eq_nats g) figures ≡ true
    → p g ≡ true
    → any p figures ≡ true
any-eq_nats p g [] h held = absurd (cc h)
any-eq_nats p g (f ∷ figures) h held = elim (Bool-cases (eq_nats g f)) [
  | inl here ↦
      let first : p f ≡ true = subst (λ x. p x ≡ true) (eq_nats-eq g f here) held in rw first refl
  | inr other ↦
      let rest = any-eq_nats p g figures (rw other at h) held in
      elim (Bool-cases (p f)) [ inl is_p ↦ rw is_p refl | inr not_p ↦ rw not_p rest ]
]

pub IsOneOf-listed :
    (kinds : List Kind) (figures : List (List ℕ)) (ns : List ℤ)
    → all_listed figures kinds ≡ true
    → IsOneOf kinds ns
    → any (λ f. same_set ns (integers f)) figures ≡ true
unfolding all_listed
IsOneOf-listed [] figures ns h one = absurd one
IsOneOf-listed ((begins, steps) ∷ kinds) figures ns h (inl (n, below, starts, same)) =
    let whole : holds_upto (listed_at figures (begins, steps)) 37 ≡ true = ground arith in
    let test : listed_at figures (begins, steps) n ≡ true =
      holds_upto_at (listed_at figures (begins, steps)) 37 n below whole in
    let there : any (eq_nats (cells n steps)) figures ≡ true = rw starts at test in
    any-eq_nats (λ f. same_set ns (integers f)) (cells n steps) figures there same
IsOneOf-listed ((begins, steps) ∷ kinds) figures ns h (inr one) =
    IsOneOf-listed kinds figures ns (ground arith) one
