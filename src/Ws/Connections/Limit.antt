-- ===== src/Ws/Connections/Limit.antt =====
-- The limit on connections, and the gauge of the active ones.
use theclub_api.Prelude.{
  ℕ, suc, ◌≤◌, ◌≡◌, refl, sym, ap, ◌∙◌, arith, ◌==◌, ==_iff, any, length, true, false, Bool-cases,
  inl, inr, List, [], ◌∷◌, leb, pos, int_laws,
}
use theclub_api.Ws.Connections.{ConnectionRegistry, try_register, unregister, close_all, discard}

-- No connection is listed twice.
abbrev pub IsDistinct : List ℕ → Type 0
IsDistinct [] = Unit
IsDistinct (x ∷ xs) = (any (λ y. y == x) xs ≡ false) × IsDistinct xs

-- The registry holds at most the maximum, and the gauge is their number.
pub record IsCounted (r : ConnectionRegistry) : Type 0 where
  pub distinct : IsDistinct r.connections
  pub few : length r.connections ≤ r.max_connections
  pub gauge : r.active ≡ pos (length r.connections)

-- What a server does with its registry; a websocket is registered once.
pub data Step : ConnectionRegistry → ConnectionRegistry → Type 0 where
  registers :
      (websocket : ℕ) (r : ConnectionRegistry)
      → any (λ y. y == websocket) r.connections ≡ false
      → Step r (try_register websocket r).1
  unregisters : (websocket : ℕ) (r : ConnectionRegistry) → Step r (unregister websocket r)
  closes : (r : ConnectionRegistry) → Step r (close_all r).1

pub data Reachable (max_connections : ℕ) : ConnectionRegistry → Type 0 where
  start :
      Reachable max_connections
        (record { max_connections = max_connections; connections = []; active = pos 0; total = 0 })
  step :
      (r r' : ConnectionRegistry)
      → Reachable max_connections r
      → Step r r'
      → Reachable max_connections r'

pub discard_absent : (x : ℕ) (xs : List ℕ) → any (λ y. y == x) xs ≡ false → discard x xs ≡ xs
discard_absent x [] h = refl
discard_absent x (y ∷ xs) h = ground (arith, discard_absent x xs)

any-discard :
    (x y : ℕ) (xs : List ℕ)
    → any (λ z. z == y) xs ≡ false
    → any (λ z. z == y) (discard x xs) ≡ false
any-discard x y [] h = refl
any-discard x y (z ∷ xs) h = ground (arith, any-discard x y xs)

discard-IsDistinct : (x : ℕ) (xs : List ℕ) → IsDistinct xs → IsDistinct (discard x xs)
discard-IsDistinct x [] h = tt
discard-IsDistinct x (y ∷ xs) h = elim (Bool-cases (y == x)) [
  | inl here ↦ rw here (discard-IsDistinct x xs h.1)
  | inr other ↦ rw other (any-discard x y xs h.0, discard-IsDistinct x xs h.1)
]

length-discard :
    (x : ℕ) (xs : List ℕ)
    → IsDistinct xs
    → any (λ y. y == x) xs ≡ true
    → suc (length (discard x xs)) ≡ length xs
length-discard x [] h there = absurd (cc)
length-discard x (y ∷ xs) h there = elim (Bool-cases (y == x)) [
  | inl here ↦
      let same : y ≡ x = (==_iff y x).0 here in
      let absent : any (λ z. z == x) xs ≡ false = ap (λ v. any (λ z. z == v) xs) (sym same) ∙ h.0 in
      rw (here, discard_absent x xs absent) refl
  | inr other ↦ rw other (ap suc (length-discard x xs h.1 (ground arith)))
]

pub Step-IsCounted : (r r' : ConnectionRegistry) → Step r r' → IsCounted r → IsCounted r'
unfolding try_register unregister close_all
Step-IsCounted r _ (registers websocket _ absent) c =
    elim (Bool-cases (leb r.max_connections (length r.connections))) [
      | inl full ↦ rw full c
      | inr room ↦
          rw (room, absent)
            (record {
              distinct = (absent, c.distinct);
              few = ground arith;
              gauge = grind (int_laws, c.gauge);
            })
    ]
Step-IsCounted r _ (unregisters websocket _) c =
    elim (Bool-cases (any (λ y. y == websocket) r.connections)) [
      | inl there ↦
          let fewer = length-discard websocket r.connections c.distinct there in
          rw there (record {
            distinct = discard-IsDistinct websocket r.connections c.distinct;
            few = omega (arith, fewer, c.few);
            gauge = grind (int_laws, fewer, c.gauge);
          })
      | inr absent ↦ rw absent c
    ]
Step-IsCounted r _ (closes _) c = record {
  distinct = tt;
  few = ground arith;
  gauge = grind (int_laws, c.gauge);
}

Step-max : (r r' : ConnectionRegistry) → Step r r' → r'.max_connections ≡ r.max_connections
unfolding try_register unregister close_all
Step-max r _ (registers websocket _ absent) = ground arith
Step-max r _ (unregisters websocket _) = ground arith
Step-max r _ (closes _) = refl

-- In every state that a registry gets into, there are at most as many connections as the maximum that
-- it was made with, none twice, and the gauge of active connections is their number.
pub Reachable-IsCounted :
    (max_connections : ℕ) (r : ConnectionRegistry)
    → Reachable max_connections r
    → IsCounted r × (r.max_connections ≡ max_connections)
Reachable-IsCounted n _ start = (record { distinct = tt; few = ground arith; gauge = refl }, refl)
Reachable-IsCounted n r' (step r _ reached moved) =
    let (counted, same) = Reachable-IsCounted n r reached in
    (Step-IsCounted r r' moved counted, Step-max r r' moved ∙ same)
