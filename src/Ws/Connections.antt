-- ===== src/Ws/Connections.antt =====
-- app/ws/connections.py: `ConnectionRegistry` and its two metrics. A connection is a number.
pub mod Limit
use theclub_api.Prelude.{
  ℕ, suc, ◌+◌, ◌==◌, not, any, keep, length, Bool, true, false, List, [], ◌∷◌, leb, if◌then◌else◌,
  ℤ, pos, ◌+ℤ◌, ◌-ℤ◌,
}

pub record ConnectionRegistry : Type 0 where
  pub max_connections : ℕ
  pub connections : List ℕ
  pub active : ℤ
  pub total : ℕ

abbrev add : ℕ → List ℕ → List ℕ
add x xs = if any (λ y. y == x) xs then xs else x ∷ xs

abbrev pub discard : ℕ → List ℕ → List ℕ
discard x xs = keep (λ y. not (y == x)) xs

-- `try_register`
unfoldable pub try_register : ℕ → ConnectionRegistry → Bool × ConnectionRegistry
try_register websocket r = if leb r.max_connections (length r.connections) then (false, r) else (
  true,
  record r {
    connections = add websocket r.connections;
    active = r.active +ℤ pos 1;
    total = suc r.total;
  },
)

-- `unregister`
unfoldable pub unregister : ℕ → ConnectionRegistry → ConnectionRegistry
unregister websocket r =
    if any (λ y. y == websocket) r.connections
    then record r { connections = discard websocket r.connections; active = r.active -ℤ pos 1 }
    else r

-- `close_all`, with the connections that it closes
unfoldable pub close_all : ConnectionRegistry → List ℕ × ConnectionRegistry
close_all r =
    (r.connections, record r { connections = []; active = r.active -ℤ pos (length r.connections) })
