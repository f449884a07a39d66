-- ===== src/Tests/Ws.antt =====
-- Queues and connections.
use theclub_api.Prelude.{ℕ, ◌≡◌, refl, [], ◌∷◌, ◌++◌, range_from, pos, arith}
use theclub_api.Ws.Broadcaster.{InMemoryBroadcaster}
use theclub_api.Ws.Broadcaster.Queues.{put_all, latest, put_all-latest}
use theclub_api.Ws.Connections.{ConnectionRegistry, try_register}
use theclub_api.Ws.Connections.Limit.{
  IsCounted, Reachable, registers, start, step, Reachable-IsCounted,
}

put_all-latest_example :
    put_all (33 ∷ 34 ∷ []) (range_from 1 32) ≡ latest (range_from 1 32 ++ 33 ∷ 34 ∷ [])
put_all-latest_example = put_all-latest (33 ∷ 34 ∷ []) (range_from 1 32) (ground arith)

-- user 1 listens on queues 10 and 11, user 2 on 12
abbrev broadcaster : InMemoryBroadcaster ℕ
broadcaster = record {
  subscribers = (1, 10 ∷ 11 ∷ []) ∷ (2, 12 ∷ []) ∷ [];
  queues = (10, []) ∷ (11, 5 ∷ []) ∷ (12, 6 ∷ []) ∷ [];
}

abbrev empty : ConnectionRegistry
empty = record { max_connections = 1; connections = []; active = pos 0; total = 0 }

abbrev first : ConnectionRegistry
first = (try_register 4 empty).1

first-Reachable : Reachable 1 first
first-Reachable = step empty first start (registers 4 empty refl)

Reachable-IsCounted_example : IsCounted first × (first.max_connections ≡ 1)
Reachable-IsCounted_example = Reachable-IsCounted 1 first first-Reachable
