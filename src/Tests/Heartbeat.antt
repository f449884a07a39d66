-- ===== src/Tests/Heartbeat.antt =====
-- A connection of a client that answers once and then falls silent. The times are in seconds.
use theclub_api.Prelude.{ℕ, ◌+◌, ◌≤◌, ◌≡◌, ◌⊎◌, refl, false, true, List, [], ◌∷◌, ◌++◌, some}
use package.text.Mathlib.Text.{◌==◌ as str_eq}
use theclub_api.Ws.Broadcaster.{put}
use theclub_api.Api.Ws.Heartbeat.{
  Frame, ping, forward, waiting, sending, Tasks, Event, passes, publishes, takes, pings, has_sent,
  hears, times_out, receiver_timed_out, created, react, run, close_reason,
}
use theclub_api.Api.Ws.Heartbeat.Timely.{clocks, run-timely}
use theclub_api.Api.Ws.Heartbeat.Ordered.{messages, in_flight, published, always_room, run-ordered}

abbrev silent : List (Event ℕ)
silent =
    publishes 7
    ∷ takes
    ∷ has_sent
    ∷ publishes 8
    ∷ takes
    ∷ has_sent
    ∷ passes 5
    ∷ hears
    ∷ passes 15
    ∷ pings
    ∷ has_sent
    ∷ passes 20
    ∷ pings
    ∷ has_sent
    ∷ passes 10
    ∷ times_out
    ∷ []

abbrev last : Tasks ℕ
last = record {
  now = 150;
  queue = [];
  sender = waiting 140;
  receiver = 105;
  sent = forward 7 ∷ forward 8 ∷ ping ∷ ping ∷ [];
  done = some receiver_timed_out;
}

silent_outcome : run 20 45 silent (created 100) ≡ some last
unfolding run react put
silent_outcome = refl

run-timely_example :
    let (now, heard, sent) = clocks silent (100, 100, 100) in
    (now ≤ heard + 45)
    × ((str_eq (close_reason last.done) "heartbeat_timeout" ≡ false) ⊎ (now ≡ heard + 45))
    × (((frame : Frame ℕ) × (last.sender ≡ sending frame)) ⊎ (now ≤ sent + 20))
run-timely_example = run-timely 20 45 100 silent last silent_outcome

silent_room : always_room 20 45 silent (created 100) ≡ true
unfolding always_room react put
silent_room = refl

run-ordered_example : messages last.sent ++ (in_flight last.sender ++ last.queue) ≡ published silent
run-ordered_example = run-ordered 20 45 100 silent last silent_outcome silent_room
