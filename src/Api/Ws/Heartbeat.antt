-- ===== src/Api/Ws/Heartbeat.antt =====
-- app/api/v1/ws.py: the tasks `_sender` and `_receiver` of one connection, from the subscription until the
-- first of them is done. What happens is a sequence of events: time passes, another task publishes, the
-- client sends a frame, a task goes on. A timer fires at its time: time cannot pass beyond it before.
pub mod Timely
pub mod Ordered
use theclub_api.Prelude.{
  ℕ, ◌≡◌, refl, ap, sym, ◌∙◌, ◌+◌, ◌==◌, Bool, true, false, ◌&&◌, leb, Option, none, some, List, [],
  ◌∷◌, ◌++◌, String, if◌then◌else◌,
}
use theclub_api.Ws.Broadcaster.{put}

-- what is sent: `{"type": "ping"}`, or a message of the queue
pub data Frame (M : Type 0) : Type 0 where
  ping : Frame M
  forward : M → Frame M

-- `_sender`: in `wait_for(queue.get(), …)` since a time, or in `send_json`
pub data Sender (M : Type 0) : Type 0 where
  waiting : ℕ → Sender M
  sending : Frame M → Sender M

-- The task that was done first: `_receiver` by TimeoutError or by another exception, or `_sender`.
pub data Done : Type 0 where
  receiver_timed_out receiver_failed sender_failed : Done

pub record Tasks (M : Type 0) : Type 0 where
  pub now : ℕ
  pub queue : List M
  pub sender : Sender M
  -- since when `_receiver` waits for a frame
  pub receiver : ℕ
  pub sent : List (Frame M)
  pub done : Option Done

pub data Event (M : Type 0) : Type 0 where
  passes : ℕ → Event M
  publishes : M → Event M
  takes pings has_sent cannot_send : Event M
  hears cannot_receive times_out : Event M

-- The tasks are created.
abbrev pub created : {M : Type 0} → ℕ → Tasks M
created now = record {
  now = now;
  queue = [];
  sender = waiting now;
  receiver = now;
  sent = [];
  done = none;
}

module _ {M : Type 0} (interval timeout : ℕ) where
  -- the timer of `_sender` allows the time
  abbrev pub may_wait : Sender M → ℕ → Bool
  may_wait (waiting since) time = leb time (since + interval)
  may_wait (sending frame) time = true

  -- `queue.get()` returned
  abbrev pub take_message : Tasks M → Sender M → List M → Option (Tasks M)
  take_message t (waiting since) (m ∷ queue) =
      some (record t { sender = sending (forward m); queue = queue })
  take_message t (waiting since) [] = none
  take_message t (sending frame) queue = none

  -- `except TimeoutError: await websocket.send_json({"type": "ping"})`
  abbrev pub send_ping : Tasks M → Sender M → List M → Option (Tasks M)
  send_ping t (waiting since) [] =
      if t.now == since + interval then some (record t { sender = sending ping }) else none
  send_ping t (waiting since) (m ∷ queue) = none
  send_ping t (sending frame) queue = none

  -- `send_json` returned, or raised
  abbrev pub finish_send : Tasks M → Sender M → Option (Tasks M)
  finish_send t (sending frame) =
      some (record t { sender = waiting t.now; sent = t.sent ++ frame ∷ [] })
  finish_send t (waiting since) = none

  abbrev pub fail_send : Tasks M → Sender M → Option (Tasks M)
  fail_send t (sending frame) = some (record t { done = some sender_failed })
  fail_send t (waiting since) = none

  -- one event while both tasks run; `none` where it cannot happen
  unfoldable pub react : Event M → Tasks M → Option (Tasks M)
  react (passes d) t =
      if leb (t.now + d) (t.receiver + timeout) && may_wait t.sender (t.now + d)
      then some (record t { now = t.now + d })
      else none
  react (publishes m) t = some (record t { queue = put m t.queue })
  react takes t = take_message t t.sender t.queue
  react pings t = send_ping t t.sender t.queue
  react has_sent t = finish_send t t.sender
  react cannot_send t = fail_send t t.sender
  react hears t = some (record t { receiver = t.now })
  react cannot_receive t = some (record t { done = some receiver_failed })
  react times_out t =
      if t.now == t.receiver + timeout
      then some (record t { done = some receiver_timed_out })
      else none

  -- nothing happens once a task is done
  abbrev pub step : Option Done → Event M → Tasks M → Option (Tasks M)
  step none e t = react e t
  step (some d) e t = none

  abbrev pub go_on : Option (Tasks M) → (Tasks M → Option (Tasks M)) → Option (Tasks M)
  go_on none rest = none
  go_on (some t) rest = rest t

  unfoldable pub run : List (Event M) → Tasks M → Option (Tasks M)
  run [] t = some t
  run (e ∷ es) t = go_on (step t.done e t) (run es)

  stepped :
      (d : Option Done) (e : Event M) (es : List (Event M)) (t u : Tasks M) (r : Option (Tasks M))
      → react e t ≡ r
      → go_on (step d e t) (run es) ≡ some u
      → (v : Tasks M) × (d ≡ none) × (react e t ≡ some v) × (run es v ≡ some u)
  stepped none e es t u (some v) made h = (v, refl, made, ap (λ r. go_on r (run es)) (sym made) ∙ h)
  stepped none e es t u none made h =
      let bad : none ≡ some u = ap (λ r. go_on r (run es)) (sym made) ∙ h in absurd (cc bad)
  stepped (some d) e es t u r made h = absurd (cc h)

  -- A run that begins with an event: the tasks were running, and the rest runs from where it left them.
  pub run_step :
      (e : Event M) (es : List (Event M)) (t u : Tasks M)
      → run (e ∷ es) t ≡ some u
      → (v : Tasks M) × (t.done ≡ none) × (react e t ≡ some v) × (run es v ≡ some u)
  unfolding run
  run_step e es t u h = stepped t.done e es t u (react e t) refl h

-- `close_reason`
unfoldable pub close_reason : Option Done → String
close_reason (some receiver_timed_out) = "heartbeat_timeout"
close_reason (some receiver_failed) = "disconnected_or_shutdown"
close_reason (some sender_failed) = "disconnected_or_shutdown"
close_reason none = "disconnected_or_shutdown"
