-- ===== src/Api/Ws/Heartbeat/Timely.antt =====
-- When a connection is given up, and how long a client is left without a frame.
use text.Mathlib.Text.{◌==◌ as str_eq}
use theclub_api.Prelude.{
  ℕ, ◌+◌, ◌≤◌, ◌≡◌, ◌⊎◌, refl, arith, false, Option, none, some, List, [], ◌∷◌, inl, inr,
}
use theclub_api.Api.Ws.Heartbeat.{
  Frame, Sender, waiting, sending, Done, receiver_timed_out, receiver_failed, sender_failed, Tasks,
  Event, passes, publishes, takes, pings, has_sent, cannot_send, hears, cannot_receive, times_out,
  created, react, run, run_step, close_reason,
}

-- Of a sequence of events that begins at a time: when it ends, when a client's frame last arrived, and
-- when a frame was last sent. What is asked of the beginning counts as there.
abbrev pub Clocks : Type 0
Clocks = ℕ × ℕ × ℕ

module _ {M : Type 0} where
  abbrev pub clock_event : Event M → Clocks → Clocks
  clock_event (passes d) (now, heard, sent) = (now + d, heard, sent)
  clock_event hears (now, heard, sent) = (now, now, sent)
  clock_event has_sent (now, heard, sent) = (now, heard, now)
  clock_event (publishes m) c = c
  clock_event takes c = c
  clock_event pings c = c
  clock_event cannot_send c = c
  clock_event cannot_receive c = c
  clock_event times_out c = c

  abbrev pub clocks : List (Event M) → Clocks → Clocks
  clocks [] c = c
  clocks (e ∷ es) c = clocks es (clock_event e c)

abbrev EndsRight : ℕ → Option Done → Clocks → Type 0
EndsRight timeout (some receiver_timed_out) c = c.0 ≡ c.1 + timeout
EndsRight timeout (some receiver_failed) c = Unit
EndsRight timeout (some sender_failed) c = Unit
EndsRight timeout none c = Unit

reason :
    (timeout : ℕ) (d : Option Done) (c : Clocks)
    → EndsRight timeout d c
    → (str_eq (close_reason d) "heartbeat_timeout" ≡ false) ⊎ (c.0 ≡ c.1 + timeout)
unfolding close_reason
reason timeout (some receiver_timed_out) c right = inr right
reason timeout (some receiver_failed) c right = inl refl
reason timeout (some sender_failed) c right = inl refl
reason timeout none c right = inl refl

module _ {M : Type 0} (interval timeout : ℕ) where
  abbrev IsPrompt : Sender M → Clocks → Type 0
  IsPrompt (waiting since) c = (since ≡ c.2) × (c.0 ≤ c.2 + interval)
  IsPrompt (sending frame) c = Unit

  wait :
      (s : Sender M) (c : Clocks)
      → IsPrompt s c
      → ((frame : Frame M) × (s ≡ sending frame)) ⊎ (c.0 ≤ c.2 + interval)
  wait (waiting since) c prompt = inr prompt.1
  wait (sending frame) c prompt = inl (frame, refl)

  record Inv (t : Tasks M) (c : Clocks) : Type 0 where
    now : t.now ≡ c.0
    heard : t.receiver ≡ c.1
    alive : c.0 ≤ c.1 + timeout
    prompt : IsPrompt t.sender c
    ends : EndsRight timeout t.done c

  created-Inv : (now : ℕ) → Inv (created now) (now, now, now)
  created-Inv now = ground arith

  react-Inv :
      (e : Event M) (t u : Tasks M) (c : Clocks)
      → Inv t c
      → t.done ≡ none
      → react interval timeout e t ≡ some u
      → Inv u (clock_event e c)
  unfolding react
  react-Inv (passes d) t u c inv fresh h = ground arith
  react-Inv (publishes m) t u c inv fresh h = ground arith
  react-Inv takes t u c inv fresh h = ground arith
  react-Inv pings t u c inv fresh h = ground arith
  react-Inv has_sent t u c inv fresh h = ground arith
  react-Inv cannot_send t u c inv fresh h = ground arith
  react-Inv hears t u c inv fresh h = ground arith
  react-Inv cannot_receive t u c inv fresh h = ground arith
  react-Inv times_out t u c inv fresh h = ground arith

  run-Inv :
      (es : List (Event M)) (t u : Tasks M) (c : Clocks)
      → Inv t c
      → run interval timeout es t ≡ some u
      → Inv u (clocks es c)
  unfolding run
  run-Inv [] t u c inv h = ground arith
  run-Inv (e ∷ es) t u c inv h =
      let (v, fresh, made, rest) = run_step interval timeout e es t u h in
      run-Inv es v u (clock_event e c) (react-Inv e t v c inv fresh made) rest

  -- A connection is given up in time, and not before. Whatever happens after the tasks were created: while
  -- they run, at most `timeout` has passed since the client's last frame, or the beginning; where
  -- the close is logged as a heartbeat timeout, exactly that has passed; and while `_sender` waits,
  -- at most `interval` has passed since a frame was last sent.
  pub run-timely :
      (begin : ℕ) (es : List (Event M)) (t : Tasks M)
      → run interval timeout es (created begin) ≡ some t
      → let (now, heard, sent) = clocks es (begin, begin, begin) in
        (now ≤ heard + timeout)
        × ((str_eq (close_reason t.done) "heartbeat_timeout" ≡ false) ⊎ (now ≡ heard + timeout))
        × (((frame : Frame M) × (t.sender ≡ sending frame)) ⊎ (now ≤ sent + interval))
  run-timely begin es t h =
      let c = clocks es (begin, begin, begin) in
      let inv = run-Inv es (created begin) t (begin, begin, begin) (created-Inv begin) h in
      (inv.alive, reason timeout t.done c inv.ends, wait t.sender c inv.prompt)
