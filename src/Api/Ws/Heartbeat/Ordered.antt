-- ===== src/Api/Ws/Heartbeat/Ordered.antt =====
-- What a client gets of the messages that were published for it.
use mathlib.Core.List.{append_assoc, append-nil}
use theclub_api.Prelude.{
  ℕ, ◌+◌, ◌≡◌, refl, ap, ◌∙◌, sym, arith, Bool, true, false, Option, none, some, List, [], ◌∷◌,
  ◌++◌, Bool-cases, inl, inr, ◌==◌, leb, ltb, ◌&&◌, length,
}
use theclub_api.Ws.Broadcaster.{put, queue_maxsize}
use theclub_api.Api.Ws.Heartbeat.{
  Frame, ping, forward, Sender, waiting, sending, Tasks, Event, passes, publishes, takes, pings,
  has_sent, cannot_send, hears, cannot_receive, times_out, created, may_wait, take_message,
  send_ping, finish_send, fail_send, react, run, run_step,
}

module _ {M : Type 0} where
  -- the messages among the frames
  abbrev pub messages : List (Frame M) → List M
  messages [] = []
  messages (ping ∷ frames) = messages frames
  messages (forward m ∷ frames) = m ∷ messages frames

  abbrev pub in_flight : Sender M → List M
  in_flight (waiting since) = []
  in_flight (sending ping) = []
  in_flight (sending (forward m)) = m ∷ []

  abbrev pub new : Event M → List M
  new (publishes m) = m ∷ []
  new (passes d) = []
  new takes = []
  new pings = []
  new has_sent = []
  new cannot_send = []
  new hears = []
  new cannot_receive = []
  new times_out = []

  abbrev pub published : List (Event M) → List M
  published [] = []
  published (e ∷ es) = new e ++ published es

  messages-append : (fs gs : List (Frame M)) → messages (fs ++ gs) ≡ messages fs ++ messages gs
  messages-append [] gs = refl
  messages-append (ping ∷ fs) gs = messages-append fs gs
  messages-append (forward m ∷ fs) gs = ap (λ ms. m ∷ ms) (messages-append fs gs)

  -- What was sent, what is being sent and what waits, in this order.
  abbrev pub line : List (Frame M) → Sender M → List M → List M
  line sent sender queue = messages sent ++ (in_flight sender ++ queue)

  abbrev pub line_of : Tasks M → List M
  line_of t = line t.sent t.sender t.queue

both : (a b : Bool) → (a && b) ≡ true → (a ≡ true) × (b ≡ true)
both true b h = (refl, h)
both false b h = absurd (cc h)

module _ {M : Type 0} (interval timeout : ℕ) where
  -- Each message was published while its queue had room.
  abbrev has_room : Event M → Tasks M → Bool
  has_room (publishes m) t = ltb (length t.queue) queue_maxsize
  has_room (passes d) t = true
  has_room takes t = true
  has_room pings t = true
  has_room has_sent t = true
  has_room cannot_send t = true
  has_room hears t = true
  has_room cannot_receive t = true
  has_room times_out t = true

  abbrev pub rest_has_room : Option (Tasks M) → (Tasks M → Bool) → Bool
  rest_has_room none rest = true
  rest_has_room (some t) rest = rest t

  unfoldable pub always_room : List (Event M) → Tasks M → Bool
  always_room [] t = true
  always_room (e ∷ es) t =
      has_room e t && rest_has_room (react interval timeout e t) (always_room es)

  line_or : Option (Tasks M) → List M
  line_or none = []
  line_or (some t) = line_of t

  same : (t u : Tasks M) → line_of t ≡ line_of u → line_of u ≡ line_of t ++ []
  same t u h = sym h ∙ sym (append-nil (line_of t))

  take-line :
      (t u : Tasks M) (s : Sender M) (queue : List M)
      → take_message interval timeout t s queue ≡ some u
      → line t.sent s queue ≡ line_of u
  unfolding line_or
  take-line t u (waiting since) (m ∷ queue) h = ap line_or h
  take-line t u (waiting since) [] h = absurd (cc h)
  take-line t u (sending frame) queue h = absurd (cc h)

  ping-line :
      (t u : Tasks M) (s : Sender M) (queue : List M)
      → t.sender ≡ s
      → t.queue ≡ queue
      → send_ping interval timeout t s queue ≡ some u
      → line_of t ≡ line_of u
  unfolding line_or
  ping-line t u (waiting since) [] es eq h = elim (Bool-cases (t.now == since + interval)) [
    | inl due ↦ ap (λ s. line t.sent s t.queue) es ∙ ap line_or (rw due at h)
    | inr early ↦ absurd (cc (rw early at h))
  ]
  ping-line t u (waiting since) (m ∷ queue) es eq h = absurd (cc h)
  ping-line t u (sending frame) queue es eq h = absurd (cc h)

  sent-line :
      (t u : Tasks M) (s : Sender M)
      → finish_send interval timeout t s ≡ some u
      → line t.sent s t.queue ≡ line_of u
  unfolding line_or
  sent-line t u (waiting since) h = absurd (cc h)
  sent-line t u (sending ping) h =
      ap (λ ms. ms ++ t.queue)
        (sym (append-nil (messages t.sent)) ∙ sym (messages-append t.sent (ping ∷ [])))
      ∙ ap line_or h
  sent-line t u (sending (forward m)) h =
      sym (append_assoc (messages t.sent) (m ∷ []) t.queue)
      ∙ ap (λ ms. ms ++ t.queue) (sym (messages-append t.sent (forward m ∷ [])))
      ∙ ap line_or h

  fail-line :
      (t u : Tasks M) (s : Sender M)
      → t.sender ≡ s
      → fail_send interval timeout t s ≡ some u
      → line_of t ≡ line_of u
  unfolding line_or
  fail-line t u (waiting since) e h = absurd (cc h)
  fail-line t u (sending frame) e h = ap line_or h

  put-room :
      (m : M) (queue : List M)
      → ltb (length queue) queue_maxsize ≡ true
      → put m queue ≡ queue ++ m ∷ []
  unfolding put
  put-room m queue h = ground arith

  react-line :
      (e : Event M) (t u : Tasks M)
      → react interval timeout e t ≡ some u
      → has_room e t ≡ true
      → line_of u ≡ line_of t ++ new e
  unfolding react line_or
  react-line (publishes m) t u h room =
      ap line_or (sym h)
      ∙ ap (line t.sent t.sender) (put-room m t.queue room)
      ∙ ap (λ ms. messages t.sent ++ ms) (sym (append_assoc (in_flight t.sender) t.queue (m ∷ [])))
      ∙ sym (append_assoc (messages t.sent) (in_flight t.sender ++ t.queue) (m ∷ []))
  react-line (passes d) t u h room =
      elim (Bool-cases (
        leb (t.now + d) (t.receiver + timeout) && may_wait interval timeout t.sender (t.now + d))) [
          | inl allowed ↦ same t u (ap line_or (rw allowed at h))
          | inr refused ↦ absurd (cc (rw refused at h))
        ]
  react-line takes t u h room = same t u (take-line t u t.sender t.queue h)
  react-line pings t u h room = same t u (ping-line t u t.sender t.queue refl refl h)
  react-line has_sent t u h room = same t u (sent-line t u t.sender h)
  react-line cannot_send t u h room = same t u (fail-line t u t.sender refl h)
  react-line hears t u h room = same t u (ap line_or h)
  react-line cannot_receive t u h room = same t u (ap line_or h)
  react-line times_out t u h room = elim (Bool-cases (t.now == t.receiver + timeout)) [
    | inl due ↦ same t u (ap line_or (rw due at h))
    | inr early ↦ absurd (cc (rw early at h))
  ]

  run-line :
      (es : List (Event M)) (t u : Tasks M)
      → run interval timeout es t ≡ some u
      → always_room es t ≡ true
      → line_of u ≡ line_of t ++ published es
  unfolding run always_room line_or
  run-line [] t u h room = ap line_or (sym h) ∙ sym (append-nil (line_of t))
  run-line (e ∷ es) t u h room =
      let (v, fresh, made, rest) = run_step interval timeout e es t u h in
      let (first, others) =
        both (has_room e t) (rest_has_room (react interval timeout e t) (always_room es)) room in
      run-line es v u rest (rw made at others)
      ∙ ap (λ ms. ms ++ published es) (react-line e t v made first)
      ∙ append_assoc (line_of t) (new e) (published es)

  -- While the queue has room for each message that is published, a client gets the messages in the order
  -- of their publication, each once and with no other but pings between: what was sent, what is being
  -- sent and what waits in the queue are together what was published.
  pub run-ordered :
      (begin : ℕ) (es : List (Event M)) (t : Tasks M)
      → run interval timeout es (created begin) ≡ some t
      → always_room es (created begin) ≡ true
      → messages t.sent ++ (in_flight t.sender ++ t.queue) ≡ published es
  run-ordered begin es t h room = run-line es (created begin) t h room
