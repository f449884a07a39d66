-- ===== src/Ws/Broadcaster/Queues.antt =====
-- What the queues hold, and who is left subscribed.
use theclub_api.Prelude.{
  ℕ, suc, ◌-◌, ◌≤◌, ◌≡◌, refl, sym, ap, ◌∙◌, arith, ◌==◌, ==_iff, any, length, length-append, drop,
  true, false, Bool-cases, inl, inr, some, List, [], ◌∷◌, ◌++◌, leb, if◌then◌else◌,
}
use theclub_api.Rows.{
  Table, find_id, set_id, find_id-set_id, find_id-delete_id, update_id, find_id-update_id,
}
use theclub_api.Ws.Broadcaster.{
  put, put_each, publish, subscribe, unsubscribe, InMemoryBroadcaster, subscribers_of,
  queue_maxsize, discard, put_back, leave,
}

module _ {ℓ} {M : Type ℓ} where
  -- Messages put in a queue one after the other.
  abbrev pub put_all : List M → List M → List M
  put_all [] queue = queue
  put_all (m ∷ ms) queue = put_all ms (put m queue)

  -- The last messages, as many as a queue holds.
  abbrev pub latest : List M → List M
  latest messages = drop (length messages - queue_maxsize) messages

  append_nil : (xs : List M) → xs ++ [] ≡ xs
  append_nil [] = refl
  append_nil (x ∷ xs) = ap (λ l. x ∷ l) (append_nil xs)

  append_assoc : (xs : List M) (y : M) (ys : List M) → (xs ++ y ∷ []) ++ ys ≡ xs ++ y ∷ ys
  append_assoc [] y ys = refl
  append_assoc (x ∷ xs) y ys = ap (λ l. x ∷ l) (append_assoc xs y ys)

  length-put : (m : M) (q : List M) → length q ≤ queue_maxsize → length (put m q) ≤ queue_maxsize
  unfolding put
  length-put m [] h = ground arith
  length-put m (x ∷ q) h = ground (arith, length-append q (m ∷ []), length-append (x ∷ q) (m ∷ []))

  latest-put :
      (m : M) (q ms : List M)
      → length q ≤ queue_maxsize
      → latest (put m q ++ ms) ≡ latest (q ++ m ∷ ms)
  unfolding put
  latest-put m [] ms h = refl
  latest-put m (x ∷ q) ms h = elim (Bool-cases (leb queue_maxsize (length (x ∷ q)))) [
    | inl full ↦
        let l = q ++ m ∷ ms in
        let long : queue_maxsize ≤ length l = ground (arith, length-append q (m ∷ ms)) in
        let one_more : suc (length l) - queue_maxsize ≡ suc (length l - queue_maxsize) =
          ground arith in
        rw full (ap latest (append_assoc q m ms) ∙ ap (λ n. drop n (x ∷ l)) (sym one_more))
    | inr room ↦ rw room (ap (λ l. latest (x ∷ l)) (append_assoc q m ms))
  ]

  -- A queue that is not over its size, after any messages were put in it, holds the last 32 of all in
  -- their order: it is never over its size, and only the oldest are lost.
  pub put_all-latest :
      (ms queue : List M) → length queue ≤ queue_maxsize → put_all ms queue ≡ latest (queue ++ ms)
  put_all-latest [] queue h =
      let within : length queue - queue_maxsize ≡ 0 = ground arith in
      let whole : latest queue ≡ queue = ap (λ n. drop n queue) within in
      sym (ap latest (append_nil queue) ∙ whole)
  put_all-latest (m ∷ ms) queue h =
      put_all-latest ms (put m queue) (length-put m queue h) ∙ latest-put m queue ms h

  put_each_other :
      (m : M) (ids : List ℕ) (k : ℕ) (table : Table (List M))
      → any (λ q. q == k) ids ≡ false
      → find_id k (put_each m ids table) ≡ find_id k table
  unfolding put_each
  put_each_other m [] k table h = refl
  put_each_other m (q ∷ ids) k table h =
      put_each_other m ids k (update_id q (put m) table) (ground arith)
      ∙ find_id-update_id k q (put m) table
      ∙ (let other : (q == k) ≡ false = ground arith in rw other refl)

  -- A message to one user leaves every queue alone that is not subscribed for that user.
  pub publish_other :
      (user_id k : ℕ) (m : M) (b : InMemoryBroadcaster M)
      → any (λ q. q == k) (subscribers_of user_id b.subscribers) ≡ false
      → find_id k (publish user_id m b).queues ≡ find_id k b.queues
  unfolding publish
  publish_other user_id k m b h =
      put_each_other m (subscribers_of user_id b.subscribers) k b.queues h

put_back_subscribers :
    (user_id other : ℕ) (queues : List ℕ) (table : Table (List ℕ))
    → subscribers_of other (put_back user_id queues table)
      ≡ (if user_id == other then queues else subscribers_of other table)
put_back_subscribers user_id other [] table =
    rw (find_id-delete_id other user_id table) (ground arith)
put_back_subscribers user_id other (q ∷ queues) table =
    rw (find_id-set_id other user_id (q ∷ queues) table) (ground arith)

discard_absent : (x : ℕ) (xs : List ℕ) → any (λ y. y == x) xs ≡ false → discard x xs ≡ xs
discard_absent x [] h = refl
discard_absent x (y ∷ xs) h = ground (arith, discard_absent x xs)

set_subscribers :
    (user_id other : ℕ) (queues : List ℕ) (table : Table (List ℕ))
    → subscribers_of other (set_id user_id queues table)
      ≡ (if user_id == other then queues else subscribers_of other table)
set_subscribers user_id other queues table =
    rw (find_id-set_id other user_id queues table) (ground arith)

-- A client that comes and goes leaves every user with the subscribers of before, where its queue is new.
pub unsubscribe-subscribe {ℓ} :
    {M : Type ℓ} (user_id other queue : ℕ) (b : InMemoryBroadcaster M)
    → any (λ q. q == queue) (subscribers_of user_id b.subscribers) ≡ false
    → subscribers_of other (unsubscribe user_id queue (subscribe user_id queue b)).subscribers
      ≡ subscribers_of other b.subscribers
unfolding subscribe unsubscribe
unsubscribe-subscribe user_id other queue b h =
    let own = subscribers_of user_id b.subscribers in
    let table = set_id user_id (queue ∷ own) b.subscribers in
    let self : (user_id == user_id) ≡ true = ground arith in
    let itself : (queue == queue) ≡ true = ground arith in
    let found : find_id user_id table ≡ some (queue ∷ own) =
      find_id-set_id user_id user_id _ b.subscribers ∙ (rw self refl) in
    let removed : discard queue (queue ∷ own) ≡ own =
      (rw itself refl) ∙ discard_absent queue own h in
    let left : leave user_id queue (find_id user_id table) table ≡ put_back user_id own table =
      ap (λ o. leave user_id queue o table) found
      ∙ ap (λ queues. put_back user_id queues table) removed in
    rw h (
      ap (subscribers_of other) left
      ∙ put_back_subscribers user_id other own table
      ∙ elim (Bool-cases (user_id == other)) [
        | inl here ↦
            let same = (==_iff user_id other).0 here in
            (rw here refl) ∙ ap (λ u. subscribers_of u b.subscribers) same
        | inr there ↦
            (rw there refl)
            ∙ set_subscribers user_id other (queue ∷ own) b.subscribers
            ∙ (rw there refl)
      ])
