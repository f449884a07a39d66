-- ===== src/Ws/Broadcaster.antt =====
-- app/ws/broadcaster.py: `InMemoryBroadcaster`. A queue is an object of its own, named by a number; a
-- set of queues is a list.
pub mod Queues
use theclub_api.Prelude.{
  ℕ, ◌+◌, ◌==◌, not, any, keep, length, Bool, Option, none, some, List, [], ◌∷◌, ◌++◌, leb,
  if◌then◌else◌,
}
use theclub_api.Rows.{Table, find_id, set_id, delete_id, update_id}

abbrev pub queue_maxsize : ℕ
queue_maxsize = 32

abbrev pub get_nowait {ℓ} : {M : Type ℓ} → List M → List M
get_nowait [] = []
get_nowait (m ∷ queue) = queue

-- the body of the loop of `publish`: a full queue loses its oldest message
unfoldable pub put {ℓ} : {M : Type ℓ} → M → List M → List M
put m queue =
    if leb queue_maxsize (length queue) then get_nowait queue ++ m ∷ [] else queue ++ m ∷ []

-- The subscribers of each user, and the content of each queue.
pub record InMemoryBroadcaster {ℓ} (M : Type ℓ) : Type ℓ where
  pub subscribers : Table (List ℕ)
  pub queues : Table (List M)

abbrev or_empty : Option (List ℕ) → List ℕ
or_empty none = []
or_empty (some queues) = queues

-- `self._subscribers.get(user_id, ())`
abbrev pub subscribers_of : ℕ → Table (List ℕ) → List ℕ
subscribers_of user_id table = or_empty (find_id user_id table)

abbrev add : ℕ → List ℕ → List ℕ
add queue queues = if any (λ q. q == queue) queues then queues else queue ∷ queues

abbrev pub discard : ℕ → List ℕ → List ℕ
discard queue queues = keep (λ q. not (q == queue)) queues

-- `if not subscribers: del …`
abbrev pub put_back : ℕ → List ℕ → Table (List ℕ) → Table (List ℕ)
put_back user_id [] table = delete_id user_id table
put_back user_id (q ∷ queues) table = set_id user_id (q ∷ queues) table

abbrev pub leave : ℕ → ℕ → Option (List ℕ) → Table (List ℕ) → Table (List ℕ)
leave user_id queue none table = table
leave user_id queue (some queues) table = put_back user_id (discard queue queues) table

module _ {ℓ} {M : Type ℓ} where
  unfoldable pub put_each : M → List ℕ → Table (List M) → Table (List M)
  put_each m [] table = table
  put_each m (queue ∷ queues) table = put_each m queues (update_id queue (put m) table)

  -- `publish`
  unfoldable pub publish : ℕ → M → InMemoryBroadcaster M → InMemoryBroadcaster M
  publish user_id m b = record b {
    queues = put_each m (subscribers_of user_id b.subscribers) b.queues;
  }

  -- `subscribe`, up to its `yield`: `queue` is the new queue
  unfoldable pub subscribe : ℕ → ℕ → InMemoryBroadcaster M → InMemoryBroadcaster M
  subscribe user_id queue b = record b {
    subscribers = set_id user_id (add queue (subscribers_of user_id b.subscribers)) b.subscribers;
    queues = set_id queue [] b.queues;
  }

  -- the `finally` of `subscribe`
  unfoldable pub unsubscribe : ℕ → ℕ → InMemoryBroadcaster M → InMemoryBroadcaster M
  unsubscribe user_id queue b = record b {
    subscribers = leave user_id queue (find_id user_id b.subscribers) b.subscribers;
  }
