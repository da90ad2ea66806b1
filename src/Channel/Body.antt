-- ===== src/Channel/Body.antt =====
-- What `Channel<T>` does between the lock and the unlock of its mutex.
use uring_fiber.Prelude.{
  ℕ, Bool, true, false, List, [], ◌∷◌, ◌++◌, map, ◌==◌, if◌then◌else◌, ltb, length, update,
}
use uring_fiber.CoMutex.{Mutex, fresh_mutex}

-- `SendItem`: the parked sender and the value that its `data` refers to.
pub record SendItem {ℓ} (T : Type ℓ) : Type ℓ where
  pub task : ℕ
  pub value : T

-- The fields of `Channel<T>`, and what its operations write elsewhere: the local `isError` of each
-- parked task, the writes `data = ...` to receivers' variables in their order, and the tasks given to
-- `AddTask`. A `RecvItem` is its task: its `isError` and `data` are found by the task.
pub record Chan {ℓ} (T : Type ℓ) : Type ℓ where
  pub mtx : Mutex
  pub closed : Bool
  pub capacity : ℕ
  pub buffer : List T
  pub send_queue : List (SendItem T)
  pub recv_queue : List ℕ
  pub is_error : ℕ → Bool
  pub writes : List (ℕ × T)
  pub ready : List ℕ

pub data Outcome : Type 0 where
  returned : Outcome
  threw : Outcome  -- `throw std::runtime_error("channel closed")`
  parked : Outcome  -- inside `SuspendTask`
  hangs : Outcome  -- the loop of `unlock` that never ends

module _ {ℓ} {T : Type ℓ} where
  -- `Channel(capacity)`
  abbrev pub make : ℕ → Chan T
  make capacity = record {
    mtx = fresh_mutex;
    closed = false;
    capacity = capacity;
    buffer = [];
    send_queue = [];
    recv_queue = [];
    is_error = λ _. false;
    writes = [];
    ready = [];
  }

  -- `item.isError = true` and `AddTask` for each item of a queue.
  unfoldable pub fail_all : List ℕ → Chan T → Chan T
  fail_all [] c = c
  fail_all (t ∷ ts) c =
      fail_all ts (record c { is_error = update c.is_error t true; ready = c.ready ++ t ∷ [] })

  abbrev pub tasks : List (SendItem T) → List ℕ
  tasks = map (λ s. s.task)

  unfoldable pub close_body : Chan T → Chan T × Outcome
  unfolding fail_all
  close_body c =
      if c.closed
      then (c, returned)
      else let c1 = fail_all (tasks c.send_queue) (record c { closed = true }) in
        let c2 = fail_all c1.recv_queue (record c1 { send_queue = [] }) in
        (record c2 { recv_queue = [] }, returned)

  -- `operator<<` with no receiver waiting.
  unfoldable pub send_store : ℕ → T → Chan T → Chan T × Outcome
  send_store self v c =
      if ltb (length c.buffer) c.capacity
      then (record c { buffer = c.buffer ++ v ∷ [] }, returned)
      else (
        record c {
          is_error = update c.is_error self false;
          send_queue = c.send_queue ++ record { task = self; value = v } ∷ [];
        },
        parked,
      )

  -- `operator<<` on an open channel, by the receivers that wait.
  unfoldable pub send_open : ℕ → T → List ℕ → Chan T → Chan T × Outcome
  unfolding send_store
  send_open self v [] c = send_store self v c
  send_open self v (t ∷ ts) c = (
    record c { recv_queue = ts; writes = c.writes ++ (t, v) ∷ []; ready = c.ready ++ t ∷ [] },
    returned,
  )

  unfoldable pub send_body : ℕ → T → Chan T → Chan T × Outcome
  unfolding send_open
  send_body self v c = if c.closed then (c, threw) else send_open self v c.recv_queue c

  -- The first parked sender's value goes into the buffer, once a value has been taken out of it.
  unfoldable pub refill : List (SendItem T) → Chan T → Chan T
  refill [] c = c
  refill (s ∷ ss) c = record c {
    send_queue = ss;
    buffer = c.buffer ++ s.value ∷ [];
    ready = c.ready ++ s.task ∷ [];
  }

  unfoldable pub recv_park : ℕ → Chan T → Chan T × Outcome
  recv_park self c = (
    record c { is_error = update c.is_error self false; recv_queue = c.recv_queue ++ self ∷ [] },
    parked,
  )

  -- `operator>>` with an empty buffer.
  unfoldable pub recv_unbuffered : ℕ → List (SendItem T) → Chan T → Chan T × Outcome
  unfolding recv_park
  recv_unbuffered self [] c = recv_park self c
  recv_unbuffered self (s ∷ ss) c =
      if c.capacity == 0
      then (
        record c {
          send_queue = ss;
          writes = c.writes ++ (self, s.value) ∷ [];
          ready = c.ready ++ s.task ∷ [];
        },
        returned,
      )
      else recv_park self c

  unfoldable pub recv_from : ℕ → List T → Chan T → Chan T × Outcome
  unfolding refill recv_unbuffered
  recv_from self [] c = if c.closed then (c, threw) else recv_unbuffered self c.send_queue c
  recv_from self (v ∷ vs) c = (
    refill c.send_queue (record c { buffer = vs; writes = c.writes ++ (self, v) ∷ [] }),
    returned,
  )

  unfoldable pub recv_body : ℕ → Chan T → Chan T × Outcome
  unfolding recv_from
  recv_body self c = recv_from self c.buffer c
