-- ===== src/Common/ConcurrentQueue.antt =====
-- ConcurrentContainerImpl of src/common/base/ConcurrentQueue.h. Each method takes the lock once, so
-- it is one step on the container; a pop that has to wait reports so and is called again.
pub mod History
pub mod Laws
pub mod Pipeline
use data_distribution.Prelude.{
  ℕ, ◌+◌, ◌≤◌, ◌<◌, ◌≡◌, Bool, true, false, not, ◌&&◌, ◌||◌, List, [], ◌∷◌, ◌++◌, Option, none,
  some, ltb, leb, length, take, drop, if◌then◌else◌, min,
}

pub data QueueType : Type 0 where
  fifo lifo : QueueType

pub record Queue (A : Type 0) : Type 0 where
  pub container : List A
  pub running : Bool

-- What a blocking pop meets: it has to wait, the queue is stopped and drained, or an element.
pub data Popped (A : Type 0) : Type 0 where
  waits closed : Popped A
  got : A → Popped A

module _ {A : Type 0} where
  abbrev pub empty : Queue A
  empty = record { container = []; running = true }

  abbrev pub is_empty : List A → Bool
  is_empty [] = true
  is_empty (x ∷ xs) = false

  -- The front is the head of the list.
  abbrev pub add : QueueType → List A → A → List A
  add fifo xs a = xs ++ a ∷ []
  add lifo xs a = a ∷ xs

  -- pop_front and pop_back
  abbrev pub drop_last : List A → List A
  drop_last [] = []
  drop_last (x ∷ []) = []
  drop_last (x ∷ y ∷ xs) = x ∷ drop_last (y ∷ xs)

  abbrev pub drop_oldest : QueueType → List A → List A
  drop_oldest fifo [] = []
  drop_oldest fifo (x ∷ xs) = xs
  drop_oldest lifo xs = drop_last xs

  unfoldable pub stop : Queue A → Queue A
  stop q = record q { running = false }

  unfoldable pub start : Queue A → Queue A
  start q = record { container = []; running = true }

  unfoldable pub flush : Queue A → ℕ × Queue A
  flush q = (length q.container, record q { container = [] })

  unfoldable pub push : QueueType → Queue A → A → Bool × Queue A
  push t q a =
      if not q.running then (false, q) else (true, record q { container = add t q.container a })

  -- Over capacity the oldest element goes first. A capacity of 0 is none.
  unfoldable pub push_capacity : QueueType → ℕ → Queue A → A → Bool × Queue A
  push_capacity t cap q a =
      if not q.running then (false, q) else (true, record q { container = add t kept a })
    where
      kept : List A
      kept =
          if ltb 0 cap && leb cap (length q.container)
          then drop_oldest t q.container
          else q.container

  pop_front : List A → Bool → Popped A × List A
  pop_front [] true = (waits, [])
  pop_front [] false = (closed, [])
  pop_front (x ∷ xs) running = (got x, xs)

  unfoldable pub pop : Queue A → Popped A × Queue A
  unfolding pop_front
  pop q = let (r, rest) = pop_front q.container q.running in (r, record q { container = rest })

  front : List A → Option A × List A
  front [] = (none, [])
  front (x ∷ xs) = (some x, xs)

  unfoldable pub try_pop : Queue A → Option A × Queue A
  unfolding front
  try_pop q = let (r, rest) = front q.container in (r, record q { container = rest })

  unfoldable pub try_pop_n : ℕ → Queue A → List A × Queue A
  try_pop_n n q = (take n q.container, record q { container = drop n q.container })

  -- `none` means that the call waits.
  unfoldable pub pop_n : ℕ → Queue A → Option (List A × Queue A)
  unfolding try_pop_n
  pop_n n q = if is_empty q.container && q.running then none else some (try_pop_n n q)

  -- The waiting loop of pop_wait_for. An observation is what one wait_until returns (true for a
  -- timeout) and the queue as the other threads left it.
  unfoldable pub await : Queue A → List (Bool × Queue A) → Queue A
  await q [] = q
  await q ((timeout, q') ∷ later) =
      let rest = await q' later in
      if not q.running
      then q
      else if timeout
      then q'
      else if not (is_empty q'.container)
      then q'
      else rest

  unfoldable pub pop_wait_for : Queue A → List (Bool × Queue A) → Option A × Queue A
  unfolding await try_pop
  pop_wait_for q seen = try_pop (if is_empty q.container && q.running then await q seen else q)

  -- The other overload: it does not deliver once the queue is stopped, and takes the lock again to
  -- pop, after the other threads made of the queue what `between` says.
  unfoldable pub pop_wait_into :
      Queue A → List (Bool × Queue A) → (Queue A → Queue A) → Option A × Queue A
  unfolding await try_pop
  pop_wait_into q seen between =
      if is_empty q.container && q.running
      then (let woken = await q seen in
          if not woken.running || is_empty woken.container
          then (none, woken)
          else try_pop (between woken))
      else try_pop (between q)

  unfoldable pub size : Queue A → ℕ
  size q = length q.container
