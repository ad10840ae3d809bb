-- ===== src/Common/ConcurrentQueue/Pipeline.antt =====
-- IFifoPipeline of src/common/base/ConcurrentQueue.h: a vector of FIFO queues. The successor of a
-- stage is a pure virtual method of the class, and so a parameter here. Asserts are off: an access
-- past the end, which the source asserts against, has no effect.
use data_distribution.Prelude.{
  ℕ, zero, suc, ◌≡◌, ◌≢◌, ◌<◌, ◌≤◌, refl, Bool, false, List, [], ◌∷◌, Option, ltb, length, map, ap,
  if◌then◌else◌, arith,
}
use data_distribution.Common.ConcurrentQueue.{
  Queue, Popped, fifo, stop, flush, push, pop, pop_wait_for,
}

module _ {A : Type 0} where
  abbrev pub get_or : List (Queue A) → ℕ → Queue A → Queue A
  get_or [] i d = d
  get_or (q ∷ qs) zero d = q
  get_or (q ∷ qs) (suc i) d = get_or qs i d

  abbrev pub set : List (Queue A) → ℕ → Queue A → List (Queue A)
  set [] i v = []
  set (q ∷ qs) zero v = v ∷ qs
  set (q ∷ qs) (suc i) v = q ∷ set qs i v

  get_or-set_self :
      (qs : List (Queue A)) (i : ℕ) (v d : Queue A) → i < length qs → get_or (set qs i v) i d ≡ v
  get_or-set_self [] i v d h = absurd (omega arith)
  get_or-set_self (q ∷ qs) zero v d h = refl
  get_or-set_self (q ∷ qs) (suc i) v d h = get_or-set_self qs i v d (omega arith)

  get_or-set_ne :
      (qs : List (Queue A)) (i j : ℕ) (v d : Queue A)
      → i ≢ j
      → get_or (set qs i v) j d ≡ get_or qs j d
  get_or-set_ne [] i j v d h = refl
  get_or-set_ne (q ∷ qs) zero zero v d h = absurd (h refl)
  get_or-set_ne (q ∷ qs) zero (suc j) v d h = refl
  get_or-set_ne (q ∷ qs) (suc i) zero v d h = refl
  get_or-set_ne (q ∷ qs) (suc i) (suc j) v d h = get_or-set_ne qs i j v d (λ e. h (ap suc e))

  abbrev none_there : Queue A
  none_there = record { container = []; running = false }

  unfoldable pub stop_pipeline : List (Queue A) → List (Queue A)
  stop_pipeline = map stop

  unfoldable pub clear_pipeline : List (Queue A) → List (Queue A)
  clear_pipeline = map (λ q. (flush q).1)

  module _ (next : ℕ → ℕ) where
    -- A stage behind the last one is the drop queue: the element is given up.
    unfoldable pub queue : List (Queue A) → ℕ → A → Bool × List (Queue A)
    queue qs stage a =
        if ltb (next stage) (length qs)
        then (let (done, q) = push fifo (get_or qs (next stage) none_there) a in
            (done, set qs (next stage) q))
        else (false, qs)

    unfoldable pub close : List (Queue A) → ℕ → List (Queue A)
    close qs stage =
        if ltb (next stage) (length qs)
        then set qs (next stage) (stop (get_or qs (next stage) none_there))
        else qs

    unfoldable pub flush_stage : List (Queue A) → ℕ → ℕ × List (Queue A)
    flush_stage qs stage =
        if ltb (next stage) (length qs)
        then (let (n, q) = flush (get_or qs (next stage) none_there) in (n, set qs (next stage) q))
        else (0, qs)

  unfoldable pub dequeue : List (Queue A) → ℕ → Popped A × List (Queue A)
  dequeue qs stage = let (r, q) = pop (get_or qs stage none_there) in (r, set qs stage q)

  unfoldable pub dequeue_for :
      List (Queue A) → ℕ → List (Bool × Queue A) → Option A × List (Queue A)
  dequeue_for qs stage seen =
      let (r, q) = pop_wait_for (get_or qs stage none_there) seen in (r, set qs stage q)

  length-set : (qs : List (Queue A)) (i : ℕ) (v : Queue A) → length (set qs i v) ≡ length qs
  length-set [] i v = refl
  length-set (q ∷ qs) zero v = refl
  length-set (q ∷ qs) (suc i) v = ap suc (length-set qs i v)

  -- For every successor function, vector of queues, stage and element: if the successor of the stage
  -- is a queue of the vector, then queue puts the element at the end of that queue exactly while it
  -- runs, reports whether it did, and leaves every other queue as it was; if the successor is past
  -- the end, queue reports false and changes nothing.
  pub queue_next :
      (next : ℕ → ℕ) (qs : List (Queue A)) (stage j : ℕ) (a : A)
      → let r = queue next qs stage a in
        let target = get_or qs (next stage) none_there in
        (next stage < length qs
          → (r.0 ≡ target.running)
            × (get_or r.1 (next stage) none_there ≡ (push fifo target a).1)
            × (next stage ≢ j → get_or r.1 j none_there ≡ get_or qs j none_there))
        × (length qs ≤ next stage → r ≡ (false, qs))
  unfolding queue push
  queue_next next qs stage j a =
      let target = get_or qs (next stage) none_there in
      (
        λ (h : next stage < length qs). (
          ground arith,
          ground (arith, get_or-set_self qs (next stage) (push fifo target a).1 none_there),
          λ (n : next stage ≢ j).
              ground (arith, get_or-set_ne qs (next stage) j (push fifo target a).1 none_there),
        ),
        λ (h : length qs ≤ next stage). ground arith,
      )
