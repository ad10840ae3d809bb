-- ===== src/Common/ConcurrentQueue/History.antt =====
-- Histories of a queue (src/common/base/ConcurrentQueue.h): any interleaving of the calls of several
-- threads is a list of steps, since every method holds the lock throughout.
use data_distribution.Prelude.{ℕ, Bool, true, false, List, [], ◌∷◌, ◌++◌, Option, none, some}
use data_distribution.Common.ConcurrentQueue.{
  QueueType, Queue, Popped, waits, closed, got, push, push_capacity, pop, try_pop, try_pop_n, stop,
}

pub data Call (A : Type 0) : Type 0 where
  pushes : A → Call A
  pushes_capacity : ℕ → A → Call A
  pops tries stops : Call A
  pops_n : ℕ → Call A

-- What a step took in, what it gave to its caller, and the queue behind it.
pub record Trace (A : Type 0) : Type 0 where
  pub accepted : List A
  pub delivered : List A
  pub queue : Queue A

module _ {A : Type 0} where
  abbrev pub when_true : Bool → A → List A
  when_true true a = a ∷ []
  when_true false a = []

  abbrev pub of_popped : Popped A → List A
  of_popped waits = []
  of_popped closed = []
  of_popped (got a) = a ∷ []

  abbrev pub of_option : Option A → List A
  of_option none = []
  of_option (some a) = a ∷ []

  unfoldable pub step : QueueType → Queue A → Call A → Trace A
  step t q (pushes a) =
      let (done, q') = push t q a in
      record { accepted = when_true done a; delivered = []; queue = q' }
  step t q (pushes_capacity n a) =
      let (done, q') = push_capacity t n q a in
      record { accepted = when_true done a; delivered = []; queue = q' }
  step t q pops =
      let (r, q') = pop q in record { accepted = []; delivered = of_popped r; queue = q' }
  step t q tries =
      let (r, q') = try_pop q in record { accepted = []; delivered = of_option r; queue = q' }
  step t q stops = record { accepted = []; delivered = []; queue = stop q }
  step t q (pops_n n) =
      let (r, q') = try_pop_n n q in record { accepted = []; delivered = r; queue = q' }

  unfoldable pub run : QueueType → Queue A → List (Call A) → Trace A
  run t q [] = record { accepted = []; delivered = []; queue = q }
  run t q (c ∷ cs) =
      let s = step t q c in
      let rest = run t s.queue cs in
      record {
        accepted = s.accepted ++ rest.accepted;
        delivered = s.delivered ++ rest.delivered;
        queue = rest.queue;
      }

  -- The calls that never evict.
  abbrev pub IsPlain : List (Call A) → Type 0
  IsPlain [] = Unit
  IsPlain (pushes_capacity n a ∷ cs) = ⊥
  IsPlain (pushes a ∷ cs) = IsPlain cs
  IsPlain (pops ∷ cs) = IsPlain cs
  IsPlain (tries ∷ cs) = IsPlain cs
  IsPlain (stops ∷ cs) = IsPlain cs
  IsPlain (pops_n n ∷ cs) = IsPlain cs

  -- As many pops as a list has elements.
  abbrev pub pop_all : List A → List (Call A)
  pop_all [] = []
  pop_all (x ∷ xs) = pops ∷ pop_all xs
