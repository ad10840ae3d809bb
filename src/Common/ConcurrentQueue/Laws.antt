-- ===== src/Common/ConcurrentQueue/Laws.antt =====
-- What the queues of src/common/base/ConcurrentQueue.h promise their users.
use mathlib.Core.List.Perm
use mathlib.Core.List.{append_assoc, append-nil, perm_append_comm, Sublist}
use mathlib.Core.List.Sublist
use data_distribution.Prelude.{
  ℕ, ◌+◌, ◌-◌, ◌<◌, ◌≡◌, refl, sym, ap, ◌∙◌, Bool, true, false, ◌&&◌, List, [], ◌∷◌, ◌++◌, ltb, leb,
  length, length-append, take-append-drop, if◌then◌else◌, Perm, arith, subst,
}
use data_distribution.Common.ConcurrentQueue.{
  QueueType, fifo, lifo, Queue, closed, push, push_capacity, pop, try_pop, try_pop_n, stop,
  drop_last, drop_oldest, add,
}
use data_distribution.Common.ConcurrentQueue.History.{
  Call, pushes, pushes_capacity, pops, tries, stops, pops_n, step, run, IsPlain, pop_all,
}

module _ {A : Type 0} where
  then_eq :
      (ds dr xs added more middle last : List A)
      → ds ++ middle ≡ xs ++ added
      → dr ++ last ≡ middle ++ more
      → (ds ++ dr) ++ last ≡ xs ++ (added ++ more)
  then_eq ds dr xs added more middle last p q =
      append_assoc ds dr last
      ∙ ap (◌++◌ ds) q
      ∙ sym (append_assoc ds middle more)
      ∙ ap (λ l. l ++ more) p
      ∙ append_assoc xs added more

  then_sublist :
      (ds dr xs added more middle last : List A)
      → Sublist (ds ++ middle) (xs ++ added)
      → Sublist (dr ++ last) (middle ++ more)
      → Sublist ((ds ++ dr) ++ last) (xs ++ (added ++ more))
  then_sublist ds dr xs added more middle last p q =
      subst (λ l. Sublist l (xs ++ (added ++ more))) (sym (append_assoc ds dr last))
        (subst (Sublist (ds ++ (dr ++ last))) (append_assoc xs added more) (
          Sublist.trans (Sublist.append (Sublist.refl ds) q) (
            subst (λ l. Sublist l ((xs ++ added) ++ more)) (append_assoc ds middle more)
              (Sublist.append p (Sublist.refl more)))))

  then_perm :
      (ds dr xs added more middle last : List A)
      → Perm (ds ++ middle) (xs ++ added)
      → Perm (dr ++ last) (middle ++ more)
      → Perm ((ds ++ dr) ++ last) (xs ++ (added ++ more))
  then_perm ds dr xs added more middle last p q =
      subst (λ l. Perm l (xs ++ (added ++ more))) (sym (append_assoc ds dr last))
        (subst (Perm (ds ++ (dr ++ last))) (append_assoc xs added more) (
          Perm.trans (Perm.append_left ds q) (
            subst (λ l. Perm l ((xs ++ added) ++ more)) (append_assoc ds middle more)
              (Perm.append_right more p))))

  perm_of_eq : {xs ys : List A} → xs ≡ ys → Perm xs ys
  perm_of_eq {xs} e = subst (Perm xs) e Perm.rfl

  sublist_of_eq : {xs ys : List A} → xs ≡ ys → Sublist xs ys
  sublist_of_eq {xs} e = subst (Sublist xs) e (Sublist.refl xs)

  IsPlain-head : (c : Call A) (cs : List (Call A)) → IsPlain (c ∷ cs) → IsPlain (c ∷ [])
  IsPlain-head (pushes_capacity n a) cs h = h
  IsPlain-head _ cs h = tt

  IsPlain-tail : (c : Call A) (cs : List (Call A)) → IsPlain (c ∷ cs) → IsPlain cs
  IsPlain-tail (pushes_capacity n a) cs h = absurd h
  IsPlain-tail _ cs h = h

  step_fifo :
      (xs : List A) (running : Bool) (c : Call A)
      → IsPlain (c ∷ [])
      → let s = step fifo (record { container = xs; running = running }) c in
        s.delivered ++ s.queue.container ≡ xs ++ s.accepted
  unfolding step push pop try_pop try_pop_n stop
  step_fifo xs true (pushes a) h = refl
  step_fifo xs false (pushes a) h = sym (append-nil xs)
  step_fifo xs r (pushes_capacity n a) h = absurd h
  step_fifo [] true pops h = refl
  step_fifo [] false pops h = refl
  step_fifo (x ∷ xs) r pops h = ap (◌∷◌ x) (sym (append-nil xs))
  step_fifo [] r tries h = refl
  step_fifo (x ∷ xs) r tries h = ap (◌∷◌ x) (sym (append-nil xs))
  step_fifo xs r stops h = sym (append-nil xs)
  step_fifo xs r (pops_n n) h = take-append-drop n xs ∙ sym (append-nil xs)

  -- For every history of a FIFO queue without push_capacity, start or flush, whatever threads made
  -- the calls: the elements delivered, in order, followed by those left in the queue are the ones it
  -- held at first followed by the ones that push accepted, in order.
  pub run_fifo :
      (q : Queue A) (cs : List (Call A))
      → IsPlain cs
      → let s = run fifo q cs in s.delivered ++ s.queue.container ≡ q.container ++ s.accepted
  unfolding run
  run_fifo q [] h = sym (append-nil q.container)
  run_fifo q (c ∷ cs) h =
      let s = step fifo q c in
      let r = run fifo s.queue cs in
      then_eq s.delivered r.delivered q.container s.accepted r.accepted _ _
        (step_fifo q.container q.running c (IsPlain-head c cs h))
        (run_fifo s.queue cs (IsPlain-tail c cs h))

  step_lifo :
      (xs : List A) (running : Bool) (c : Call A)
      → IsPlain (c ∷ [])
      → let s = step lifo (record { container = xs; running = running }) c in
        Perm (s.delivered ++ s.queue.container) (xs ++ s.accepted)
  unfolding step push pop try_pop try_pop_n stop
  step_lifo xs true (pushes a) h = Perm.symm (perm_append_comm xs (a ∷ []))
  step_lifo xs false (pushes a) h = perm_of_eq (sym (append-nil xs))
  step_lifo xs r (pushes_capacity n a) h = absurd h
  step_lifo [] true pops h = Perm.rfl
  step_lifo [] false pops h = Perm.rfl
  step_lifo (x ∷ xs) r pops h = perm_of_eq (ap (◌∷◌ x) (sym (append-nil xs)))
  step_lifo [] r tries h = Perm.rfl
  step_lifo (x ∷ xs) r tries h = perm_of_eq (ap (◌∷◌ x) (sym (append-nil xs)))
  step_lifo xs r stops h = perm_of_eq (sym (append-nil xs))
  step_lifo xs r (pops_n n) h = perm_of_eq (take-append-drop n xs ∙ sym (append-nil xs))

  -- For every history of a LIFO stack without push_capacity, start or flush: the elements delivered
  -- and those left are, up to order, the ones it held at first and the ones that push accepted.
  pub run_lifo :
      (q : Queue A) (cs : List (Call A))
      → IsPlain cs
      → let s = run lifo q cs in Perm (s.delivered ++ s.queue.container) (q.container ++ s.accepted)
  unfolding run
  run_lifo q [] h = perm_of_eq (sym (append-nil q.container))
  run_lifo q (c ∷ cs) h =
      let s = step lifo q c in
      let r = run lifo s.queue cs in
      then_perm s.delivered r.delivered q.container s.accepted r.accepted _ _
        (step_lifo q.container q.running c (IsPlain-head c cs h))
        (run_lifo s.queue cs (IsPlain-tail c cs h))

  evict_sublist :
      (xs : List A) (a : A) (b : Bool) → Sublist (if b then drop_oldest fifo xs else xs) xs
  evict_sublist [] a true = Sublist.refl []
  evict_sublist (x ∷ xs) a true = Sublist.cons x (Sublist.refl xs)
  evict_sublist xs a false = Sublist.refl xs

  step_sublist :
      (xs : List A) (running : Bool) (c : Call A)
      → let s = step fifo (record { container = xs; running = running }) c in
        Sublist (s.delivered ++ s.queue.container) (xs ++ s.accepted)
  unfolding step push_capacity
  step_sublist xs true (pushes_capacity n a) =
      Sublist.append (evict_sublist xs a (ltb 0 n && leb n (length xs))) (Sublist.refl (a ∷ []))
  step_sublist xs false (pushes_capacity n a) = sublist_of_eq (sym (append-nil xs))
  step_sublist xs r (pushes a) = sublist_of_eq (step_fifo xs r (pushes a) tt)
  step_sublist xs r pops = sublist_of_eq (step_fifo xs r pops tt)
  step_sublist xs r tries = sublist_of_eq (step_fifo xs r tries tt)
  step_sublist xs r stops = sublist_of_eq (step_fifo xs r stops tt)
  step_sublist xs r (pops_n n) = sublist_of_eq (step_fifo xs r (pops_n n) tt)

  -- With push_capacity too, a FIFO queue only loses elements: whatever the history, those delivered,
  -- in order, followed by those left are a sublist of those held at first and those accepted.
  pub run_sublist :
      (q : Queue A) (cs : List (Call A))
      → let s = run fifo q cs in
        Sublist (s.delivered ++ s.queue.container) (q.container ++ s.accepted)
  unfolding run
  run_sublist q [] = sublist_of_eq (sym (append-nil q.container))
  run_sublist q (c ∷ cs) =
      let s = step fifo q c in
      let r = run fifo s.queue cs in
      then_sublist s.delivered r.delivered q.container s.accepted r.accepted _ _
        (step_sublist q.container q.running c) (run_sublist s.queue cs)

  length-drop_last : (xs : List A) → length (drop_last xs) ≡ length xs - 1
  length-drop_last [] = refl
  length-drop_last (x ∷ []) = refl
  length-drop_last (x ∷ y ∷ xs) = omega (arith, length-drop_last (y ∷ xs))

  length-drop_oldest : (t : QueueType) (xs : List A) → length (drop_oldest t xs) ≡ length xs - 1
  length-drop_oldest fifo [] = refl
  length-drop_oldest fifo (x ∷ xs) = omega arith
  length-drop_oldest lifo xs = length-drop_last xs

  length-add : (t : QueueType) (xs : List A) (a : A) → length (add t xs a) ≡ length xs + 1
  length-add fifo xs a = length-append xs (a ∷ [])
  length-add lifo xs a = omega arith

  -- For FIFO and LIFO, under a capacity above 0: push_capacity succeeds exactly while the queue runs;
  -- then a queue below the capacity grows by one element, and any other keeps its length (it evicts
  -- one). A stopped queue is left alone.
  pub push_capacity-length :
      (t : QueueType) (n : ℕ) (q : Queue A) (a : A)
      → 0 < n
      → let r = push_capacity t n q a in
        (r.0 ≡ q.running)
        × (q.running ≡ false → r.1 ≡ q)
        × (q.running ≡ true
            → length r.1.container
              ≡ (if ltb (length q.container) n then length q.container + 1 else length q.container))
  unfolding push_capacity
  push_capacity-length t n q a h =
      let xs = q.container in
      (
        ground arith,
        ground arith,
        λ (e : q.running ≡ true).
            ground (
              arith,
              length-drop_oldest t xs,
              length-add t xs a,
              length-add t (drop_oldest t xs) a,
            ),
      )

  -- A stopped queue is drained by its readers: every pop delivers the front while there is one, and
  -- after as many pops as it held elements all are delivered, in order, and the next pop reports the
  -- end instead of waiting. It accepts nothing meanwhile.
  pub drain :
      (t : QueueType) (xs : List A) (a : A)
      → let s = run t (stop (record { container = xs; running = true })) (pushes a ∷ pop_all xs) in
        (s.delivered ≡ xs) × (s.accepted ≡ []) × ((pop s.queue).0 ≡ closed)
  unfolding run step stop push pop
  drain t [] a = (refl, refl, refl)
  drain t (x ∷ xs) a = let rest = drain t xs a in (ap (◌∷◌ x) rest.0, rest.1, rest.2)
