-- ===== src/TfScheduler/ConnManager/Ending/Futures.antt =====
-- The loop of DropWaitThread over the futures (src/TfScheduler/TfSchedulerConnManager.cxx).
use mathlib.Core.List.Perm
use mathlib.Core.List.{perm_middle}
use data_distribution.Prelude.{
  ℕ, Bool, true, false, List, [], ◌∷◌, ◌++◌, some, ◌≡◌, refl, Perm, arith,
}
use data_distribution.TfScheduler.ConnManager.Ending.{await_futures}

-- Whether the loop comes to advance past the end: the last future that it looks at is ready.
abbrev pub overruns : List (ℕ × Bool) → Bool
overruns [] = false
overruns ((id, false) ∷ fs) = overruns fs
overruns ((id, true) ∷ []) = true
overruns ((id, true) ∷ f ∷ fs) = overruns fs

abbrev pub ids_of : List (ℕ × Bool) → List ℕ
ids_of [] = []
ids_of (f ∷ fs) = f.0 ∷ ids_of fs

-- With a future at the end of the list that is not ready yet, the loop comes to its end, and each
-- SubTimeFrame whose request was under way is either reported as dropped or still awaited.
pub await_futures_pending :
    (fs : List (ℕ × Bool)) (id : ℕ)
    → (ids : List ℕ) × (rest : List (ℕ × Bool)) × (await_futures (fs ++ (id, false) ∷ [])
        ≡ some (ids, rest))
      × Perm (ids ++ ids_of rest) (ids_of fs ++ id ∷ [])
unfolding await_futures
await_futures_pending [] id = ([], (id, false) ∷ [], refl, Perm.rfl)
await_futures_pending ((k, false) ∷ fs) id =
    let (ids, rest, e, p) = await_futures_pending fs id in
    (
      ids,
      (k, false) ∷ rest,
      ground (arith, e),
      Perm.trans (perm_middle ids (ids_of rest)) (Perm.cons k p),
    )
await_futures_pending ((k, true) ∷ []) id = (k ∷ [], (id, false) ∷ [], refl, Perm.rfl)
await_futures_pending ((k, true) ∷ f ∷ fs) id =
    let (ids, rest, e, p) = await_futures_pending fs id in
    (
      k ∷ ids,
      f ∷ rest,
      ground (arith, e),
      Perm.cons k (Perm.trans (perm_middle ids (ids_of rest)) (Perm.cons f.0 p)),
    )
