-- ===== src/Prelude/Maps.antt =====
-- Maps as association lists: `find`, `remove` and `insert` for unordered maps, and `put` for
-- std::map with numeric keys, which keeps the list in the order in which the source iterates.
use Prim.Native.Nat.{ℕ, suc, ◌≤◌, ◌<◌}
use mathlib.Core.Path.{◌≡◌, refl}
use mathlib.Core.List.{List, [], ◌∷◌}
use mathlib.Core.Bool.{Bool}
use mathlib.Core.Option.{Option, none, some}
use native.Mathlib.Omega.{arith}
use data_distribution.Prelude.Tests.{ltb, Eq, ◌==◌, nat_eq, if◌then◌else◌}

module _ {ℓ κ} {K : Type ℓ} {V : Type κ} ⦃e : Eq K⦄ where
  unfoldable pub find : K → List (K × V) → Option V
  find k [] = none
  find k (p ∷ m) = if p.0 == k then some p.1 else find k m

  -- Erases the entry of a key, if there is one.
  unfoldable pub remove : K → List (K × V) → List (K × V)
  remove k [] = []
  remove k (p ∷ m) = if p.0 == k then remove k m else p ∷ remove k m

  -- Writes the value of a key, in place if the key is there.
  unfoldable pub insert : K → V → List (K × V) → List (K × V)
  insert k v [] = (k, v) ∷ []
  insert k v (p ∷ m) = if p.0 == k then (k, v) ∷ m else p ∷ insert k v m

  -- std::map::emplace for a key that is not there, where `before` is the order of the keys.
  unfoldable pub emplace : (K → K → Bool) → K → V → List (K × V) → List (K × V)
  emplace before k v [] = (k, v) ∷ []
  emplace before k v (p ∷ m) = if before k p.0 then (k, v) ∷ p ∷ m else p ∷ emplace before k v m

  pub find-emplace :
      (before : K → K → Bool) (k j : K) (v : V) (m : List (K × V))
      → find k m ≡ none
      → find j (emplace before k v m) ≡ (if k == j then some v else find j m)
  unfolding find emplace
  find-emplace before k j v [] h = refl
  find-emplace before k j v (p ∷ m) h =
      ground (arith, e.beq_iff k j, e.beq_iff p.0 k, e.beq_iff p.0 j, find-emplace before k j v m)

  pub find-insert :
      (k j : K) (v : V) (m : List (K × V))
      → find j (insert k v m) ≡ (if k == j then some v else find j m)
  unfolding find insert
  find-insert k j v [] = refl
  find-insert k j v (p ∷ m) =
      ground (arith, e.beq_iff k j, e.beq_iff p.0 k, e.beq_iff p.0 j, find-insert k j v m)

  pub find-remove :
      (k j : K) (m : List (K × V)) → find j (remove k m) ≡ (if k == j then none else find j m)
  unfolding find remove
  find-remove k j [] = ground arith
  find-remove k j (p ∷ m) =
      ground (arith, e.beq_iff k j, e.beq_iff p.0 k, e.beq_iff p.0 j, find-remove k j m)

module _ {V : Type 0} where
  -- std::map::operator[] on a numeric key, followed by an assignment.
  unfoldable pub put : ℕ → V → List (ℕ × V) → List (ℕ × V)
  put k v [] = (k, v) ∷ []
  put k v (p ∷ m) =
      if ltb k p.0 then (k, v) ∷ p ∷ m else if p.0 == k then (k, v) ∷ m else p ∷ put k v m

  -- The keys rise strictly, from `lo` on.
  abbrev pub Ascends : ℕ → List (ℕ × V) → Type 0
  Ascends lo [] = Unit {0}
  Ascends lo (p ∷ m) = (lo ≤ p.0) × Ascends (suc p.0) m

  pub Ascends-mono : (lo hi : ℕ) (m : List (ℕ × V)) → lo ≤ hi → Ascends hi m → Ascends lo m
  Ascends-mono lo hi [] h a = tt
  Ascends-mono lo hi (p ∷ m) h a = (omega arith, a.1)

  pub put-Ascends :
      (lo k : ℕ) (v : V) (m : List (ℕ × V)) → lo ≤ k → Ascends lo m → Ascends lo (put k v m)
  unfolding put
  put-Ascends lo k v [] h a = (h, tt)
  put-Ascends lo k v (p ∷ m) h a = ground (arith, put-Ascends (suc p.0) k v m)

  pub remove-Ascends : (lo k : ℕ) (m : List (ℕ × V)) → Ascends lo m → Ascends lo (remove k m)
  unfolding remove
  remove-Ascends lo k [] a = tt
  remove-Ascends lo k (p ∷ m) a =
      ground (arith, remove-Ascends (suc p.0) k m a.1, Ascends-mono lo (suc p.0) (remove k m))

  pub find_below : (lo k : ℕ) (m : List (ℕ × V)) → Ascends lo m → k < lo → find k m ≡ none
  unfolding find
  find_below lo k [] a h = refl
  find_below lo k (p ∷ m) a h = ground (arith, find_below (suc p.0) k m a.1)

  pub find-put :
      (lo k j : ℕ) (v : V) (m : List (ℕ × V))
      → Ascends lo m
      → find j (put k v m) ≡ (if k == j then some v else find j m)
  unfolding find put
  find-put lo k j v [] a = refl
  find-put lo k j v (p ∷ m) a =
      ground (arith, find-put (suc p.0) k j v m a.1, find_below (suc p.0) j m a.1)
