-- ===== src/Prelude/HashMap.antt =====
-- `std::collections::HashMap` as an association list: `insert` overwrites the entry of its key in
-- place, so a key occurs once. The program does not depend on the order of iteration.
use Prim.Native.Nat.{◌≤◌}
use mathlib.Core.Path.{◌≡◌, refl}
use mathlib.Core.Bool.{Bool, false}
use mathlib.Core.Logic.{◌≢◌}
use mathlib.Core.Option.{Option, none, some}
use mathlib.Core.List.{List, [], ◌∷◌}
use native.Mathlib.Omega.{arith}
use tensorvault.Prelude.Tests.{if◌then◌else◌}
use tensorvault.Prelude.Lists.{length}
use tensorvault.Prelude.Eq.{Eq}

abbrev pub HashMap {ℓ κ} : Type ℓ → Type κ → Type (ℓ ⊔ κ)
HashMap K V = List (K × V)

abbrev pub keep_if {ℓ} : {V : Type ℓ} → (V → Bool) → Option V → Option V
keep_if p none = none
keep_if p (some v) = if p v then some v else none

module _ {ℓ κ} {K : Type ℓ} {V : Type κ} where
  -- `retain`, with its test on the value
  unfoldable pub retain : (V → Bool) → HashMap K V → HashMap K V
  retain p [] = []
  retain p ((j, v) ∷ m) = let rest = retain p m in if p v then (j, v) ∷ rest else rest

  pub length-retain : (p : V → Bool) (m : HashMap K V) → length (retain p m) ≤ length m
  unfolding retain
  length-retain p [] = omega arith
  length-retain p ((j, v) ∷ m) = ground (arith, length-retain p m)

beq_other {ℓ} : {K : Type ℓ} ⦃e : Eq K⦄ (k j : K) → k ≢ j → e.beq k j ≡ false
beq_other ⦃e⦄ k j n = ground (arith, e.beq_iff k j)

module _ {ℓ κ} {K : Type ℓ} {V : Type κ} ⦃e : Eq K⦄ where
  unfoldable pub get : HashMap K V → K → Option V
  get [] k = none
  get ((j, v) ∷ m) k = if e.beq j k then some v else get m k

  unfoldable pub insert : HashMap K V → K → V → HashMap K V
  insert [] k v = (k, v) ∷ []
  insert ((j, w) ∷ m) k v = if e.beq j k then (k, v) ∷ m else (j, w) ∷ insert m k v

  unfoldable pub remove : HashMap K V → K → HashMap K V
  remove [] k = []
  remove ((j, w) ∷ m) k = let rest = remove m k in if e.beq j k then rest else (j, w) ∷ rest

  -- No key occurs twice.
  abbrev pub IsMap : HashMap K V → Type κ
  IsMap [] = Unit
  IsMap ((j, v) ∷ m) = (get m j ≡ none) × IsMap m

  pub get-insert :
      (m : HashMap K V) (k j : K) (v : V)
      → get (insert m k v) j ≡ (if e.beq k j then some v else get m j)
  unfolding get insert
  get-insert [] k j v = refl
  get-insert ((i, w) ∷ m) k j v =
      ground (arith, e.beq_iff k j, e.beq_iff i k, e.beq_iff i j, get-insert m k j v)

  pub get-remove :
      (m : HashMap K V) (k j : K) → get (remove m k) j ≡ (if e.beq k j then none else get m j)
  unfolding get remove
  get-remove [] k j = ground arith
  get-remove ((i, w) ∷ m) k j =
      ground (arith, e.beq_iff k j, e.beq_iff i k, e.beq_iff i j, get-remove m k j)

  pub get-insert_same : (m : HashMap K V) (k : K) (v : V) → get (insert m k v) k ≡ some v
  get-insert_same m k v = rw (get-insert m k k v, (e.beq_iff k k).1 refl) refl

  pub get-insert_other :
      (m : HashMap K V) (k j : K) (v : V) → k ≢ j → get (insert m k v) j ≡ get m j
  get-insert_other m k j v n = rw (get-insert m k j v, beq_other k j n) refl

  pub get-remove_same : (m : HashMap K V) (k : K) → get (remove m k) k ≡ none
  get-remove_same m k = rw (get-remove m k k, (e.beq_iff k k).1 refl) refl

  pub get-remove_other : (m : HashMap K V) (k j : K) → k ≢ j → get (remove m k) j ≡ get m j
  get-remove_other m k j n = rw (get-remove m k j, beq_other k j n) refl

  pub insert-IsMap : (m : HashMap K V) (k : K) (v : V) → IsMap m → IsMap (insert m k v)
  unfolding insert get
  insert-IsMap [] k v h = (refl, tt)
  insert-IsMap ((i, w) ∷ m) k v h =
      ground (arith, e.beq_iff i k, e.beq_iff k i, insert-IsMap m k v h.1, get-insert m k i v)

  pub remove-IsMap : (m : HashMap K V) (k : K) → IsMap m → IsMap (remove m k)
  unfolding remove get
  remove-IsMap [] k h = tt
  remove-IsMap ((i, w) ∷ m) k h = ground (arith, remove-IsMap m k h.1, get-remove m k i)

  pub get-retain :
      (p : V → Bool) (m : HashMap K V) (k : K) → IsMap m → get (retain p m) k ≡ keep_if p (get m k)
  unfolding get retain
  get-retain p [] k h = refl
  get-retain p ((i, w) ∷ m) k h = ground (arith, e.beq_iff i k, get-retain p m k h.1)

  pub retain-IsMap : (p : V → Bool) (m : HashMap K V) → IsMap m → IsMap (retain p m)
  unfolding retain
  retain-IsMap p [] h = tt
  retain-IsMap p ((i, w) ∷ m) h = ground (arith, retain-IsMap p m h.1, get-retain p m i h.1)
