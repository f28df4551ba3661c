-- ===== src/Kernel/Leapfrog/Complete.antt =====
-- On ascending inputs the join returns every common key.
use mathlib.Core.Path.{subst}
use tensorvault.Prelude.{
  ℕ, ◌<◌, ◌≤◌, ◌≡◌, refl, ltb, ◌==◌, Bool, true, false, Option, none, some, List, [], ◌∷◌, length,
  arith, inl, inr, ◌⊎◌, Bool-cases,
}
use tensorvault.Prelude.Forall.{All, In}
use tensorvault.Kernel.Leapfrog.{seek, landed, seek_one}

abbrev pub Ascending : List ℕ → Type 0
Ascending [] = Unit
Ascending (k ∷ ks) = All (λ j. k < j) ks × Ascending ks

In-All : (x : ℕ) (P : ℕ → Type 0) (ks : List ℕ) → All P ks → In x ks → P x
In-All x P [] h i = absurd i
In-All x P (k ∷ ks) h (inl e) = subst P e h.0
In-All x P (k ∷ ks) h (inr i) = In-All x P ks h.1 i

pub head_le : (x k : ℕ) (ks : List ℕ) → Ascending (k ∷ ks) → In x (k ∷ ks) → k ≤ x
head_le x k ks a (inl e) = omega arith
head_le x k ks a (inr i) = let l : k < x = In-All x (λ j. k < j) ks a.0 i in omega arith

seek_keep : (x m : ℕ) (it : List ℕ) → m ≤ x → In x it → In x (seek m it)
unfolding seek
seek_keep x m [] l h = h
seek_keep x m (k ∷ ks) l (inl e) = elim (Bool-cases (ltb k m)) [
  | inl below ↦ absurd (ground arith)
  | inr here ↦ rw here (inl e)
]
seek_keep x m (k ∷ ks) l (inr i) = elim (Bool-cases (ltb k m)) [
  | inl below ↦ rw below (seek_keep x m ks l i)
  | inr here ↦ rw here (inr i)
]

seek-Ascending : (m : ℕ) (it : List ℕ) → Ascending it → Ascending (seek m it)
unfolding seek
seek-Ascending m [] a = tt
seek-Ascending m (k ∷ ks) a = elim (Bool-cases (ltb k m)) [
  | inl below ↦ rw below (seek-Ascending m ks a.1)
  | inr here ↦ rw here a
]

length-seek : (m : ℕ) (it : List ℕ) → length (seek m it) ≤ length it
unfolding seek
length-seek m [] = omega arith
length-seek m (k ∷ ks) = ground (arith, length-seek m ks)

shorter : (m k : ℕ) (ks : List ℕ) → ltb k m ≡ true → length (seek m (k ∷ ks)) < length (k ∷ ks)
unfolding seek
shorter m k ks h = ground (arith, length-seek m ks)

-- The iterator is not past m.
abbrev pub HeadLe : ℕ → List ℕ → Type 0
HeadLe m [] = Unit
HeadLe m (k ∷ ks) = k ≤ m

pub HeadLe-trans : (m n : ℕ) (it : List ℕ) → m ≤ n → HeadLe m it → HeadLe n it
HeadLe-trans m n [] l h = tt
HeadLe-trans m n (k ∷ ks) l h = omega arith

-- What step 2 does to an iterator that has the key x.
abbrev pub Found : ℕ → ℕ → List ℕ → Option (List ℕ × ℕ × Bool) → Type 0
Found x m it none = ⊥
Found x m it (some (it', m', converged)) =
    In x it'
    × (m ≤ m')
    × (m' ≤ x)
    × Ascending it'
    × (length it' ≤ length it)
    × ((converged ≡ true) ⊎ (length it' < length it))

landed-Found :
    (x m : ℕ) (it ks : List ℕ)
    → m ≤ x
    → In x ks
    → Ascending ks
    → length ks < length it
    → Found x m it (landed m ks)
unfolding landed
landed-Found x m it [] l i a s = i
landed-Found x m it (k ∷ ks) l i a s =
    let low = head_le x k ks a i in
    elim (Bool-cases (k == m)) [
      | inl e ↦ rw e (i, omega arith, l, a, omega arith, inl refl)
      | inr e ↦ rw e (i, ground arith, ground arith, a, omega arith, inr s)
    ]

pub seek_one-Found :
    (x m : ℕ) (it : List ℕ)
    → m ≤ x
    → In x it
    → Ascending it
    → HeadLe m it
    → Found x m it (seek_one m it)
unfolding seek_one
seek_one-Found x m [] l i a h = absurd i
seek_one-Found x m (k ∷ ks) l i a h = elim (Bool-cases (k == m)) [
  | inl e ↦ rw e (i, omega arith, l, a, omega arith, inl refl)
  | inr e ↦
      let past : ltb m k ≡ false = ground arith in
      let below : ltb k m ≡ true = ground arith in
      rw (e, past)
        (landed-Found x m (k ∷ ks) (seek m (k ∷ ks)) l (seek_keep x m (k ∷ ks) l i)
          (seek-Ascending m (k ∷ ks) a) (shorter m k ks below))
]
