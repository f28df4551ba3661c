-- ===== src/Kernel/Leapfrog/Intersection.antt =====
-- The join of ascending inputs is their intersection.
use mathlib.Core.Path.{subst}
use tensorvault.Prelude.{
  ℕ, zero, suc, ◌<◌, ◌≤◌, ◌≡◌, refl, ap, ltb, ◌==◌, ==_iff, if◌then◌else◌, Bool, true, false,
  Option, none, some, List, [], ◌∷◌, length, arith, inl, inr, ◌⊎◌, Option-cases, Bool-cases, ◌↔◌,
}
use tensorvault.Prelude.Forall.{All, In}
use tensorvault.Kernel.Leapfrog.{
  next, find_max, seek_one, Round, with_iterator, seek_all, advance_first, join_loop, any_exhausted,
  rounds, run,
}
use tensorvault.Kernel.Leapfrog.Sound.{
  seek_all-next, loop_next, RoundSeeked, seek_all-RoundSeeked, run_sub,
}
use tensorvault.Kernel.Leapfrog.Complete.{
  Ascending, Found, HeadLe, HeadLe-trans, head_le, seek_one-Found,
}

abbrev RoundFound : ℕ → ℕ → List (List ℕ) → Bool → Option Round → Type 0
RoundFound x m its matched none = ⊥
RoundFound x m its matched (some r) =
    All (In x) r.iterators
    × (r.max_key ≤ x)
    × All Ascending r.iterators
    × (rounds r.iterators ≤ rounds its)
    × ((r.all_match ≡ true) ⊎ ((rounds r.iterators < rounds its) ⊎ (matched ≡ false)))
    × (length r.iterators ≡ length its)

with_iterator-RoundFound :
    (x m m' : ℕ) (it it' : List ℕ) (its : List (List ℕ)) (matched converged : Bool)
    (r : Option Round)
    → Found x m it (some (it', m', converged))
    → RoundFound x m' its (if converged then matched else false) r
    → RoundFound x m (it ∷ its) matched (with_iterator it' r)
unfolding rounds
with_iterator-RoundFound x m m' it it' its matched converged none s h = h
with_iterator-RoundFound x m m' it it' its matched converged (some r) s h =
    ((s.0, h.0), h.1, (s.3, h.2), omega arith, ground arith, ap suc h.5)

HeadLe-All : (m n : ℕ) (its : List (List ℕ)) → m ≤ n → All (HeadLe m) its → All (HeadLe n) its
HeadLe-All m n [] l h = tt
HeadLe-All m n (it ∷ its) l h = (HeadLe-trans m n it l h.0, HeadLe-All m n its l h.1)

match_cases : (b : Bool) → (b ≡ true) ⊎ ((1 < 1) ⊎ (b ≡ false))
match_cases true = inl refl
match_cases false = inr (inr refl)

seek_all-RoundFound :
    (x : ℕ) (its : List (List ℕ)) (m : ℕ) (matched : Bool)
    → m ≤ x
    → All (In x) its
    → All Ascending its
    → All (HeadLe m) its
    → RoundFound x m its matched (seek_all its m matched)
unfolding rounds
seek_all-RoundFound x [] m matched l i a h =
    unfold seek_all in (tt, l, tt, omega arith, match_cases matched, refl)
seek_all-RoundFound x (it ∷ its) m matched l i a h =
    let one = seek_one-Found x m it l i.0 a.0 h.0 in
    elim (Option-cases (seek_one m it)) [
      | inl e ↦ absurd (subst (Found x m it) e one)
      | inr (found, e) ↦
          let (it', m', converged) = found in
          let s = subst (Found x m it) e one in
          rw (seek_all-next it its m matched it' m' converged e) (
            with_iterator-RoundFound x m m' it it' its matched converged
              (seek_all its m' (if converged then matched else false)) s
              (seek_all-RoundFound x its m' (if converged then matched else false) s.2 i.1 a.1
                (HeadLe-All m m' its s.1 h.1)))
    ]

-- The largest of the current keys.
abbrev MaxFound : ℕ → List (List ℕ) → ℕ → Option ℕ → Type 0
MaxFound x its m none = ⊥
MaxFound x its m (some n) = (m ≤ n) × (n ≤ x) × All (HeadLe n) its

widen :
    (x k : ℕ) (ks : List ℕ) (its : List (List ℕ)) (m n : ℕ) (o : Option ℕ)
    → m ≤ n
    → k ≤ n
    → MaxFound x its n o
    → MaxFound x ((k ∷ ks) ∷ its) m o
widen x k ks its m n none l h f = f
widen x k ks its m n (some j) l h f = (omega arith, f.1, (omega arith, f.2))

find_max-MaxFound :
    (x : ℕ) (its : List (List ℕ)) (m : ℕ)
    → m ≤ x
    → All (In x) its
    → All Ascending its
    → MaxFound x its m (find_max its m)
unfolding find_max
find_max-MaxFound x [] m l i a = (omega arith, l, tt)
find_max-MaxFound x ([] ∷ its) m l i a = absurd i.0
find_max-MaxFound x ((k ∷ ks) ∷ its) m l i a =
    let low = head_le x k ks a.0 i.0 in
    let n = if ltb m k then k else m in
    let above : m ≤ n = ground arith in
    let head : k ≤ n = ground arith in
    widen x k ks its m n (find_max its n) above head
      (find_max-MaxFound x its n (ground arith) i.1 a.1)

rounds_positive : (its : List (List ℕ)) → 1 ≤ rounds its
unfolding rounds
rounds_positive [] = omega arith
rounds_positive (it ∷ its) = omega (arith, rounds_positive its)

-- Advancing the first iterator from the common key n loses no larger key.
abbrev Advanced : ℕ → List (List ℕ) → Type 0
Advanced x its =
    All (In x) (advance_first its)
    × All Ascending (advance_first its)
    × (rounds (advance_first its) < rounds its)
    × (length (advance_first its) ≡ length its)

advance_keep :
    (x n : ℕ) (its : List (List ℕ))
    → 0 < length its
    → All (In x) its
    → All (In n) its
    → All Ascending its
    → n < x
    → Advanced x its
unfolding advance_first next rounds
advance_keep x n [] p i j a l = absurd (omega arith)
advance_keep x n ([] ∷ its) p i j a l = absurd i.0
advance_keep x n ((k ∷ ks) ∷ its) p i j a l =
    let low = head_le n k ks a.0 j.0 in
    (
      (elim i.0 [ inl e ↦ absurd (omega arith) | inr later ↦ later ], i.1),
      (a.0.1, a.1),
      omega arith,
      refl,
    )

next_round :
    (x fuel : ℕ) (its : List (List ℕ)) (m : ℕ) (r : Round)
    → 0 < length its
    → rounds its ≤ suc fuel
    → RoundFound x m its true (some r)
    → RoundSeeked x m its true (some r)
    → ((ts : List (List ℕ))
        → 0 < length ts
        → All (In x) ts
        → All Ascending ts
        → rounds ts ≤ fuel
        → In x (join_loop fuel ts))
    → In x (
        if r.all_match
        then r.max_key ∷ join_loop fuel (advance_first r.iterators)
        else join_loop fuel r.iterators)
next_round x fuel its m r p f (i, l, a, less, progress, size) s ih = elim (Bool-cases r.all_match) [
  | inr miss ↦ rw miss (ih r.iterators (omega arith) i a (ground arith))
  | inl hit ↦
      let (same, all, old) = s.1 hit in
      rw hit (elim (Bool-cases (r.max_key == x)) [
        | inl here ↦ inl ((==_iff r.max_key x).0 here)
        | inr other ↦
            let above : m < x = ground arith in
            let (i', a', fewer, size') = advance_keep x m r.iterators (omega arith) i all a above in
            inr (ih (advance_first r.iterators) (omega arith) i' a' (omega arith))
      ])
]

join_loop_finds :
    (x fuel : ℕ) (its : List (List ℕ))
    → 0 < length its
    → All (In x) its
    → All Ascending its
    → rounds its ≤ fuel
    → In x (join_loop fuel its)
join_loop_finds x zero its p i a f = let q = rounds_positive its in absurd (omega arith)
join_loop_finds x (suc fuel) its p i a f =
    let top = find_max-MaxFound x its 0 (omega arith) i a in
    elim (Option-cases (find_max its 0)) [
      | inl e ↦ absurd (subst (MaxFound x its 0) e top)
      | inr (m, e) ↦
          let (positive, low, heads) = subst (MaxFound x its 0) e top in
          let round = seek_all-RoundFound x its m true low i a heads in
          elim (Option-cases (seek_all its m true)) [
            | inl e' ↦ absurd (subst (RoundFound x m its true) e' round)
            | inr (r, e') ↦ rw (loop_next fuel its m r e e') (
                next_round x fuel its m r p f (subst (RoundFound x m its true) e' round)
                  (subst (RoundSeeked x m its true) e' (seek_all-RoundSeeked x its m true))
                  (λ ts q j b g. join_loop_finds x fuel ts q j b g))
          ]
    ]

not_exhausted : (x : ℕ) (its : List (List ℕ)) → All (In x) its → any_exhausted its ≡ false
unfolding any_exhausted
not_exhausted x [] i = refl
not_exhausted x ([] ∷ its) i = absurd i.0
not_exhausted x ((k ∷ ks) ∷ its) i = not_exhausted x its i.1

run_finds :
    (its : List (List ℕ)) (x : ℕ)
    → 0 < length its
    → All Ascending its
    → All (In x) its
    → In x (run its)
unfolding run
run_finds [] x p a i = absurd (omega arith)
run_finds (it ∷ []) x p a i = i.0
run_finds (it ∷ it' ∷ its) x p a i =
    rw (not_exhausted x (it ∷ it' ∷ its) i)
      (join_loop_finds x (rounds (it ∷ it' ∷ its)) (it ∷ it' ∷ its) (omega arith) i a (omega arith))

-- The join of one or more inputs, each with its keys strictly ascending, returns exactly the keys
-- that all inputs have.
pub run_intersects :
    (its : List (List ℕ)) (x : ℕ)
    → 0 < length its
    → All Ascending its
    → In x (run its) ↔ All (In x) its
run_intersects its x p a = (run_sub its x, run_finds its x p a)
