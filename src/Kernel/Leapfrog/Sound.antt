-- ===== src/Kernel/Leapfrog/Sound.antt =====
-- Every key of the join is a key of every input.
use mathlib.Core.Path.{subst}
use mathlib.Core.Bool.{true≢false}
use tensorvault.Prelude.{
  sym, ℕ, zero, suc, ◌≡◌, refl, ◌∙◌, ltb, ◌==◌, ==_iff, if◌then◌else◌, Bool, true, false, Option,
  none, some, List, [], ◌∷◌, arith, inl, inr, ◌⊎◌, Option-cases, Bool-cases,
}
use tensorvault.Prelude.Forall.{All, In}
use tensorvault.Kernel.Leapfrog.{
  seek, next, find_max, landed, seek_one, Round, with_iterator, seek_all, advance_first, join_loop,
  any_exhausted, rounds, run,
}

seek_sub : (x m : ℕ) (it : List ℕ) → In x (seek m it) → In x it
unfolding seek
seek_sub x m [] h = h
seek_sub x m (k ∷ ks) h = ground (arith, seek_sub x m ks)

-- What step 2 says of one key.
abbrev Seeked : ℕ → ℕ → List ℕ → Option (List ℕ × ℕ × Bool) → Type 0
Seeked x m it none = Unit
Seeked x m it (some (it', m', converged)) =
    (In x it' → In x it) × (converged ≡ true → (m' ≡ m) × In m it')

landed-Seeked : (x m : ℕ) (it ks : List ℕ) → (In x ks → In x it) → Seeked x m it (landed m ks)
unfolding landed
landed-Seeked x m it [] s = tt
landed-Seeked x m it (k ∷ ks) s = elim (Bool-cases (k == m)) [
  | inl e ↦ rw e (s, λ c. (refl, inl ((==_iff k m).0 e)))
  | inr e ↦ rw e (s, λ c. ground arith)
]

seek_one-Seeked : (x m : ℕ) (it : List ℕ) → Seeked x m it (seek_one m it)
unfolding seek_one
seek_one-Seeked x m [] = landed-Seeked x m [] (seek m []) (seek_sub x m [])
seek_one-Seeked x m (k ∷ ks) = elim (Bool-cases (k == m)) [
  | inl e ↦ rw e (λ h. h, λ c. (refl, inl ((==_iff k m).0 e)))
  | inr e ↦ elim (Bool-cases (ltb m k)) [
    | inl l ↦ rw (e, l) (λ h. h, λ c. ground arith)
    | inr l ↦ rw (e, l) (landed-Seeked x m (k ∷ ks) (seek m (k ∷ ks)) (seek_sub x m (k ∷ ks)))
  ]
]

abbrev pub RoundSeeked : ℕ → ℕ → List (List ℕ) → Bool → Option Round → Type 0
RoundSeeked x m its matched none = Unit
RoundSeeked x m its matched (some r) =
    (All (In x) r.iterators → All (In x) its)
    × (r.all_match ≡ true → (r.max_key ≡ m) × All (In m) r.iterators × (matched ≡ true))

with_iterator-RoundSeeked :
    (x m m' : ℕ) (it it' : List ℕ) (its : List (List ℕ)) (matched converged : Bool)
    (r : Option Round)
    → Seeked x m it (some (it', m', converged))
    → RoundSeeked x m' its (if converged then matched else false) r
    → RoundSeeked x m (it ∷ its) matched (with_iterator it' r)
with_iterator-RoundSeeked x m m' it it' its matched converged none s h = tt
with_iterator-RoundSeeked x m m' it it' its matched true (some r) s h =
    let (same, here) = s.1 refl in
    (
      λ k. (s.0 k.0, h.0 k.1),
      λ c.
          let (max, all, old) = h.1 c in
          (max ∙ same, (here, subst (λ n. All (In n) r.iterators) same all), old),
    )
with_iterator-RoundSeeked x m m' it it' its matched false (some r) s h =
    (λ k. (s.0 k.0, h.0 k.1), λ c. absurd (true≢false (sym (h.1 c).2)))

pub seek_all-stuck :
    (it : List ℕ) (its : List (List ℕ)) (m : ℕ) (matched : Bool)
    → seek_one m it ≡ none
    → seek_all (it ∷ its) m matched ≡ none
unfolding seek_all
seek_all-stuck it its m matched e = ground (arith, e)

pub seek_all-next :
    (it : List ℕ) (its : List (List ℕ)) (m : ℕ) (matched : Bool) (it' : List ℕ) (m' : ℕ)
    (converged : Bool)
    → seek_one m it ≡ some (it', m', converged)
    → seek_all (it ∷ its) m matched
      ≡ with_iterator it' (seek_all its m' (if converged then matched else false))
unfolding seek_all
seek_all-next it its m matched it' m' converged e = rw (seek_all, e) refl

pub seek_all-RoundSeeked :
    (x : ℕ) (its : List (List ℕ)) (m : ℕ) (matched : Bool)
    → RoundSeeked x m its matched (seek_all its m matched)
unfolding seek_all
seek_all-RoundSeeked x [] m matched = (λ h. h, λ c. (refl, tt, c))
seek_all-RoundSeeked x (it ∷ its) m matched = elim (Option-cases (seek_one m it)) [
  | inl e ↦ rw (seek_all-stuck it its m matched e) tt
  | inr (found, e) ↦
      let (it', m', converged) = found in
      rw (seek_all-next it its m matched it' m' converged e) (
        with_iterator-RoundSeeked x m m' it it' its matched converged
          (seek_all its m' (if converged then matched else false))
          (subst (Seeked x m it) e (seek_one-Seeked x m it))
          (seek_all-RoundSeeked x its m' (if converged then matched else false)))
]

advance_first_sub : (x : ℕ) (its : List (List ℕ)) → All (In x) (advance_first its) → All (In x) its
unfolding advance_first next
advance_first_sub x [] h = tt
advance_first_sub x ([] ∷ its) h = h
advance_first_sub x ((k ∷ ks) ∷ its) h = (inr h.0, h.1)

pushed :
    (x : ℕ) (b : Bool) (max : ℕ) (hits misses : List ℕ)
    → In x (if b then max ∷ hits else misses)
    → ((b ≡ true) × (max ≡ x)) ⊎ (In x hits ⊎ In x misses)
pushed x true max hits misses (inl e) = inl (refl, e)
pushed x true max hits misses (inr h) = inr (inl h)
pushed x false max hits misses h = inr (inr h)

pub loop_exhausted :
    (fuel : ℕ) (its : List (List ℕ)) → find_max its 0 ≡ none → join_loop (suc fuel) its ≡ []
unfolding join_loop
loop_exhausted fuel its e = ground (arith, e)

pub loop_ended :
    (fuel : ℕ) (its : List (List ℕ)) (m : ℕ)
    → find_max its 0 ≡ some m
    → seek_all its m true ≡ none
    → join_loop (suc fuel) its ≡ []
unfolding join_loop
loop_ended fuel its m e e' = ground (arith, e, e')

pub loop_next :
    (fuel : ℕ) (its : List (List ℕ)) (m : ℕ) (r : Round)
    → find_max its 0 ≡ some m
    → seek_all its m true ≡ some r
    → join_loop (suc fuel) its ≡ (
        if r.all_match
        then r.max_key ∷ join_loop fuel (advance_first r.iterators)
        else join_loop fuel r.iterators)
unfolding join_loop
loop_next fuel its m r e e' = ground (arith, e, e')

after_round :
    (x fuel : ℕ) (its : List (List ℕ)) (m : ℕ) (r : Round)
    → RoundSeeked x m its true (some r)
    → ((ts : List (List ℕ)) → In x (join_loop fuel ts) → All (In x) ts)
    → In x (
        if r.all_match
        then r.max_key ∷ join_loop fuel (advance_first r.iterators)
        else join_loop fuel r.iterators)
    → All (In x) its
after_round x fuel its m r s ih h =
    elim (pushed x r.all_match r.max_key (join_loop fuel (advance_first r.iterators))
      (join_loop fuel r.iterators) h) [
        | inl (hit, max) ↦
            let (same, all, old) = s.1 hit in
            s.0 (subst (λ n. All (In n) r.iterators) (sym same ∙ max) all)
        | inr (inl later) ↦
            s.0 (advance_first_sub x r.iterators (ih (advance_first r.iterators) later))
        | inr (inr later) ↦ s.0 (ih r.iterators later)
      ]

join_loop_sub : (x fuel : ℕ) (its : List (List ℕ)) → In x (join_loop fuel its) → All (In x) its
unfolding join_loop
join_loop_sub x zero its h = absurd h
join_loop_sub x (suc fuel) its h = elim (Option-cases (find_max its 0)) [
  | inl e ↦ absurd (subst (In x) (loop_exhausted fuel its e) h)
  | inr (m, e) ↦ elim (Option-cases (seek_all its m true)) [
    | inl e' ↦ absurd (subst (In x) (loop_ended fuel its m e e') h)
    | inr (r, e') ↦
        after_round x fuel its m r
          (subst (RoundSeeked x m its true) e' (seek_all-RoundSeeked x its m true))
          (λ ts k. join_loop_sub x fuel ts k) (subst (In x) (loop_next fuel its m r e e') h)
  ]
]

from_loop : (x : ℕ) (b : Bool) (keys : List ℕ) → In x (if b then [] else keys) → In x keys
from_loop x true keys h = absurd h
from_loop x false keys h = h

-- Every key that the join returns is a key of each of the inputs.
pub run_sub : (its : List (List ℕ)) (x : ℕ) → In x (run its) → All (In x) its
unfolding run
run_sub [] x h = absurd h
run_sub (it ∷ []) x h = (h, tt)
run_sub (it ∷ it' ∷ its) x h = join_loop_sub x (rounds (it ∷ it' ∷ its)) (it ∷ it' ∷ its) (
    from_loop x (any_exhausted (it ∷ it' ∷ its))
      (join_loop (rounds (it ∷ it' ∷ its)) (it ∷ it' ∷ its)) h)
