-- ===== src/Kernel/Leapfrog.antt =====
-- src/kernel/leapfrog.rs: the leapfrog join over slices. An iterator is the list of its keys from
-- its position on, so it starts at its first key; on ascending keys the binary search of `seek`
-- passes over the keys below its argument.
pub mod Sound
mod Complete
pub mod Intersection
mod Examples
use tensorvault.Prelude.{
  ℕ, zero, suc, ◌+◌, ltb, ◌==◌, if◌then◌else◌, Bool, true, false, Option, none, some, List, [], ◌∷◌,
  length,
}

unfoldable pub current_key : List ℕ → Option ℕ
current_key [] = none
current_key (k ∷ ks) = some k

unfoldable pub seek : ℕ → List ℕ → List ℕ
seek key [] = []
seek key (k ∷ ks) = let rest = seek key ks in if ltb k key then rest else k ∷ ks

unfoldable pub next : List ℕ → List ℕ
next [] = []
next (k ∷ ks) = ks

-- Step 1 of the loop from the largest key so far: none when an iterator is exhausted.
unfoldable pub find_max : List (List ℕ) → ℕ → Option ℕ
find_max [] max_key = some max_key
find_max ([] ∷ its) max_key = none
find_max ((k ∷ ks) ∷ its) max_key = find_max its (if ltb max_key k then k else max_key)

-- Step 2 on one iterator: where it is, the largest key, and whether it is at that key; none when
-- the seek exhausts it.
unfoldable pub landed : ℕ → List ℕ → Option (List ℕ × ℕ × Bool)
landed m [] = none
landed m (k ∷ ks) =
    if k == m then some (k ∷ ks, m, true) else some (k ∷ ks, if ltb m k then k else m, false)

unfoldable pub seek_one : ℕ → List ℕ → Option (List ℕ × ℕ × Bool)
unfolding landed seek
seek_one m [] = landed m (seek m [])
seek_one m (k ∷ ks) =
    if k == m
    then some (k ∷ ks, m, true)
    else if ltb m k
    then some (k ∷ ks, m, false)
    else landed m (seek m (k ∷ ks))

-- Where step 2 has come to.
pub record Round : Type 0 where
  pub iterators : List (List ℕ)
  pub max_key : ℕ
  pub all_match : Bool

abbrev pub with_iterator : List ℕ → Option Round → Option Round
with_iterator it none = none
with_iterator it (some r) = some (record r { iterators = it ∷ r.iterators })

-- Step 2 of the loop.
unfoldable pub seek_all : List (List ℕ) → ℕ → Bool → Option Round
unfolding seek_one
seek_all [] m matched = some (record { iterators = []; max_key = m; all_match = matched })
seek_all (it ∷ its) m matched = elim (seek_one m it) [
  | none ↦ none
  | some (it', m', converged) ↦
      with_iterator it' (seek_all its m' (if converged then matched else false))
]

unfoldable pub advance_first : List (List ℕ) → List (List ℕ)
advance_first [] = []
advance_first (it ∷ its) = next it ∷ its

-- The loop, with the keys that it pushes from here on.
unfoldable pub join_loop : ℕ → List (List ℕ) → List ℕ
unfolding find_max seek_all advance_first
join_loop zero its = []
join_loop (suc fuel) its = elim (find_max its 0) [
  | none ↦ []
  | some m ↦ elim (seek_all its m true) [
    | none ↦ []
    | some r ↦
        let again = join_loop fuel r.iterators in
        let after = join_loop fuel (advance_first r.iterators) in
        if r.all_match then r.max_key ∷ after else again
  ]
]

unfoldable pub any_exhausted : List (List ℕ) → Bool
any_exhausted [] = false
any_exhausted ([] ∷ its) = true
any_exhausted ((k ∷ ks) ∷ its) = any_exhausted its

-- Every round but the last passes over a key, so the number of keys and one more is enough fuel.
unfoldable pub rounds : List (List ℕ) → ℕ
rounds [] = 1
rounds (it ∷ its) = length it + rounds its

unfoldable pub run : List (List ℕ) → List ℕ
unfolding any_exhausted rounds join_loop
run [] = []
run (it ∷ []) = it
run (it ∷ it' ∷ its) =
    if any_exhausted (it ∷ it' ∷ its)
    then []
    else join_loop (rounds (it ∷ it' ∷ its)) (it ∷ it' ∷ its)
