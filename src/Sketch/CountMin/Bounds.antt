-- ===== src/Sketch/CountMin/Bounds.antt =====
-- What the sketch promises about an estimate.
use Prim.Native.Nat.{bit_or}
use mathlib.Core.Path.{subst}
use mathlib.Core.Option.{some-injective}
use tensorvault.Prelude.{
  ◌*◌, ℕ, zero, suc, ◌+◌, ◌-◌, ◌%◌, ◌≤◌, ◌<◌, ◌≡◌, refl, ap, ◌∙◌, sym, ltb, ◌==◌, if◌then◌else◌,
  Bool, true, some, List, [], ◌∷◌, get_or, set, replicate, length, length-set, arith, u64_mod,
  ==_iff,
}
use tensorvault.Sketch.CountMin.{
  CountMin, saturating_add, seeds_from, new, hash, add_rows, add, min_rows, estimate, add_all,
}

-- What was added for the key, and what was added in all.
abbrev pub frequency : ℕ → List (ℕ × ℕ) → ℕ
frequency key [] = 0
frequency key ((k, count) ∷ stream) =
    let rest = frequency key stream in if k == key then count + rest else rest

abbrev pub weight : List (ℕ × ℕ) → ℕ
weight [] = 0
weight ((k, count) ∷ stream) = count + weight stream

get_or-set :
    (xs : List ℕ) (i j v : ℕ)
    → i < length xs
    → get_or (set xs i v) j 0 ≡ (if i == j then v else get_or xs j 0)
get_or-set [] i j v h = absurd (omega arith)
get_or-set (x ∷ xs) zero zero v h = refl
get_or-set (x ∷ xs) zero (suc j) v h = ground arith
get_or-set (x ∷ xs) (suc i) zero v h = ground arith
get_or-set (x ∷ xs) (suc i) (suc j) v h = get_or-set xs i j v (omega arith) ∙ ground arith

get_or-replicate : (n j : ℕ) → get_or (replicate {A = ℕ} n 0) j 0 ≡ 0
get_or-replicate zero j = refl
get_or-replicate (suc n) zero = refl
get_or-replicate (suc n) (suc j) = get_or-replicate n j

length-replicate : (n : ℕ) → length (replicate {A = ℕ} n 0) ≡ n
length-replicate zero = refl
length-replicate (suc n) = ap suc (length-replicate n)

-- The counter at d of a row after its counter at c grew.
cell_between :
    (row : List ℕ) (c d low high count : ℕ) (same : Bool)
    → c < length row
    → (same ≡ true → c ≡ d)
    → low ≤ get_or row d 0
    → get_or row d 0 ≤ high
    → high + count < u64_mod
    → ((if same then low + count else low)
        ≤ get_or (set row c (saturating_add (get_or row c 0) count)) d 0)
      × (get_or (set row c (saturating_add (get_or row c 0) count)) d 0 ≤ high + count)
unfolding saturating_add
cell_between row c d low high count same i e l h b =
    rw (get_or-set row c d (saturating_add (get_or row c 0) count) i) (grind arith, grind arith)

abbrev zero_sketch : ℕ → ℕ → CountMin
zero_sketch d w = record {
  depth = d;
  width = w;
  counts = replicate d (replicate w 0);
  seeds = seeds_from d 0;
}

module _ (xxh3_64 : List ℕ → ℕ) where
  -- In every row, the counter of the key is between the two numbers.
  abbrev pub RowsBetween : ℕ → ℕ → ℕ → ℕ → List ℕ → List (List ℕ) → Type 0
  RowsBetween w key low high (seed ∷ seeds) (row ∷ rows) =
      (length row ≡ w)
      × (low ≤ get_or row (hash xxh3_64 w key seed) 0)
      × (get_or row (hash xxh3_64 w key seed) 0 ≤ high)
      × RowsBetween w key low high seeds rows
  RowsBetween w key low high [] [] = Unit
  RowsBetween w key low high [] (row ∷ rows) = ⊥
  RowsBetween w key low high (seed ∷ seeds) [] = ⊥

  add_rows-RowsBetween :
      (w key k count low high : ℕ) (seeds : List ℕ) (rows : List (List ℕ))
      → 0 < w
      → high + count < u64_mod
      → RowsBetween w key low high seeds rows
      → RowsBetween w key
          (if k == key then low + count else low)
          (high + count)
          seeds
          (add_rows xxh3_64 w k count seeds rows)
  unfolding add_rows hash saturating_add
  add_rows-RowsBetween w key k count low high [] [] p b h = tt
  add_rows-RowsBetween w key k count low high [] (row ∷ rows) p b h = absurd h
  add_rows-RowsBetween w key k count low high (seed ∷ seeds) [] p b h = absurd h
  add_rows-RowsBetween w key k count low high (seed ∷ seeds) (row ∷ rows) p b h =
      let c = hash xxh3_64 w k seed in
      let d = hash xxh3_64 w key seed in
      let v = saturating_add (get_or row c 0) count in
      let same : (k == key) ≡ true → c ≡ d =
        λ e. ap (λ j. hash xxh3_64 w j seed) ((==_iff k key).0 e) in
      let (above, below) =
        cell_between row c d low high count (k == key) (rw h.0 (omega arith)) same h.1 h.2 b in
      (
        length-set row c v ∙ h.0,
        above,
        below,
        add_rows-RowsBetween w key k count low high seeds rows p b h.3,
      )

  min_rows_between :
      (w key low high m : ℕ) (seeds : List ℕ) (rows : List (List ℕ))
      → RowsBetween w key low high seeds rows
      → low ≤ m
      → low ≤ min_rows xxh3_64 w key seeds rows m
  unfolding min_rows
  min_rows_between w key low high m [] [] h l = l
  min_rows_between w key low high m [] (row ∷ rows) h l = absurd h
  min_rows_between w key low high m (seed ∷ seeds) [] h l = absurd h
  min_rows_between w key low high m (seed ∷ seeds) (row ∷ rows) h l =
      let v = get_or row (hash xxh3_64 w key seed) 0 in
      min_rows_between w key low high (if ltb v m then v else m) seeds rows h.3
        (ground (arith, h.1))

  min_rows_below :
      (w key m : ℕ) (seeds : List ℕ) (rows : List (List ℕ))
      → min_rows xxh3_64 w key seeds rows m ≤ m
  unfolding min_rows
  min_rows_below w key m [] rows = omega arith
  min_rows_below w key m (seed ∷ seeds) [] = omega arith
  min_rows_below w key m (seed ∷ seeds) (row ∷ rows) =
      let v = get_or row (hash xxh3_64 w key seed) 0 in
      ground (arith, min_rows_below w key (if ltb v m then v else m) seeds rows)

  -- The state of a sketch: at least one row, and the counters of the key between the numbers.
  abbrev pub Between : ℕ → ℕ → ℕ → CountMin → Type 0
  Between key low high s =
      (0 < s.width) × (0 < length s.seeds) × RowsBetween s.width key low high s.seeds s.counts

  min_rows_high :
      (w key low high m : ℕ) (seeds : List ℕ) (rows : List (List ℕ))
      → 0 < length seeds
      → RowsBetween w key low high seeds rows
      → min_rows xxh3_64 w key seeds rows m ≤ high
  unfolding min_rows
  min_rows_high w key low high m [] rows n h = absurd (omega arith)
  min_rows_high w key low high m (seed ∷ seeds) [] n h = absurd h
  min_rows_high w key low high m (seed ∷ seeds) (row ∷ rows) n h =
      let v = get_or row (hash xxh3_64 w key seed) 0 in
      ground (arith, min_rows_below w key (if ltb v m then v else m) seeds rows, h.2)

  estimate-Between :
      (key low high : ℕ) (s : CountMin)
      → Between key low high s
      → low ≤ high
      → high + 1 < u64_mod
      → (low ≤ estimate xxh3_64 s key) × (estimate xxh3_64 s key ≤ high)
  unfolding estimate
  estimate-Between key low high s h o b =
      let at_least =
        min_rows_between s.width key low high (u64_mod - 1) s.seeds s.counts h.2 (omega arith) in
      let at_most = min_rows_high s.width key low high (u64_mod - 1) s.seeds s.counts h.1 h.2 in
      (ground arith, ground arith)

  add_all-Between :
      (key low high : ℕ) (stream : List (ℕ × ℕ)) (s : CountMin)
      → Between key low high s
      → high + weight stream < u64_mod
      → Between key (low + frequency key stream) (high + weight stream) (add_all xxh3_64 stream s)
  unfolding add_all add
  add_all-Between key low high [] s h b =
      let l : low + 0 ≡ low = omega arith in let u : high + 0 ≡ high = omega arith in rw (l, u) h
  add_all-Between key low high ((k, count) ∷ stream) s h b =
      let low' = if k == key then low + count else low in
      let l : low + frequency key ((k, count) ∷ stream) ≡ low' + frequency key stream =
        ground arith in
      let u : high + (count + weight stream) ≡ high + count + weight stream = omega arith in
      let rows =
        add_rows-RowsBetween s.width key k count low high s.seeds s.counts h.0 (omega arith) h.2 in
      rw (l, u)
        (add_all-Between key low' (high + count) stream (add xxh3_64 k count s) (h.0, h.1, rows)
          (omega arith))

  replicate-RowsBetween :
      (n i w key : ℕ) → RowsBetween w key 0 0 (seeds_from n i) (replicate n (replicate w 0))
  unfolding seeds_from
  replicate-RowsBetween zero i w key = tt
  replicate-RowsBetween (suc n) i w key =
      let col = hash xxh3_64 w key (bit_or (i * 0x9E3779B97F4A7C15 % u64_mod) 1) in
      (
        length-replicate w,
        omega arith,
        rw (get_or-replicate w col) (omega arith),
        replicate-RowsBetween n (i + 1) w key,
      )

  frequency-weight : (key : ℕ) (stream : List (ℕ × ℕ)) → frequency key stream ≤ weight stream
  frequency-weight key [] = omega arith
  frequency-weight key ((k, count) ∷ stream) = ground (arith, frequency-weight key stream)

  new-some : (d w : ℕ) → 0 < d → 0 < w → new d w ≡ some (zero_sketch d w)
  unfolding new
  new-some d w h k = ground arith

  new-Between : (depth width key : ℕ) (s : CountMin) → new depth width ≡ some s → Between key 0 0 s
  unfolding new
  new-Between zero width key s h = ground arith
  new-Between (suc d) zero key s h = ground arith
  new-Between (suc d) (suc w) key s h =
      let made = zero_sketch (suc d) (suc w) in
      subst (Between key 0 0)
        (some-injective made s (sym (new-some (suc d) (suc w) (omega arith) (omega arith)) ∙ h))
        (omega arith, omega arith, replicate-RowsBetween (suc d) 0 (suc w) key)

  -- After a stream of a total weight below 2 ^ 64 - 1 into a new sketch, the estimate of a key is at
  -- least the weight that the stream has for the key, and at most the stream's total weight.
  pub estimate_bounds :
      (depth width : ℕ) (s : CountMin) (stream : List (ℕ × ℕ)) (key : ℕ)
      → new depth width ≡ some s
      → weight stream + 1 < u64_mod
      → (frequency key stream ≤ estimate xxh3_64 (add_all xxh3_64 stream s) key)
        × (estimate xxh3_64 (add_all xxh3_64 stream s) key ≤ weight stream)
  estimate_bounds depth width s stream key h b =
      let l : 0 + frequency key stream ≡ frequency key stream = omega arith in
      let u : 0 + weight stream ≡ weight stream = omega arith in
      estimate-Between key (frequency key stream) (weight stream) (add_all xxh3_64 stream s)
        (subst (λ n. Between key n (weight stream) (add_all xxh3_64 stream s)) l
          (subst (λ n. Between key (0 + frequency key stream) n (add_all xxh3_64 stream s)) u
            (add_all-Between key 0 0 stream s (new-Between depth width key s h) (omega arith))))
        (frequency-weight key stream) b
