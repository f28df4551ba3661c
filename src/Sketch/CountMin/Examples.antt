-- ===== src/Sketch/CountMin/Examples.antt =====
-- A sketch of two rows and four columns.
use tensorvault.Prelude.{ℕ, ◌+◌, ◌≤◌, ◌≡◌, refl, some, List, [], ◌∷◌, replicate, arith}
use tensorvault.Sketch.CountMin.{CountMin, seeds_from, new, add_all, estimate}
use tensorvault.Sketch.CountMin.Bounds.{frequency, weight, estimate_bounds}

abbrev sum_hash : List ℕ → ℕ
sum_hash [] = 0
sum_hash (b ∷ bs) = b + sum_hash bs

abbrev two_rows : CountMin
two_rows = record {
  depth = 2;
  width = 4;
  counts = replicate 2 (replicate 4 0);
  seeds = seeds_from 2 0;
}

abbrev stream : List (ℕ × ℕ)
stream = (42, 3) ∷ (7, 2) ∷ (42, 1) ∷ []

made : new 2 4 ≡ some two_rows
unfolding new
made = refl

estimate_bounds_example :
    (frequency 42 stream ≤ estimate sum_hash (add_all sum_hash stream two_rows) 42)
    × (estimate sum_hash (add_all sum_hash stream two_rows) 42 ≤ weight stream)
estimate_bounds_example = estimate_bounds sum_hash 2 4 two_rows stream 42 made (omega arith)
