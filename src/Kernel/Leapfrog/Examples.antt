-- ===== src/Kernel/Leapfrog/Examples.antt =====
-- Three inputs with two keys in common.
use tensorvault.Prelude.{ℕ, arith, ◌↔◌, ◌≡◌, refl, List, [], ◌∷◌, inl, inr}
use tensorvault.Prelude.Forall.{All, In}
use tensorvault.Kernel.Leapfrog.{
  seek, next, find_max, landed, seek_one, seek_all, advance_first, join_loop, any_exhausted, rounds,
  run,
}
use tensorvault.Kernel.Leapfrog.Complete.{Ascending}
use tensorvault.Kernel.Leapfrog.Intersection.{run_intersects}

abbrev inputs : List (List ℕ)
inputs = (1 ∷ 3 ∷ 5 ∷ 9 ∷ []) ∷ (3 ∷ 4 ∷ 9 ∷ []) ∷ (2 ∷ 3 ∷ 9 ∷ 11 ∷ []) ∷ []

joined : run inputs ≡ 3 ∷ 9 ∷ []
unfolding run seek next find_max landed seek_one seek_all advance_first join_loop any_exhausted
    rounds
joined = refl

nine_joined : In 9 (run inputs)
nine_joined = rw joined (inr (inl refl))

inputs-Ascending : All Ascending inputs
inputs-Ascending = (
  (
    (omega arith, (omega arith, (omega arith, tt))),
    ((omega arith, (omega arith, tt)), ((omega arith, tt), (tt, tt))),
  ),
  (
    ((omega arith, (omega arith, tt)), ((omega arith, tt), (tt, tt))),
    (
      (
        (omega arith, (omega arith, (omega arith, tt))),
        ((omega arith, (omega arith, tt)), ((omega arith, tt), (tt, tt))),
      ),
      tt,
    ),
  ),
)

run_intersects_example : In 9 (run inputs) ↔ All (In 9) inputs
run_intersects_example = run_intersects inputs 9 (omega arith) inputs-Ascending
