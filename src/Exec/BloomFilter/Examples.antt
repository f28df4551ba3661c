-- ===== src/Exec/BloomFilter/Examples.antt =====
-- Two keys in a filter for ten.
use tensorvault.Prelude.{◌≡◌, refl, true, false, none, [], ◌∷◌, inl, inr}
use tensorvault.Exec.BloomFilter.{with_hashes, insert, might_contain}
use tensorvault.Exec.BloomFilter.Contains.{insert_all, might_contain-with_hashes}

denied : might_contain none 8 (insert_all none (5 ∷ 7 ∷ []) (with_hashes 10 3)) ≡ false
unfolding might_contain insert with_hashes
denied = refl

might_contain-with_hashes_example :
    might_contain none 7 (insert_all none (5 ∷ 7 ∷ []) (with_hashes 10 3)) ≡ true
might_contain-with_hashes_example =
    might_contain-with_hashes none 10 3 (5 ∷ 7 ∷ []) 7 (inr (inl refl))
