-- ===== src/Index/Manager/Examples.antt =====
-- A manager with few indexes.
use tensorvault.Prelude.{◌≡◌, ◌≢◌, true, [], ◌∷◌}
use tensorvault.Prelude.Eq.{nat_eq, string_eq, pair_eq, pair_beq, pair_beq_iff}
use tensorvault.Index.Manager.{
  Column, hash, new, create_named, build_hash_index, drop_by_name, lookup,
}
use tensorvault.Index.Manager.Rows.{answer, rows_with, lookup-build_hash_index}
use tensorvault.Index.Manager.Names.{IsDropped, drop_by_name-create_named}

abbrev amount : Column
amount = ("orders", "amount")

abbrev price : Column
price = ("items", "price")

different : ¬ (pair_beq string_eq string_eq amount price ≡ true)
unfolding pair_beq
different e = cc

amount-not-price : amount ≢ price
amount-not-price e = absurd (different ((pair_beq_iff string_eq string_eq amount price).1 e))

lookup-build_hash_index_example :
    (lookup "orders" "amount" 7 (build_hash_index "orders" "amount" (7 ∷ 2 ∷ 7 ∷ []) new)
      ≡ answer (rows_with 7 0 (7 ∷ 2 ∷ 7 ∷ [])))
    × (amount ≢ price
        → lookup "items" "price" 7 (build_hash_index "orders" "amount" (7 ∷ 2 ∷ 7 ∷ []) new)
          ≡ lookup "items" "price" 7 new)
lookup-build_hash_index_example = lookup-build_hash_index amount price (7 ∷ 2 ∷ 7 ∷ []) 7 new

drop_by_name-create_named_example :
    IsDropped "by_amount" amount new
      (drop_by_name "by_amount" (create_named "by_amount" "orders" "amount" hash 5 new))
drop_by_name-create_named_example = drop_by_name-create_named new "by_amount" amount hash 5
