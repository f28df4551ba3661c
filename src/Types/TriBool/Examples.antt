-- ===== src/Types/TriBool/Examples.antt =====
-- Nullable numbers.
use tensorvault.Prelude.{ℕ, Option, some}
use tensorvault.Prelude.Eq.{nat_eq}

abbrev three : Option ℕ
three = some 3
