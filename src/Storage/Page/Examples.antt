-- ===== src/Storage/Page/Examples.antt =====
-- A new page, a page of two words, and the check value of the checksum.
use Prim.Native.Nat.{bit_xor}
use tensorvault.Prelude.{ℕ, ◌^◌, ◌≡◌, refl, none, List, [], ◌∷◌, replicate, arith}
use tensorvault.Prelude.Results.{ok}
use tensorvault.Prelude.Forall.{All}
use tensorvault.Storage.Page.{
  Sse42, Page, new, to_bytes, from_bytes, crc32c_scalar, crc32c_sse42, update_checksum,
  verify_and_correct, flip,
}
use tensorvault.Storage.Page.Layout.{replicate-IsByte, new-IsPage, IsByte, from_bytes-to_bytes}
use tensorvault.Storage.Page.Castagnoli.{remainder}
use tensorvault.Storage.Page.Checksum.{IsSse42, crc32c_sse42-crc32c_scalar}
use tensorvault.Storage.Page.Repair.{IsOutcome, verify_and_correct-IsOutcome}
use tensorvault.Storage.Page.SingleBit.{IsRepaired, update_checksum-IsRepaired}

from_bytes-to_bytes_example : from_bytes (to_bytes new) ≡ ok new
from_bytes-to_bytes_example = from_bytes-to_bytes new new-IsPage

-- The bytes of "123456789"
abbrev digits : List ℕ
digits = 49 ∷ 50 ∷ 51 ∷ 52 ∷ 53 ∷ 54 ∷ 55 ∷ 56 ∷ 57 ∷ []

check_value : crc32c_scalar digits ≡ 0xE3069283
unfolding crc32c_scalar
check_value = refl

abbrev divide : ℕ → ℕ → ℕ → ℕ
divide w crc n = remainder w (bit_xor crc n)

abbrev cpu : Sse42
cpu = record {
  mm_crc32_u64 = divide 64;
  mm_crc32_u32 = divide 32;
  mm_crc32_u16 = divide 16;
  mm_crc32_u8 = divide 8;
}

digits-IsByte : All IsByte digits
digits-IsByte = ground arith

cpu-IsSse42 : IsSse42 cpu
cpu-IsSse42 = (λ crc n h b. refl, λ crc n h b. refl, λ crc n h b. refl, λ crc n h b. refl)

crc32c_sse42-crc32c_scalar_example : crc32c_sse42 cpu digits ≡ crc32c_scalar digits
crc32c_sse42-crc32c_scalar_example = crc32c_sse42-crc32c_scalar cpu cpu-IsSse42 digits digits-IsByte

abbrev filled : Page
filled = record { header = new.header; cells = replicate 16 200 }

update_checksum-IsRepaired_example :
    IsRepaired none
      (flip 9 (2 ^ 3) (update_checksum none filled))
      (verify_and_correct none (flip 9 (2 ^ 3) (update_checksum none filled)))
update_checksum-IsRepaired_example =
    update_checksum-IsRepaired none filled 9 3 (replicate-IsByte 16 200 (omega arith)) refl
      (omega arith) (omega arith)

verify_and_correct-IsOutcome_example :
    IsOutcome none
      (update_checksum none filled)
      (verify_and_correct none (update_checksum none filled))
verify_and_correct-IsOutcome_example =
    verify_and_correct-IsOutcome none (update_checksum none filled)
