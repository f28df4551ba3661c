-- ===== src/Storage/Page/Checksum.antt =====
-- The two routines of the checksum.
use Prim.Native.Nat.{bit_and, bit_xor}
use tensorvault.Prelude.{
  ℕ, zero, suc, ◌-◌, ◌/◌, ◌%◌, ◌^◌, ◌<◌, ◌≡◌, refl, ap, sym, ◌∙◌, List, [], ◌∷◌, ◌++◌, length,
  arith,
}
use tensorvault.Prelude.Forall.{All, All-take}
use tensorvault.Prelude.Bits.{bit_xor-bound}
use tensorvault.Prelude.Masks.{bit_and-bound}
use tensorvault.Storage.Bytes.{from_le_bytes}
use tensorvault.Storage.Page.Castagnoli.{remainder, remainder-bytes, from_le_bytes-bound}
use tensorvault.Storage.Page.{
  Sse42, crc32c_poly_reversed, crc32c_round, crc32c_rounds, crc32c_bytes, crc32c_scalar, tail_u8,
  tail_u16, tail_u32, chunks_u64, crc32c_sse42,
}
use tensorvault.Storage.Page.Layout.{IsByte}

-- What the manual of the processor says of the instructions: each divides the polynomial of the
-- operand, reflected, with the checksum of 32 bits added to its highest powers, by the polynomial
-- 0x11EDC6F41, and returns the remainder, reflected.
abbrev pub IsSse42 : Sse42 → Type 0
IsSse42 cpu =
    ((crc n : ℕ)
      → crc < 2 ^ 32
      → n < 2 ^ 64
      → cpu.mm_crc32_u64 crc n ≡ remainder 64 (bit_xor crc n))
    × ((crc n : ℕ)
        → crc < 2 ^ 32
        → n < 2 ^ 32
        → cpu.mm_crc32_u32 crc n ≡ remainder 32 (bit_xor crc n))
    × ((crc n : ℕ)
        → crc < 2 ^ 32
        → n < 2 ^ 16
        → cpu.mm_crc32_u16 crc n ≡ remainder 16 (bit_xor crc n))
    × ((crc n : ℕ) → crc < 2 ^ 32 → n < 2 ^ 8 → cpu.mm_crc32_u8 crc n ≡ remainder 8 (bit_xor crc n))

crc32c_round-bound : (crc : ℕ) → crc < 2 ^ 32 → crc32c_round crc < 2 ^ 32
unfolding crc32c_round
crc32c_round-bound crc h =
    bit_xor-bound 32 (crc / 2) (bit_and crc32c_poly_reversed ((2 ^ 32 - bit_and crc 1) % 2 ^ 32))
      (omega arith) (bit_and-bound 32 crc32c_poly_reversed _ (omega arith))

crc32c_rounds-bound : (n crc : ℕ) → crc < 2 ^ 32 → crc32c_rounds n crc < 2 ^ 32
unfolding crc32c_rounds
crc32c_rounds-bound zero crc h = h
crc32c_rounds-bound (suc n) crc h =
    crc32c_rounds-bound n (crc32c_round crc) (crc32c_round-bound crc h)

pub crc32c_bytes-bound :
    (bs : List ℕ) (crc : ℕ) → All IsByte bs → crc < 2 ^ 32 → crc32c_bytes bs crc < 2 ^ 32
unfolding crc32c_bytes
crc32c_bytes-bound [] crc w h = h
crc32c_bytes-bound (b ∷ bs) crc w h =
    crc32c_bytes-bound bs _ w.1
      (crc32c_rounds-bound 8 _ (bit_xor-bound 32 crc b h (omega (arith, w.0))))

crc32c_bytes-append :
    (xs ys : List ℕ) (crc : ℕ) → crc32c_bytes (xs ++ ys) crc ≡ crc32c_bytes ys (crc32c_bytes xs crc)
unfolding crc32c_bytes
crc32c_bytes-append [] ys crc = refl
crc32c_bytes-append (x ∷ xs) ys crc = crc32c_bytes-append xs ys _

module _ (cpu : Sse42) (w : IsSse42 cpu) where
  tail_u8_bytes :
      (bs : List ℕ) (crc : ℕ)
      → All IsByte bs
      → crc < 2 ^ 32
      → length bs < 2
      → tail_u8 cpu bs crc ≡ crc32c_bytes bs crc
  unfolding tail_u8
  tail_u8_bytes [] crc v h l = unfold crc32c_bytes in refl
  tail_u8_bytes (b ∷ []) crc v h l =
      let one : from_le_bytes (b ∷ []) ≡ b = unfold from_le_bytes in omega arith in
      w.3 crc b h (omega (arith, v.0))
      ∙ ap (λ n. remainder 8 (bit_xor crc n)) (sym one)
      ∙ remainder-bytes (b ∷ []) crc v
  tail_u8_bytes (b ∷ c ∷ bs) crc v h l = absurd (omega arith)

  tail_u16_bytes :
      (bs : List ℕ) (crc : ℕ)
      → All IsByte bs
      → crc < 2 ^ 32
      → tail_u16 cpu bs crc ≡ crc32c_bytes bs crc
  unfolding tail_u16
  tail_u16_bytes [] crc v h = tail_u8_bytes [] crc v h (omega arith)
  tail_u16_bytes (a ∷ []) crc v h = tail_u8_bytes (a ∷ []) crc v h (omega arith)
  tail_u16_bytes (a ∷ b ∷ bs) crc v h =
      let now : List ℕ = a ∷ b ∷ [] in
      let u : All IsByte now = All-take IsByte 2 (a ∷ b ∷ bs) v in
      rw (w.2 crc (from_le_bytes now) h (from_le_bytes-bound now u) ∙ remainder-bytes now crc u) (
        tail_u16_bytes bs _ v.1.1 (crc32c_bytes-bound now crc u h)
        ∙ sym (crc32c_bytes-append now bs crc))

  tail_u32_bytes :
      (bs : List ℕ) (crc : ℕ)
      → All IsByte bs
      → crc < 2 ^ 32
      → tail_u32 cpu bs crc ≡ crc32c_bytes bs crc
  unfolding tail_u32
  tail_u32_bytes [] crc v h = tail_u16_bytes [] crc v h
  tail_u32_bytes (a ∷ []) crc v h = tail_u16_bytes (a ∷ []) crc v h
  tail_u32_bytes (a ∷ b ∷ []) crc v h = tail_u16_bytes (a ∷ b ∷ []) crc v h
  tail_u32_bytes (a ∷ b ∷ c ∷ []) crc v h = tail_u16_bytes (a ∷ b ∷ c ∷ []) crc v h
  tail_u32_bytes (a ∷ b ∷ c ∷ d ∷ bs) crc v h =
      let now : List ℕ = a ∷ b ∷ c ∷ d ∷ [] in
      let u : All IsByte now = All-take IsByte 4 (a ∷ b ∷ c ∷ d ∷ bs) v in
      rw (w.1 crc (from_le_bytes now) h (from_le_bytes-bound now u) ∙ remainder-bytes now crc u) (
        tail_u32_bytes bs _ v.1.1.1.1 (crc32c_bytes-bound now crc u h)
        ∙ sym (crc32c_bytes-append now bs crc))

  chunks_short :
      (bs : List ℕ) (crc : ℕ)
      → crc < 2 ^ 32
      → length bs < 8
      → chunks_u64 cpu bs crc ≡ tail_u32 cpu bs crc
  unfolding chunks_u64
  chunks_short [] crc h l = ap (tail_u32 cpu []) (omega arith)
  chunks_short (a ∷ []) crc h l = ap (tail_u32 cpu (a ∷ [])) (omega arith)
  chunks_short (a ∷ b ∷ []) crc h l = ap (tail_u32 cpu (a ∷ b ∷ [])) (omega arith)
  chunks_short (a ∷ b ∷ c ∷ []) crc h l = ap (tail_u32 cpu (a ∷ b ∷ c ∷ [])) (omega arith)
  chunks_short (a ∷ b ∷ c ∷ d ∷ []) crc h l = ap (tail_u32 cpu (a ∷ b ∷ c ∷ d ∷ [])) (omega arith)
  chunks_short (a ∷ b ∷ c ∷ d ∷ e ∷ []) crc h l =
      ap (tail_u32 cpu (a ∷ b ∷ c ∷ d ∷ e ∷ [])) (omega arith)
  chunks_short (a ∷ b ∷ c ∷ d ∷ e ∷ f ∷ []) crc h l =
      ap (tail_u32 cpu (a ∷ b ∷ c ∷ d ∷ e ∷ f ∷ [])) (omega arith)
  chunks_short (a ∷ b ∷ c ∷ d ∷ e ∷ f ∷ g ∷ []) crc h l =
      ap (tail_u32 cpu (a ∷ b ∷ c ∷ d ∷ e ∷ f ∷ g ∷ [])) (omega arith)
  chunks_short (a ∷ b ∷ c ∷ d ∷ e ∷ f ∷ g ∷ i ∷ bs) crc h l = absurd (omega arith)

  chunks_u64_bytes :
      (bs : List ℕ) (crc : ℕ)
      → All IsByte bs
      → crc < 2 ^ 32
      → chunks_u64 cpu bs crc ≡ crc32c_bytes bs crc
  unfolding chunks_u64
  chunks_u64_bytes (a ∷ b ∷ c ∷ d ∷ e ∷ f ∷ g ∷ i ∷ bs) crc v h =
      let now : List ℕ = a ∷ b ∷ c ∷ d ∷ e ∷ f ∷ g ∷ i ∷ [] in
      let u : All IsByte now = All-take IsByte 8 (a ∷ b ∷ c ∷ d ∷ e ∷ f ∷ g ∷ i ∷ bs) v in
      rw (w.0 crc (from_le_bytes now) h (from_le_bytes-bound now u) ∙ remainder-bytes now crc u) (
        chunks_u64_bytes bs _ v.1.1.1.1.1.1.1.1 (crc32c_bytes-bound now crc u h)
        ∙ sym (crc32c_bytes-append now bs crc))
  chunks_u64_bytes bs crc v h = chunks_short bs crc h (omega arith) ∙ tail_u32_bytes bs crc v h

  -- On bytes, the routine with the instructions of SSE4.2, which divide by the polynomial
  -- 0x11EDC6F41 as the manual of the processor says, computes what the loop over the bits computes,
  -- at every length.
  pub crc32c_sse42-crc32c_scalar :
      (cells : List ℕ) → All IsByte cells → crc32c_sse42 cpu cells ≡ crc32c_scalar cells
  unfolding crc32c_sse42 crc32c_scalar
  crc32c_sse42-crc32c_scalar cells v =
      ap (λ t. bit_xor t 0xFFFFFFFF) (chunks_u64_bytes cells 0xFFFFFFFF v (omega arith))
