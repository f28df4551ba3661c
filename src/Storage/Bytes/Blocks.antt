-- ===== src/Storage/Bytes/Blocks.antt =====
-- Slices of a byte string, and a write over one of them.
use tensorvault.Prelude.{
  ℕ, zero, suc, ◌+◌, ◌≤◌, ◌≡◌, refl, ap, ◌∙◌, List, [], ◌∷◌, ◌++◌, length, take, drop, arith,
}
use mathlib.Core.List.{append_assoc}
use tensorvault.Storage.Bytes.{take_at, drop_at}

-- A list of two parts, cut behind the first and behind the second.
pub cut_first : (h : ℕ) (a b : List ℕ) → h ≡ length a → take h (a ++ b) ≡ a
cut_first h a b e = take_at h a b e

pub take_all : (n : ℕ) (xs : List ℕ) → n ≡ length xs → take n xs ≡ xs
take_all zero [] e = refl
take_all zero (x ∷ xs) e = absurd (omega arith)
take_all (suc n) [] e = refl
take_all (suc n) (x ∷ xs) e = ap (λ t. x ∷ t) (take_all n xs (omega arith))

pub cut_second :
    (n h : ℕ) (a b : List ℕ) → h ≡ length a → n ≡ length (a ++ b) → drop h (take n (a ++ b)) ≡ b
cut_second n h a b e f = rw (take_all n (a ++ b) f) (drop_at h a b e)

-- A write over the bytes from `i` to `m`, and the `k` bytes at `n`.
abbrev pub write_at : ℕ → ℕ → List ℕ → List ℕ → List ℕ
write_at i m new xs = take i xs ++ new ++ drop m xs

abbrev pub block : ℕ → ℕ → List ℕ → List ℕ
block n k xs = take k (drop n xs)

pub block_same :
    (i m : ℕ) (new xs : List ℕ)
    → i ≤ length xs
    → i ≤ m
    → (k : ℕ) → k ≡ length new
    → block i k (write_at i m new xs) ≡ new
block_same zero m new xs h g k e = take_at k new (drop m xs) e
block_same (suc i) zero new xs h g k e = absurd (omega arith)
block_same (suc i) (suc m) new [] h g k e = absurd (omega arith)
block_same (suc i) (suc m) new (x ∷ xs) h g k e =
    block_same i m new xs (omega arith) (omega arith) k e

take-take :
    (k i : ℕ) (xs ys : List ℕ) → k ≤ i → i ≤ length xs → take k (take i xs ++ ys) ≡ take k xs
take-take zero i xs ys h l = refl
take-take (suc k) zero xs ys h l = absurd (omega arith)
take-take (suc k) (suc i) [] ys h l = absurd (omega arith)
take-take (suc k) (suc i) (x ∷ xs) ys h l =
    ap (λ t. x ∷ t) (take-take k i xs ys (omega arith) (omega arith))

pub block_before :
    (n i m k : ℕ) (new xs : List ℕ)
    → n + k ≤ i
    → i ≤ length xs
    → i ≤ m
    → block n k (write_at i m new xs) ≡ block n k xs
block_before zero i m k new xs h l g =
    ap (take k) (append_assoc (take i xs) new (drop m xs))
    ∙ take-take k i xs (new ++ drop m xs) (omega arith) l
block_before (suc n) zero m k new xs h l g = absurd (omega arith)
block_before (suc n) (suc i) zero k new xs h l g = absurd (omega arith)
block_before (suc n) (suc i) (suc m) k new [] h l g = absurd (omega arith)
block_before (suc n) (suc i) (suc m) k new (x ∷ xs) h l g =
    block_before n i m k new xs (omega arith) (omega arith) (omega arith)

drop_behind :
    (k n : ℕ) (new xs : List ℕ)
    → k ≤ n
    → k ≡ length new
    → k ≤ length xs
    → drop n (new ++ drop k xs) ≡ drop n xs
drop_behind zero n [] xs h e l = refl
drop_behind zero n (y ∷ new) xs h e l = absurd (omega arith)
drop_behind (suc k) zero new xs h e l = absurd (omega arith)
drop_behind (suc k) (suc n) [] xs h e l = absurd (omega arith)
drop_behind (suc k) (suc n) (y ∷ new) [] h e l = absurd (omega arith)
drop_behind (suc k) (suc n) (y ∷ new) (x ∷ xs) h e l =
    drop_behind k n new xs (omega arith) (omega arith) (omega arith)

pub block_after :
    (n i m k : ℕ) (new xs : List ℕ)
    → m ≤ n
    → m ≡ i + length new
    → m ≤ length xs
    → block n k (write_at i m new xs) ≡ block n k xs
block_after n zero m k new xs h e l = ap (take k) (drop_behind m n new xs h (omega arith) l)
block_after zero (suc i) m k new xs h e l = absurd (omega arith)
block_after (suc n) (suc i) zero k new xs h e l = absurd (omega arith)
block_after (suc n) (suc i) (suc m) k new [] h e l = absurd (omega arith)
block_after (suc n) (suc i) (suc m) k new (x ∷ xs) h e l =
    block_after n i m k new xs (omega arith) (omega arith) (omega arith)
