-- ===== src/Storage/SsTable/Slices.antt =====
-- Slices of byte strings that are put together from parts.
use mathlib.Core.List.{append_assoc}
use tensorvault.Prelude.{
  ℕ, zero, suc, ◌+◌, ◌*◌, ◌≤◌, ◌≡◌, refl, sym, ap, ◌∙◌, some, List, [], ◌∷◌, ◌++◌, length,
  get_elem?, take, drop, arith, length-append, take_append_inside,
}
use tensorvault.Prelude.Forall.{All}
use tensorvault.Storage.Bytes.Blocks.{block, take_all}

-- The concatenation of some byte strings
abbrev pub flat : List (List ℕ) → List ℕ
flat [] = []
flat (x ∷ xs) = x ++ flat xs

pub flat-append : (xs ys : List (List ℕ)) → flat (xs ++ ys) ≡ flat xs ++ flat ys
flat-append [] ys = refl
flat-append (x ∷ xs) ys =
    ap (λ t. x ++ t) (flat-append xs ys) ∙ sym (append_assoc x (flat xs) (flat ys))

abbrev pub AllLong : ℕ → List (List ℕ) → Type 0
AllLong k xs = All (λ x. length x ≡ k) xs

pub length-flat : (k : ℕ) (xs : List (List ℕ)) → AllLong k xs → length (flat xs) ≡ length xs * k
length-flat k [] h = omega arith
length-flat k (x ∷ xs) h = omega (arith, length-append x (flat xs), h.0, length-flat k xs h.1)

drop_inside : (n : ℕ) (a b : List ℕ) → n ≤ length a → drop n (a ++ b) ≡ drop n a ++ b
drop_inside zero a b h = refl
drop_inside (suc n) [] b h = absurd (omega arith)
drop_inside (suc n) (x ∷ a) b h = drop_inside n a b (omega arith)

drop_beyond : (m n : ℕ) (a b : List ℕ) → m ≡ length a + n → drop m (a ++ b) ≡ drop n b
drop_beyond m n [] b h = ap (λ t. drop t b) (omega arith)
drop_beyond zero n (x ∷ a) b h = absurd (omega arith)
drop_beyond (suc m) n (x ∷ a) b h = drop_beyond m n a b (omega arith)

length-drop : (n : ℕ) (a : List ℕ) → n ≤ length a → n + length (drop n a) ≡ length a
length-drop zero a h = omega arith
length-drop (suc n) [] h = absurd (omega arith)
length-drop (suc n) (x ∷ a) h = omega (arith, length-drop n a (omega arith))

-- A block behind the first part, and one inside of it.
pub block_beyond : (m n k : ℕ) (a b : List ℕ) → m ≡ length a + n → block m k (a ++ b) ≡ block n k b
block_beyond m n k a b h = ap (take k) (drop_beyond m n a b h)

pub block_inside : (n k : ℕ) (a b : List ℕ) → n + k ≤ length a → block n k (a ++ b) ≡ block n k a
block_inside n k a b h =
    ap (take k) (drop_inside n a b (omega arith))
    ∙ take_append_inside k (drop n a) b (omega (arith, length-drop n a (omega arith)))

-- A block of an element of a concatenation of strings of one length.
pub block_in-flat :
    (k i j l m : ℕ) (xs : List (List ℕ)) (x : List ℕ)
    → AllLong k xs
    → get_elem? xs i ≡ some x
    → j + l ≤ k
    → m ≡ i * k + j
    → block m l (flat xs) ≡ block j l x
block_in-flat k i j l m [] x h e b q = ground (arith, e)
block_in-flat k zero j l m (y ∷ xs) x h e b q =
    let same : y ≡ x = ground (arith, e) in
    let start : m ≡ j = omega (arith, q) in
    ap (λ t. block t l (y ++ flat xs)) start
    ∙ block_inside j l y (flat xs) (omega (arith, h.0))
    ∙ ap (block j l) same
block_in-flat k (suc i) j l m (y ∷ xs) x h e b q =
    block_beyond m (i * k + j) l y (flat xs) (omega (arith, h.0, q))
    ∙ block_in-flat k i j l (i * k + j) xs x h.1 e b refl

-- An element of such a concatenation.
pub block-flat :
    (k i m : ℕ) (xs : List (List ℕ)) (x : List ℕ)
    → AllLong k xs
    → length x ≡ k
    → get_elem? xs i ≡ some x
    → m ≡ i * k
    → block m k (flat xs) ≡ x
block-flat k i m xs x h l e q =
    block_in-flat k i 0 k m xs x h e (omega arith) (omega (arith, q)) ∙ take_all k x (sym l)
