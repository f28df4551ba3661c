-- ===== src/Prelude/Eq.antt =====
-- Rust's `Eq` bound: a Boolean test that decides equality.
use Prim.Native.String.{String}
use text.Mathlib.Text.{◌==◌ as str_eq}
use text.Mathlib.TextEquality.{eq_iff}
use mathlib.Core.Path.{◌≡◌, refl, ap}
use mathlib.Core.Logic.{◌↔◌}
use mathlib.Core.Bool.{Bool, true, false, ◌&&◌}
use Prim.Native.Nat.{ℕ}
use tensorvault.Prelude.Tests.{◌==◌, ==_iff}

pub record Eq {ℓ} (A : Type ℓ) : Type ℓ where
  pub beq : A → A → Bool
  pub beq_iff : (a b : A) → (beq a b ≡ true) ↔ (a ≡ b)

abbrev nat_beq : ℕ → ℕ → Bool
nat_beq a b = a == b

instance abbrev pub nat_eq : Eq ℕ
nat_eq = record { beq = nat_beq; beq_iff = ==_iff }

instance abbrev pub string_eq : Eq String
string_eq = record { beq = str_eq; beq_iff = eq_iff }

unfoldable pub pair_beq {ℓ κ} :
    {A : Type ℓ} {B : Type κ} (a : Eq A) (b : Eq B) → A × B → A × B → Bool
pair_beq a b x y = a.beq x.0 y.0 && b.beq x.1 y.1

pub pair_beq_iff {ℓ κ} :
    {A : Type ℓ} {B : Type κ} (a : Eq A) (b : Eq B) (x y : A × B)
    → (pair_beq a b x y ≡ true) ↔ (x ≡ y)
unfolding pair_beq
pair_beq_iff a b x y = (
  λ h.
      let both = and_true (a.beq x.0 y.0) (b.beq x.1 y.1) h in
      let first = (a.beq_iff x.0 y.0).0 both.0 in
      let second = (b.beq_iff x.1 y.1).0 both.1 in λ i. (first i, second i),
  λ e. rw ((a.beq_iff x.0 y.0).1 (ap (λ p. p.0) e), (b.beq_iff x.1 y.1).1 (ap (λ p. p.1) e)) refl,
)
  where
    and_true : (p q : Bool) → (p && q) ≡ true → (p ≡ true) × (q ≡ true)
    and_true true q h = (refl, h)
    and_true false q h = absurd cc

instance abbrev pub pair_eq {ℓ κ} : {A : Type ℓ} {B : Type κ} ⦃a : Eq A⦄ ⦃b : Eq B⦄ → Eq (A × B)
pair_eq ⦃a⦄ ⦃b⦄ = record { beq = pair_beq a b; beq_iff = pair_beq_iff a b }
