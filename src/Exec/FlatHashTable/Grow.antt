-- ===== src/Exec/FlatHashTable/Grow.antt =====
-- The loop of `resize`.
use tensorvault.Prelude.{
  ℕ, zero, suc, ◌+◌, ◌*◌, ◌≤◌, ◌≡◌, refl, sym, ◌∙◌, ◌⊎◌, inl, inr, ◌↔◌, Bool, true, false, Option,
  some, List, [], ◌∷◌, get_or, set, length, length-set, arith,
}
use tensorvault.Exec.FlatHashTable.{FlatHashTable, AggState, reinsert, insert}
use tensorvault.Exec.FlatHashTable.Keys.{IsTable, HasKey}
use tensorvault.Exec.FlatHashTable.Room.{insert_within}

-- A key of the old lists of keys and of marks
abbrev pub IsOldKey : ℕ → List ℕ → List Bool → Type 0
IsOldKey q keys marks = (i : ℕ) × (get_or marks i false ≡ true) × (get_or keys i 0 ≡ q)

module _ (q key : ℕ) (keys : List ℕ) (marks : List Bool) where
  pub old_skipped : IsOldKey q (key ∷ keys) (false ∷ marks) ↔ IsOldKey q keys marks
  old_skipped = (skipped, λ (i, o, e). (suc i, o, e))
    where
      skipped : IsOldKey q (key ∷ keys) (false ∷ marks) → IsOldKey q keys marks
      skipped (zero, o, e) = absurd cc
      skipped (suc i, o, e) = (i, o, e)

  pub old_put : IsOldKey q (key ∷ keys) (true ∷ marks) ↔ ((q ≡ key) ⊎ IsOldKey q keys marks)
  old_put = (split, λ c. elim c [ inl e ↦ (0, refl, sym e) | inr (i, o, e) ↦ (suc i, o, e) ])
    where
      split : IsOldKey q (key ∷ keys) (true ∷ marks) → (q ≡ key) ⊎ IsOldKey q keys marks
      split (zero, o, e) = inl (sym e)
      split (suc i, o, e) = inr (i, o, e)

module _ {P A B C : Type 0} where
  or_congr : (P ↔ (A ⊎ B)) → (C ↔ B) → P ↔ (A ⊎ C)
  or_congr p c = (
    λ x. elim (p.0 x) [ inl a ↦ inl a | inr b ↦ inr (c.1 b) ],
    λ y. p.1 (elim y [ inl a ↦ inl a | inr d ↦ inr (c.0 d) ]),
  )

  -- P is Q or B, and Q is A or E: then P is A or C, where C is E or B.
  pub or_chain : {Q E : Type 0} → (P ↔ (Q ⊎ B)) → (Q ↔ (A ⊎ E)) → (C ↔ (E ⊎ B)) → P ↔ (A ⊎ C)
  or_chain p r c = (
    λ x. elim (p.0 x) [
      | inl q ↦ elim (r.0 q) [ inl a ↦ inl a | inr e ↦ inr (c.1 (inl e)) ]
      | inr b ↦ inr (c.1 (inr b))
    ],
    λ y. p.1 (elim y [
      | inl a ↦ inl (r.1 (inl a))
      | inr d ↦ elim (c.0 d) [ inl e ↦ inl (r.1 (inr e)) | inr b ↦ inr b ]
    ]),
  )

reinsert_step :
    (insert_key : ℕ → FlatHashTable → Option (FlatHashTable × ℕ)) (key slot : ℕ) (keys : List ℕ)
    (marks : List Bool) (s : AggState) (states : List AggState) (t u : FlatHashTable)
    → insert_key key t ≡ some (u, slot)
    → reinsert insert_key (key ∷ keys) (true ∷ marks) (s ∷ states) t
      ≡ reinsert insert_key keys marks states (record u { states = set u.states slot s })
unfolding reinsert
reinsert_step insert_key key slot keys marks s states t u e = rw (reinsert, e) refl

pub with_states-IsTable :
    {k : ℕ} {t : FlatHashTable}
    → IsTable k t
    → (slot : ℕ) (s : AggState) → IsTable k (record t { states = set t.states slot s })
with_states-IsTable {t = t} w slot s = record {
  slots = w.slots;
  masked = w.masked;
  all_keys = w.all_keys;
  all_occupied = w.all_occupied;
  all_states = length-set t.states slot s ∙ w.all_states;
  counted = w.counted;
}

module _ (xxh3_64 : List ℕ → ℕ) where
  -- What the loop of `resize` answers, in a table of 2 ^ k slots
  pub record Rehashed (k : ℕ) (keys : List ℕ) (marks : List Bool) (t : FlatHashTable)
      (answer : Option FlatHashTable) : Type 0 where
    pub after : FlatHashTable
    pub answers : answer ≡ some after
    pub table : IsTable k after
    pub few : after.len ≤ t.len + length marks
    pub holds : (q : ℕ) → HasKey q after ↔ (HasKey q t ⊎ IsOldKey q keys marks)

  pub reinsert-Rehashed :
      (depth k : ℕ) (keys : List ℕ) (marks : List Bool) (states : List AggState) (t : FlatHashTable)
      → length keys ≡ length marks
      → length states ≡ length marks
      → IsTable k t
      → (t.len + length marks) * 4 ≤ t.capacity * 3
      → Rehashed k keys marks t (reinsert (insert xxh3_64 (suc depth)) keys marks states t)
  unfolding reinsert
  reinsert-Rehashed depth k [] [] states t a b w room = record {
    after = t;
    answers = refl;
    table = w;
    few = omega arith;
    holds = λ q. (inl, λ c. elim c [ inl h ↦ h | inr (i, o, e) ↦ absurd cc ]);
  }
  reinsert-Rehashed depth k (key ∷ keys) (false ∷ marks) (s ∷ states) t a b w room =
      let r =
        reinsert-Rehashed depth k keys marks states t (omega arith) (omega arith) w (omega arith) in
      record {
        after = r.after;
        answers = r.answers;
        table = r.table;
        few = omega (arith, r.few);
        holds = λ q. or_congr (r.holds q) (old_skipped q key keys marks);
      }
  reinsert-Rehashed depth k (key ∷ keys) (true ∷ marks) (s ∷ states) t a b w room =
      let one = insert_within xxh3_64 depth k key t w (omega arith) in
      let v = record one.after { states = set one.after.states one.slot s } in
      let r =
        reinsert-Rehashed depth k keys marks states v (omega arith) (omega arith)
          (with_states-IsTable one.added.table one.slot s)
          (omega (arith, one.added.longer, one.added.table.slots, w.slots)) in
      record {
        after = r.after;
        answers =
            reinsert_step (insert xxh3_64 (suc depth)) key one.slot keys marks s states t one.after
              one.answers
            ∙ r.answers;
        table = r.table;
        few = omega (arith, r.few, one.added.longer);
        holds = λ q. or_chain (r.holds q) (one.added.holds q) (old_put q key keys marks);
      }
  reinsert-Rehashed depth k _ _ _ t a b w room = absurd (omega arith)
