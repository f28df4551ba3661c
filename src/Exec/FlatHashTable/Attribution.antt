-- ===== src/Exec/FlatHashTable/Attribution.antt =====
-- Whose state a row updates: the slot that `insert` returns against the slot of the row's key.
use Prim.Native.Nat.{bit_and}
use tensorvault.Prelude.{
  ℕ, suc, ◌+◌, ◌-◌, ◌*◌, ◌^◌, ◌<◌, ◌≤◌, ◌≡◌, ◌≢◌, refl, sym, ap, ◌∙◌, min, lt→ltb, le→ltb, ◌==◌,
  true, false, Option, some, List, get_or, set, length, length-set, get_or-set, get_or-set_other,
  arith,
}
use tensorvault.Prelude.Masks.{bit_and_low}
use tensorvault.Storage.Bytes.{to_le_bytes}
use tensorvault.Exec.FlatHashTable.{
  FlatHashTable, AggState, agg_new, place, probe, insert, aggregate_row,
}
use tensorvault.Exec.FlatHashTable.Probe.{
  probe_free, probe_passes, probe_displaces, found_free, next, next-lt,
}
use tensorvault.Exec.FlatHashTable.Keys.{IsTable}
use tensorvault.Exec.FlatHashTable.Room.{IsRoomy, home}

not_equal : (a b : ℕ) → a ≢ b → (a == b) ≡ false
not_equal a b n = ground arith

insert-probe :
    (xxh3_64 : List ℕ → ℕ) (depth k key : ℕ) (t : FlatHashTable)
    → IsTable k t
    → IsRoomy t
    → insert xxh3_64 (suc depth) key t ≡ probe t.capacity (home xxh3_64 key k) 0 key t
unfolding insert
insert-probe xxh3_64 depth k key t w roomy =
    let start : bit_and (xxh3_64 (to_le_bytes 8 key)) t.mask ≡ home xxh3_64 key k =
      ap (bit_and (xxh3_64 (to_le_bytes 8 key))) w.masked
      ∙ bit_and_low k (xxh3_64 (to_le_bytes 8 key)) in
    rw (insert, le→ltb (t.capacity * 3) (t.len * 4) roomy, start) refl

module _ (k fuel idx key : ℕ) (t : FlatHashTable) (w : IsTable k t)
    (first : get_or t.occupied idx false ≡ true) (first_other : get_or t.keys idx 0 ≢ key)
    (second : get_or t.occupied (next idx t) false ≡ true)
    (second_other : get_or t.keys (next idx t) 0 ≢ key)
    (at_home : get_or t.probe_dist (next idx t) 0 ≡ 0)
    (third : get_or t.occupied (next (next idx t) t) false ≡ false) where
  -- The table after the displacement, and after the displaced key is written
  abbrev shifted : FlatHashTable
  shifted = place (next idx t) 1 key t

  abbrev written : FlatHashTable
  written =
      found_free (next (next idx t) t) (min (get_or t.probe_dist (next idx t) 0 + 1) 255)
        (get_or t.keys (next idx t) 0) shifted

  probe_displaced : probe (suc (suc (suc fuel))) idx 0 key t ≡ some (written, next (next idx t) t)
  unfolding place
  probe_displaced =
      probe_passes (suc (suc fuel)) idx 0 key t first (not_equal _ _ first_other)
        (le→ltb (get_or t.probe_dist idx 0) 0 (omega arith))
      ∙ probe_displaces (suc fuel) (next idx t) 1 key t second (not_equal _ _ second_other)
          (lt→ltb (get_or t.probe_dist (next idx t) 0) 1 (omega arith))
      ∙ probe_free fuel (next (next idx t) t) (min (get_or t.probe_dist (next idx t) 0 + 1) 255)
          (get_or t.keys (next idx t) 0) shifted third

  at_second : next idx t < 2 ^ k
  at_second = next-lt k idx t w.masked

  at_third : next (next idx t) t < 2 ^ k
  at_third = next-lt k (next idx t) t w.masked

  apart : next (next idx t) t ≢ next idx t
  apart e = absurd (true_false (sym second ∙ sym (ap (λ i. get_or t.occupied i false) e) ∙ third))
    where
      true_false : ¬ (true ≡ false)
      true_false e = cc

  written_keys :
      (get_or written.keys (next idx t) 0 ≡ key)
      × (get_or written.keys (next (next idx t) t) 0 ≡ get_or t.keys (next idx t) 0)
      × (written.states ≡ t.states)
  unfolding place
  written_keys = (
    get_or-set_other (set t.keys (next idx t) key) (next (next idx t) t) (next idx t)
          (get_or t.keys (next idx t) 0) 0 apart
        ∙ get_or-set t.keys (next idx t) key 0 (omega (arith, w.all_keys, at_second)),
    get_or-set (set t.keys (next idx t) key) (next (next idx t) t) (get_or t.keys (next idx t) 0) 0
        (omega (arith, w.all_keys, at_third, length-set t.keys (next idx t) key)),
    refl,
  )

-- What `aggregate_row` answers when the probing displaces a key: the slot of the row's key keeps
-- the state of the key displaced from it, and the row is counted in the slot where that one is now.
pub record Misattributed (step : AggState → AggState) (key its_slot other_slot : ℕ)
    (t : FlatHashTable) (answer : Option FlatHashTable) : Type 0 where
  pub after : FlatHashTable
  pub answers : answer ≡ some after
  pub its_key : get_or after.keys its_slot 0 ≡ key
  pub its_state : get_or after.states its_slot agg_new ≡ get_or t.states its_slot agg_new
  pub other_key : get_or after.keys other_slot 0 ≡ get_or t.keys its_slot 0
  pub other_state :
      get_or after.states other_slot agg_new ≡ step (get_or t.states other_slot agg_new)

-- In a table of at least 16 slots with room, let the home slot of a row's key and the slot after it
-- hold other keys, the second of them in its own home, and let the third slot be free. Then the row
-- takes the second slot for its key but not its state: that slot keeps the state of the key that
-- was there, which moves on to the third slot and is given the row.
pub aggregate_row-Misattributed :
    (xxh3_64 : List ℕ → ℕ) (step : AggState → AggState) (k key : ℕ) (t : FlatHashTable)
    → IsTable k t
    → IsRoomy t
    → 16 ≤ t.capacity
    → get_or t.occupied (home xxh3_64 key k) false ≡ true
    → get_or t.keys (home xxh3_64 key k) 0 ≢ key
    → get_or t.occupied (next (home xxh3_64 key k) t) false ≡ true
    → get_or t.keys (next (home xxh3_64 key k) t) 0 ≢ key
    → get_or t.probe_dist (next (home xxh3_64 key k) t) 0 ≡ 0
    → get_or t.occupied (next (next (home xxh3_64 key k) t) t) false ≡ false
    → Misattributed step key
        (next (home xxh3_64 key k) t)
        (next (next (home xxh3_64 key k) t) t)
        t
        (aggregate_row xxh3_64 step key t)
unfolding aggregate_row
aggregate_row-Misattributed xxh3_64 step k key t w roomy size first a second b home_dist third =
    let h = home xxh3_64 key k in
    let s1 = next h t in
    let s2 = next s1 t in
    let u = written k (t.capacity - 3) h key t w first a second b home_dist third in
    let (key_in, old_in, states) =
      written_keys k (t.capacity - 3) h key t w first a second b home_dist third in
    let apart_slots = apart k (t.capacity - 3) h key t w first a second b home_dist third in
    let inserted : insert xxh3_64 2 key t ≡ some (u, s2) =
      insert-probe xxh3_64 1 k key t w roomy
      ∙ ap (λ n. probe n h 0 key t) (omega arith)
      ∙ probe_displaced k (t.capacity - 3) h key t w first a second b home_dist third in
    let s = step (get_or u.states s2 agg_new) in
    record {
      after = record u { states = set u.states s2 s };
      answers = rw (aggregate_row, inserted) refl;
      its_key = key_in;
      its_state =
          get_or-set_other u.states s2 s1 s agg_new apart_slots
          ∙ ap (λ x. get_or x s1 agg_new) states;
      other_key = old_in;
      other_state =
          get_or-set u.states s2 s agg_new
            (omega (arith, ap length states, w.all_states, next-lt k s1 t w.masked))
          ∙ ap (λ x. step (get_or x s2 agg_new)) states;
    }
