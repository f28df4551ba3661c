-- ===== src/Storage/BufferPool.antt =====
-- src/storage/buffer_pool.rs: frames, pins and the clock. Pages are an argument with the page that
-- `Page::new` makes; `disk` is what the table files hold, where a page beyond the end of its file
-- is the new page. The answers of the device are in the state, true for success. `exhausted` is the
-- panic of `find_victim`. Loops over the page table take its entries in the order of the list.
pub mod Clock
pub mod Coherence
pub mod Replaced
pub mod Rewritten
pub mod Views
pub mod Saves
pub mod Loads
pub mod Fetches
pub mod Writes
pub mod Flushes
pub mod Syncs
pub mod Sessions
mod Examples
use tensorvault.Prelude.{
  ℕ, zero, suc, ◌+◌, ◌-◌, ◌*◌, ◌%◌, ◌^◌, ltb, ◌==◌, ==_iff, ◌↔◌, ◌≡◌, refl, if◌then◌else◌, Bool,
  true, false, ◌&&◌, Option, none, some, List, [], ◌∷◌, length, get_elem?, set, replicate, arith,
}
use tensorvault.Prelude.Results.{Result, ok, err}
use tensorvault.Prelude.HashMap
use tensorvault.Prelude.HashMap.{HashMap}
use tensorvault.Prelude.Eq.{Eq, nat_eq}

pub record PageId : Type 0 where
  pub table_id : ℕ
  pub page_num : ℕ

abbrev page_id_beq : PageId → PageId → Bool
page_id_beq a b = a.table_id == b.table_id && a.page_num == b.page_num

pub page_id_beq_iff : (a b : PageId) → (page_id_beq a b ≡ true) ↔ (a ≡ b)
page_id_beq_iff a b = ground arith

-- The derived `Eq` of `PageId`
instance abbrev pub page_id_eq : Eq PageId
page_id_eq = record { beq = page_id_beq; beq_iff = page_id_beq_iff }

pub record Frame (P : Type 0) : Type 0 where
  pub page : P
  pub pin_count : ℕ
  pub dirty : Bool
  pub referenced : Bool
  pub page_id : Option PageId

pub record BufferPool (P : Type 0) : Type 0 where
  pub frames : List (Frame P)
  pub page_table : HashMap PageId ℕ
  pub clock_hand : ℕ
  pub next_page_num : HashMap ℕ ℕ
  pub disk : PageId → P
  pub outcomes : List Bool

pub data PoolError : Type 0 where
  io exhausted : PoolError

-- The entries of one table
unfoldable pub entries_of : ℕ → HashMap PageId ℕ → HashMap PageId ℕ
entries_of table_id [] = []
entries_of table_id ((id, idx) ∷ rest) =
    let more = entries_of table_id rest in
    if id.table_id == table_id then (id, idx) ∷ more else more

module _ {P : Type 0} (empty_page : P) where
  unfoldable pub new : ℕ → (PageId → P) → List Bool → BufferPool P
  new capacity disk outcomes = record {
    frames = replicate capacity (record {
      page = empty_page;
      pin_count = 0;
      dirty = false;
      referenced = false;
      page_id = none;
    });
    page_table = [];
    clock_hand = 0;
    next_page_num = [];
    disk = disk;
    outcomes = outcomes;
  }

module _ {P : Type 0} where
  -- One call of the device.
  unfoldable pub device : BufferPool P → Bool × BufferPool P
  device p = elim p.outcomes [ [] ↦ (true, p) | o ∷ rest ↦ (o, record p { outcomes = rest }) ]

  unfoldable pub set_frame : ℕ → Frame P → BufferPool P → BufferPool P
  set_frame idx f p = record p { frames = set p.frames idx f }

  -- `(self.clock_hand + 1) % n`
  unfoldable pub advance_hand : BufferPool P → BufferPool P
  advance_hand p = record p { clock_hand = (p.clock_hand + 1) % length p.frames }

  -- The loop of `find_victim` with the number of rounds to go; `none` is its panic.
  unfoldable pub find_victim_from : ℕ → BufferPool P → Option ℕ × BufferPool P
  unfolding set_frame advance_hand
  find_victim_from zero p = (none, p)
  find_victim_from (suc n) p = elim (get_elem? p.frames p.clock_hand) [
    | none ↦ (none, p)
    | some f ↦
        let skipped = find_victim_from n (advance_hand p) in
        let cleared =
          find_victim_from n
            (set_frame p.clock_hand (record f { referenced = false }) (advance_hand p)) in
        if f.pin_count == 0
        then if f.referenced then cleared else (some p.clock_hand, advance_hand p)
        else skipped
  ]

  unfoldable pub find_victim : BufferPool P → Option ℕ × BufferPool P
  unfolding find_victim_from
  find_victim p = find_victim_from (2 * length p.frames) p

  unfoldable pub write_page_to_disk :
      PageId → P → BufferPool P → Result (Unit {0}) PoolError × BufferPool P
  unfolding device
  write_page_to_disk id page p =
      let (success, v) = device p in
      if success
      then (ok tt, record v { disk = λ q. if page_id_eq.beq q id then page else v.disk q })
      else (err PoolError.io, v)

  unfoldable pub read_page_from_disk : PageId → BufferPool P → Result P PoolError × BufferPool P
  unfolding device
  read_page_from_disk id p =
      let (success, v) = device p in if success then (ok (v.disk id), v) else (err PoolError.io, v)

  -- "If the victim is dirty, write it back to disk."
  unfoldable pub write_back : Frame P → BufferPool P → Result (Unit {0}) PoolError × BufferPool P
  unfolding write_page_to_disk
  write_back f p =
      if f.dirty
      then elim f.page_id [ none ↦ (ok tt, p) | some id ↦ write_page_to_disk id f.page p ]
      else (ok tt, p)

  unfoldable pub forget_page : Frame P → BufferPool P → BufferPool P
  forget_page f p = elim f.page_id [
    | none ↦ p
    | some id ↦ record p { page_table = HashMap.remove p.page_table id }
  ]

  -- `fetch_page` behind the choice of the victim
  unfoldable pub load : PageId → ℕ → Frame P → BufferPool P → Result ℕ PoolError × BufferPool P
  unfolding write_back forget_page read_page_from_disk
  load id idx victim p = elim (write_back victim p).0 [
    | err e ↦ (err e, (write_back victim p).1)
    | ok _ ↦
        let (read, v) = read_page_from_disk id (forget_page victim (write_back victim p).1) in
        elim read [
          | err e ↦ (err e, v)
          | ok page ↦ (
            ok idx,
            record v {
              frames = set v.frames idx (record {
                page = page;
                pin_count = 1;
                dirty = false;
                referenced = true;
                page_id = some id;
              });
              page_table = HashMap.insert v.page_table id idx;
            },
          )
        ]
  ]

  unfoldable pub pin : ℕ → BufferPool P → Result ℕ PoolError × BufferPool P
  pin idx p = elim (get_elem? p.frames idx) [
    | none ↦ (err PoolError.exhausted, p)
    | some f ↦ (
      ok idx,
      record p {
        frames =
            set p.frames idx
              (record f { pin_count = (f.pin_count + 1) % 2 ^ 32; referenced = true });
      },
    )
  ]

  unfoldable pub load_victim : PageId → Option ℕ × BufferPool P → Result ℕ PoolError × BufferPool P
  unfolding load
  load_victim id (none, p) = (err PoolError.exhausted, p)
  load_victim id (some idx, p) = elim (get_elem? p.frames idx) [
    | none ↦ (err PoolError.exhausted, p)
    | some victim ↦ load id idx victim p
  ]

  unfoldable pub fetch_page : PageId → BufferPool P → Result ℕ PoolError × BufferPool P
  unfolding find_victim load_victim pin
  fetch_page id p = elim (HashMap.get p.page_table id) [
    | some idx ↦ pin idx p
    | none ↦ load_victim id (find_victim p)
  ]

  unfoldable pub unpin_frame : Bool → Frame P → Frame P
  unpin_frame dirty f = record f {
    pin_count = if ltb 0 f.pin_count then f.pin_count - 1 else f.pin_count;
    dirty = if dirty then true else f.dirty;
  }

  unfoldable pub unpin_page : PageId → Bool → BufferPool P → BufferPool P
  unfolding unpin_frame set_frame
  unpin_page id dirty p = elim (HashMap.get p.page_table id) [
    | none ↦ p
    | some idx ↦ elim (get_elem? p.frames idx) [
      | none ↦ p
      | some f ↦ set_frame idx (unpin_frame dirty f) p
    ]
  ]

  -- `none` is the panic of an index behind the frames.
  unfoldable pub get_page : ℕ → BufferPool P → Option P
  get_page frame_idx p = elim (get_elem? p.frames frame_idx) [ none ↦ none | some f ↦ some f.page ]

  -- A write through `get_page_mut`
  unfoldable pub get_page_mut : ℕ → P → BufferPool P → Option (BufferPool P)
  unfolding set_frame
  get_page_mut frame_idx page p = elim (get_elem? p.frames frame_idx) [
    | none ↦ none
    | some f ↦ some (set_frame frame_idx (record f { page = page }) p)
  ]

  -- `new_page` behind its `fetch_page`
  unfoldable pub mark_new :
      PageId → Result ℕ PoolError × BufferPool P → Result PageId PoolError × BufferPool P
  unfolding set_frame
  mark_new id (err e, p) = (err e, p)
  mark_new id (ok idx, p) = elim (get_elem? p.frames idx) [
    | none ↦ (ok id, p)
    | some f ↦ (ok id, set_frame idx (record f { dirty = true }) p)
  ]

  unfoldable pub new_page : ℕ → BufferPool P → Result PageId PoolError × BufferPool P
  unfolding mark_new fetch_page
  new_page table_id p =
      let page_num : ℕ = elim (HashMap.get p.next_page_num table_id) [ none ↦ 0 | some n ↦ n ] in
      let id : PageId = record { table_id = table_id; page_num = page_num } in
      mark_new id (
        fetch_page id (record p {
          next_page_num = HashMap.insert p.next_page_num table_id ((page_num + 1) % 2 ^ 32);
        }))

  -- A dirty page is written and its frame marked clean; the first error ends the loop.
  unfoldable pub flush_frame :
      PageId → ℕ → BufferPool P → Result (Unit {0}) PoolError × BufferPool P
  unfolding write_page_to_disk set_frame
  flush_frame id idx p = elim (get_elem? p.frames idx) [
    | none ↦ (ok tt, p)
    | some f ↦
        let (written, v) = write_page_to_disk id f.page p in
        if f.dirty
        then elim written [
          | err e ↦ (err e, v)
          | ok _ ↦ (ok tt, set_frame idx (record f { dirty = false }) v)
        ]
        else (ok tt, p)
  ]

  unfoldable pub flush_entries :
      HashMap PageId ℕ → BufferPool P → Result (Unit {0}) PoolError × BufferPool P
  unfolding flush_frame
  flush_entries [] p = (ok tt, p)
  flush_entries ((id, idx) ∷ rest) p =
      let (flushed, v) = flush_frame id idx p in
      let more = flush_entries rest v in elim flushed [ err e ↦ (err e, v) | ok _ ↦ more ]

  unfoldable pub flush_all : BufferPool P → Result (Unit {0}) PoolError × BufferPool P
  unfolding flush_entries
  flush_all p = flush_entries p.page_table p

  unfoldable pub flush_table : ℕ → BufferPool P → Result (Unit {0}) PoolError × BufferPool P
  unfolding flush_entries entries_of
  flush_table table_id p = flush_entries (entries_of table_id p.page_table) p
