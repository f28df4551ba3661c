-- ===== src/Storage/BufferPool/Examples.antt =====
-- A pool of two frames and one of one frame, over pages that are numbers.
use tensorvault.Prelude.{ℕ, ◌≡◌, refl, true, false, some, none, List, [], ◌∷◌}
use tensorvault.Prelude.Results.{ok}
use mathlib.Core.Path.{subst}
use tensorvault.Prelude.HashMap
use tensorvault.Storage.BufferPool.{
  PageId, page_id_eq, Frame, BufferPool, new, get_page, get_page_mut, flush_all, fetch_page,
  unpin_page,
}
use tensorvault.Storage.BufferPool.Coherence.{IsPool}
use tensorvault.Storage.BufferPool.Fetches.{fetch_page-IsFetched}
use tensorvault.Storage.BufferPool.Loads.{IsFetched}
use tensorvault.Storage.BufferPool.Sessions.{
  Call, read, write, run, IsRun, run-IsRun, new-IsPool, IsAnswered, call, call-IsAnswered,
}
use tensorvault.Storage.BufferPool.Syncs.{IsSynced, flush_all-IsSynced}

abbrev first_id : PageId
first_id = record { table_id = 1; page_num = 0 }

abbrev cached : Frame ℕ
cached = record {
  page = 70;
  pin_count = 1;
  dirty = true;
  referenced = false;
  page_id = some first_id;
}

abbrev unused : Frame ℕ
unused = record { page = 0; pin_count = 0; dirty = false; referenced = true; page_id = none }

abbrev pool : BufferPool ℕ
pool = record {
  frames = cached ∷ unused ∷ [];
  page_table = (first_id, 0) ∷ [];
  clock_hand = 0;
  next_page_num = (1, 1) ∷ [];
  disk = λ id. 0;
  outcomes = [];
}

in_table : HashMap.get pool.page_table first_id ≡ some 0
unfolding HashMap.get
in_table = refl

-- A pool of one frame, so that each page takes the frame of the other.
abbrev small : BufferPool ℕ
small = new 0 1 (λ id. id.page_num) (true ∷ true ∷ true ∷ true ∷ true ∷ [])

abbrev second_id : PageId
second_id = record { table_id = 1; page_num = 1 }

abbrev calls : List (Call ℕ)
calls = write first_id 70 ∷ read second_id ∷ read first_id ∷ []

answers : (run calls small).0 ≡ ok (1 ∷ 70 ∷ [])
unfolding fetch_page unpin_page get_page get_page_mut new HashMap.get HashMap.insert HashMap.remove
answers = refl

run-IsRun_example : IsRun calls small (run calls small)
run-IsRun_example =
    run-IsRun calls small
      (new-IsPool 0 1 (λ id. id.page_num) (true ∷ true ∷ true ∷ true ∷ true ∷ []))

fetch_page-IsFetched_example : IsFetched first_id small (fetch_page first_id small)
fetch_page-IsFetched_example =
    fetch_page-IsFetched first_id small
      (new-IsPool 0 1 (λ id. id.page_num) (true ∷ true ∷ true ∷ true ∷ true ∷ []))

-- The pool behind the first call, with a dirty frame.
abbrev written : BufferPool ℕ
written = (call (write first_id 70) small).1

wrote : call (write first_id 70) small ≡ (ok [], written)
unfolding fetch_page unpin_page get_page_mut new HashMap.get HashMap.insert HashMap.remove
wrote = refl

written-IsPool : IsPool written
unfolding IsAnswered
written-IsPool =
    let w = new-IsPool 0 1 (λ id. id.page_num) (true ∷ true ∷ true ∷ true ∷ true ∷ []) in
    let h : IsAnswered (write first_id 70) small (ok [], written) =
      subst (IsAnswered (write first_id 70) small) wrote
        (call-IsAnswered (write first_id 70) small w) in
    h.0

written-IsMap : HashMap.IsMap written.page_table
unfolding fetch_page unpin_page get_page_mut new HashMap.get HashMap.insert HashMap.remove
written-IsMap = (refl, tt)

flushed : (flush_all written).1.disk first_id ≡ 70
unfolding flush_all fetch_page unpin_page get_page_mut new HashMap.get HashMap.insert HashMap.remove
flushed = refl

flush_all-IsSynced_example : IsSynced written (flush_all written)
flush_all-IsSynced_example = flush_all-IsSynced written written-IsPool written-IsMap
