-- ===== src/Storage/Wal/Log/Contents.antt =====
-- The bytes of the log: those on disk and those buffered behind them.
use tensorvault.Prelude.{
  ℕ, zero, suc, ap, take, drop, ◌≡◌, refl, ◌∙◌, none, some, List, [], ◌∷◌, ◌++◌, arith, inl, inr,
  Option-cases,
}
use mathlib.Core.List.{append-nil, append_assoc}
use tensorvault.Prelude.Results.{Result, ok, err}
use tensorvault.Storage.Wal.Action.{
  Answer, done, failed, landed, unwritten, File, WalError, Wal, Action, continue, device, ◌>>=◌,
  ◌>>◌, pure,
}
use tensorvault.Storage.Wal.Log.{
  flush_file, flush, sync, zone_ioctl, finish_zone, finish_if_open, take_zone_id, open_zone, rotate,
  rotate_for, fill_zone, count_record, count_finished, start_zone,
}

unfoldable pub contents : Wal → List ℕ
contents w = elim w.file [ none ↦ [] | some f ↦ f.disk ++ f.buffer ]

unfoldable pub buffered : Wal → List ℕ
buffered w = elim w.file [ none ↦ [] | some f ↦ f.buffer ]

-- The action leaves the bytes of the log as they are, whatever it returns.
abbrev pub Keeps : {A : Type 0} → Action A → Type 0
Keeps m = (w : Wal) → contents (m w).1 ≡ contents w

continue-Keeps :
    {A B : Type 0} (r : Result A WalError) (f : A → Action B) (w : Wal)
    → ((a : A) → Keeps (f a))
    → contents (continue r f w).1 ≡ contents w
continue-Keeps (ok a) f w k = k a w
continue-Keeps (err e) f w k = refl

pub bind-Keeps :
    {A B : Type 0} (m : Action A) (f : A → Action B)
    → Keeps m
    → ((a : A) → Keeps (f a))
    → Keeps (m >>= f)
bind-Keeps m f km kf w = continue-Keeps (m w).0 f (m w).1 kf ∙ km w

device-Keeps : (e : WalError) → Keeps (device e)
unfolding device contents
device-Keeps e w = refl

take-drop : (k : ℕ) (bytes : List ℕ) → take k bytes ++ drop k bytes ≡ bytes
take-drop zero bytes = refl
take-drop (suc k) [] = refl
take-drop (suc k) (b ∷ bytes) = ap (λ t. b ∷ t) (take-drop k bytes)

-- A write that is cut splits its bytes.
pub landed-unwritten :
    (answers : List Answer) (bytes : List ℕ)
    → landed answers bytes ++ unwritten answers bytes ≡ bytes
landed-unwritten [] bytes = append-nil bytes
landed-unwritten (done ∷ rest) bytes = append-nil bytes
landed-unwritten (failed k ∷ rest) bytes = take-drop k bytes

flush_file_keeps : (f : File) (w : Wal) → w.file ≡ some f → contents (flush_file f w).1 ≡ contents w
unfolding flush_file contents device
flush_file_keeps f w h = ground (
  arith,
  append_assoc f.disk (landed w.outcomes f.buffer) (unwritten w.outcomes f.buffer),
  landed-unwritten w.outcomes f.buffer,
)

pub flush-Keeps : Keeps flush
unfolding flush
flush-Keeps w = elim (Option-cases w.file) [
  | inl e ↦ ground (arith, e)
  | inr (f, e) ↦ ground (arith, e, flush_file_keeps f w e)
]

pub sync-Keeps : Keeps sync
unfolding sync
sync-Keeps w = elim (Option-cases w.file) [
  | inl e ↦ ground (arith, e)
  | inr (f, e) ↦ ground (
    arith,
    e,
    flush_file_keeps f w e,
    continue-Keeps (flush_file f w).0 (λ _. device WalError.io) (flush_file f w).1
        (λ _. device-Keeps WalError.io),
  )
]

zone_ioctl-Keeps : Keeps zone_ioctl
unfolding zone_ioctl
zone_ioctl-Keeps w = ground (arith, device-Keeps WalError.unsupported w)

count_finished-Keeps : Keeps count_finished
unfolding count_finished contents
count_finished-Keeps w = refl

pub finish_zone-Keeps : Keeps finish_zone
unfolding finish_zone contents
finish_zone-Keeps w = ground (
  arith,
  bind-Keeps zone_ioctl (λ _. do sync; count_finished) zone_ioctl-Keeps
      (λ _. bind-Keeps sync (λ _. count_finished) sync-Keeps (λ _. count_finished-Keeps))
      (record w { current_zone = none }),
)

finish_if_open-Keeps : Keeps finish_if_open
unfolding finish_if_open
finish_if_open-Keeps w = ground (arith, finish_zone-Keeps w)

take_zone_id-Keeps : Keeps take_zone_id
unfolding take_zone_id contents
take_zone_id-Keeps w = refl

start_zone-Keeps : (zone_id : ℕ) → Keeps (start_zone zone_id)
unfolding start_zone contents
start_zone-Keeps zone_id w = refl

pure-Keeps : {A : Type 0} (a : A) → Keeps (pure a)
pure-Keeps a w = refl

pub open_zone-Keeps : Keeps open_zone
unfolding open_zone
open_zone-Keeps =
    bind-Keeps finish_if_open (λ _. take_zone_id >>= λ id. zone_ioctl >> start_zone id)
      finish_if_open-Keeps
      λ _.
        bind-Keeps take_zone_id (λ id. zone_ioctl >> start_zone id) take_zone_id-Keeps
          λ id. bind-Keeps zone_ioctl (λ _. start_zone id) zone_ioctl-Keeps λ _. start_zone-Keeps id

pub rotate-Keeps : Keeps rotate
unfolding rotate
rotate-Keeps =
    bind-Keeps {B = Unit {0}} finish_zone _ finish_zone-Keeps
      λ _. bind-Keeps {B = Unit {0}} open_zone _ open_zone-Keeps λ _. pure-Keeps tt

pub rotate_for-Keeps : (n : ℕ) → Keeps (rotate_for n)
unfolding rotate_for
rotate_for-Keeps n w = ground (arith, rotate-Keeps w)

pub fill_zone-Keeps : (n : ℕ) → Keeps (fill_zone n)
unfolding fill_zone contents
fill_zone-Keeps n w = ground arith

pub count_record-Keeps : (n : ℕ) → Keeps (count_record n)
unfolding count_record contents
count_record-Keeps n w = refl
