-- ===== src/Storage/Wal/Action.antt =====
-- The state of a `Wal` and actions on it: what a method has changed before an error stays changed.
-- The file is what the operating system holds and what the `BufWriter` still buffers; `None` after
-- `simulate_crash`. The answers of the device to the calls to come are a part of the state; when the
-- list is used up, all calls succeed.
use tensorvault.Prelude.{ℕ, Bool, Option, List, [], ◌∷◌, take, drop}
use tensorvault.Prelude.Results.{Result, ok, err}

pub data WalZoneState : Type 0 where
  empty open_for_writes full finished : WalZoneState

pub record WalZone : Type 0 where
  pub zone_id : ℕ
  pub capacity : ℕ
  pub write_offset : ℕ
  pub state : WalZoneState

pub record File : Type 0 where
  pub disk : List ℕ
  pub buffer : List ℕ

pub data WalError : Type 0 where
  io unsupported closed : WalError

-- A write that fails has written as many bytes before, or all if there are no more.
pub data Answer : Type 0 where
  done : Answer
  failed : ℕ → Answer

pub record Wal : Type 0 where
  pub file : Option File
  pub bytes_written : ℕ
  pub records_written : ℕ
  pub is_zns : Bool
  pub zone_capacity : ℕ
  pub current_zone : Option WalZone
  pub zones_opened : ℕ
  pub zones_finished : ℕ
  pub outcomes : List Answer

abbrev pub Action : Type 0 → Type 0
Action A = Wal → Result A WalError × Wal

abbrev pub continue : {A B : Type 0} → Result A WalError → (A → Action B) → Action B
continue (ok a) f w = f a w
continue (err e) f w = (err e, w)

infixl 5 ◌>>=◌ ◌>>◌
abbrev pub ◌>>=◌ : {A B : Type 0} → Action A → (A → Action B) → Action B
◌>>=◌ m f w = let (r, w') = m w in continue r f w'

abbrev pub ◌>>◌ : {B : Type 0} → Action (Unit {0}) → Action B → Action B
m >> k = m >>= λ _. k

abbrev pub pure : {A : Type 0} → A → Action A
pure a w = (ok a, w)

abbrev pub raise : {A : Type 0} → WalError → Action A
raise e w = (err e, w)

abbrev answer : WalError → List Answer → Result (Unit {0}) WalError
answer e [] = ok tt
answer e (done ∷ rest) = ok tt
answer e (failed k ∷ rest) = err e

abbrev used : List Answer → List Answer
used [] = []
used (a ∷ rest) = rest

-- `write_all` of a file: the bytes that the next call writes, and those that it does not write.
abbrev pub landed : List Answer → List ℕ → List ℕ
landed [] bytes = bytes
landed (done ∷ rest) bytes = bytes
landed (failed k ∷ rest) bytes = take k bytes

abbrev pub unwritten : List Answer → List ℕ → List ℕ
unwritten [] bytes = []
unwritten (done ∷ rest) bytes = []
unwritten (failed k ∷ rest) bytes = drop k bytes

-- One call of the device, which reports `e` when it fails.
unfoldable pub device : WalError → Action (Unit {0})
device e w = (answer e w.outcomes, record w { outcomes = used w.outcomes })
