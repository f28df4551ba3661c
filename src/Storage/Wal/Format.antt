-- ===== src/Storage/Wal/Format.antt =====
-- src/storage/wal.rs: the record format that `append` writes and `WalReader` reads. `xxh3_64` is
-- the hash of an external library.
pub mod RoundTrip
use tensorvault.Prelude.{
  ℕ, zero, suc, ◌+◌, ◌-◌, ◌%◌, ◌^◌, ltb, ◌==◌, if◌then◌else◌, not, Option, none, some, List, [],
  ◌∷◌, ◌++◌, length, take, drop, get_or,
}
use tensorvault.Storage.Bytes.{to_le_bytes, from_le_bytes, bytes_eq}

pub record WalRecord : Type 0 where
  pub txn_id : ℕ
  pub record_type : ℕ
  pub payload : List ℕ

-- b"TVW1"
abbrev pub magic : List ℕ
magic = 0x54 ∷ 0x56 ∷ 0x57 ∷ 0x31 ∷ []

unfoldable pub body : WalRecord → List ℕ
body r = to_le_bytes 8 r.txn_id ++ r.record_type ∷ r.payload

module _ (xxh3_64 : List ℕ → ℕ) where
  -- The buffer that `append` builds.
  unfoldable pub encode : WalRecord → List ℕ
  encode r =
      let rec_len = length (body r) + 8 in
      magic ++ (to_le_bytes 4 (rec_len % 2 ^ 32) ++ (body r ++ to_le_bytes 8 (xxh3_64 (body r))))

  -- The part of `next_record` after the record's bytes are read.
  unfoldable pub check_record : ℕ → List ℕ → Option WalRecord
  check_record rec_len body_and_checksum =
      let body = take (rec_len - 8) body_and_checksum in
      let checksum_bytes = drop (rec_len - 8) body_and_checksum in
      if from_le_bytes checksum_bytes == xxh3_64 body
      then some (record {
        txn_id = from_le_bytes (take 8 body);
        record_type = get_or body 8 0;
        payload = drop 9 body;
      })
      else none

  -- `next_record` on the bytes that are left in the file, with those left after it. At the end of
  -- the file `read_exact` has consumed what there was. Errors of the device other than the end of
  -- the file are not modelled.
  unfoldable pub next_record : List ℕ → Option WalRecord × List ℕ
  next_record file =
      let header = take 8 file in
      let rest = drop 8 file in
      let rec_len = from_le_bytes (drop 4 header) in
      if ltb (length file) 8
      then (none, [])
      else if not (bytes_eq (take 4 header) magic)
      then (none, rest)
      else if ltb rec_len 17
      then (none, rest)
      else if ltb (length rest) rec_len
      then (none, [])
      else (check_record rec_len (take rec_len rest), drop rec_len rest)

  -- The records that the iterator yields up to its first `None`. A record takes a byte or more, so
  -- the file's length is enough fuel.
  unfoldable pub read_all : ℕ → List ℕ → List WalRecord
  read_all zero file = []
  read_all (suc fuel) file =
      let (r, rest) = next_record file in elim r [ none ↦ [] | some x ↦ x ∷ read_all fuel rest ]

  -- The bytes of several appends.
  unfoldable pub encode_all : List WalRecord → List ℕ
  encode_all [] = []
  encode_all (r ∷ rs) = encode r ++ encode_all rs
