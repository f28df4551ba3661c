-- ===== src/Storage/Wal/Format/RoundTrip.antt =====
-- What the reader makes of a log that was written, whole or torn.
use tensorvault.Prelude.{
  ℕ, zero, suc, ◌+◌, ◌-◌, ◌%◌, ◌^◌, ◌<◌, ◌≤◌, ◌≡◌, refl, ap, ◌∙◌, none, some, List, [], ◌∷◌, ◌++◌,
  length, take, drop, get_or, arith, length-append, length-take, ltb, inl, inr, Bool-cases, tests,
  take_append_inside, take_append_beyond, if◌then◌else◌,
}
use tensorvault.Prelude.Forall.{All}
use tensorvault.Storage.Bytes.{
  to_le_bytes, from_le_bytes, length-to_le_bytes, from_le_bytes-to_le_bytes, take_at, drop_at,
  bytes_eq,
}
use tensorvault.Storage.Wal.Format.{
  WalRecord, magic, body, encode, check_record, next_record, read_all, encode_all,
}

-- What Rust's types and the 32-bit length field demand of a record.
pub record IsWritable (r : WalRecord) : Type 0 where
  pub txn_fits : r.txn_id < 2 ^ 64
  pub payload_fits : length r.payload + 17 < 2 ^ 32

length-body : (r : WalRecord) → length (body r) ≡ length r.payload + 9
unfolding body to_le_bytes
length-body r = omega arith

decode_body :
    (r : WalRecord)
    → IsWritable r
    → ◌≡◌ {A = WalRecord}
        (record {
          txn_id = from_le_bytes (take 8 (body r));
          record_type = get_or (body r) 8 0;
          payload = drop 9 (body r);
        })
        r
unfolding body to_le_bytes
decode_body r w =
    ap (λ t. record { txn_id = t; record_type = r.record_type; payload = r.payload })
      (from_le_bytes-to_le_bytes 8 r.txn_id (omega arith))

module _ (xxh3_64 : List ℕ → ℕ) where
  -- A whole header is skipped.
  next_record_header :
      (n : ℕ) (rest : List ℕ)
      → 17 ≤ n
      → n < 2 ^ 32
      → n ≤ length rest
      → next_record xxh3_64 (magic ++ (to_le_bytes 4 n ++ rest))
        ≡ (check_record xxh3_64 n (take n rest), drop n rest)
  unfolding next_record to_le_bytes bytes_eq
  next_record_header n rest low high fits =
      rw (from_le_bytes-to_le_bytes 4 n (omega arith)) (ground arith)

  check_record_lem :
      (r : WalRecord)
      → ((bs : List ℕ) → xxh3_64 bs < 2 ^ 64)
      → IsWritable r
      → check_record xxh3_64 (length (body r) + 8) (body r ++ to_le_bytes 8 (xxh3_64 (body r)))
        ≡ some r
  unfolding check_record
  check_record_lem r hash_fits w =
      let sum = to_le_bytes 8 (xxh3_64 (body r)) in
      let cut : length (body r) + 8 - 8 ≡ length (body r) = omega arith in
      rw (take_at (length (body r) + 8 - 8) (body r) sum cut) (
        rw (drop_at (length (body r) + 8 - 8) (body r) sum cut) (
          rw (from_le_bytes-to_le_bytes 8 (xxh3_64 (body r)) (hash_fits (body r)))
            (ground (arith, decode_body r w))))

  -- A record that lies at the front of the file is read back, and the rest of the file is left.
  pub next_record-encode :
      (r : WalRecord) (tail : List ℕ)
      → ((bs : List ℕ) → xxh3_64 bs < 2 ^ 64)
      → IsWritable r
      → next_record xxh3_64 (encode xxh3_64 r ++ tail) ≡ (some r, tail)
  unfolding encode body to_le_bytes next_record
  next_record-encode r tail hash_fits w =
      let n = length (body r) + 8 in
      let chunk = body r ++ to_le_bytes 8 (xxh3_64 (body r)) in
      let len = length-body r in
      let size : n ≡ length chunk = omega (
        arith,
        length-append (body r) (to_le_bytes 8 (xxh3_64 (body r))),
        length-to_le_bytes 8 (xxh3_64 (body r)),
      ) in
      let small : n % 2 ^ 32 ≡ n = omega arith in
      rw small (
        next_record_header n (chunk ++ tail) (omega arith) (omega arith)
          (omega (arith, length-append chunk tail))
        ∙ rw (take_at n chunk tail size)
            (rw (drop_at n chunk tail size) (rw (check_record_lem r hash_fits w))))

  -- A header whose record is cut short ends the log.
  next_record_short :
      (n : ℕ) (rest : List ℕ)
      → n < 2 ^ 32
      → length rest < n
      → (next_record xxh3_64 (magic ++ (to_le_bytes 4 n ++ rest))).0 ≡ none
  unfolding next_record to_le_bytes bytes_eq
  next_record_short n rest high short =
      rw (from_le_bytes-to_le_bytes 4 n (omega arith)) (ground arith)

  next_record_tiny : (file : List ℕ) → length file < 8 → (next_record xxh3_64 file).0 ≡ none
  unfolding next_record
  next_record_tiny file h = ground arith

  -- A torn record: fewer bytes than were appended.
  next_record_torn :
      (r : WalRecord) (k : ℕ)
      → IsWritable r
      → k < length (encode xxh3_64 r)
      → (next_record xxh3_64 (take k (encode xxh3_64 r))).0 ≡ none
  unfolding encode to_le_bytes
  next_record_torn r (suc (suc (suc (suc (suc (suc (suc (suc j)))))))) w h =
      let n = length (body r) + 8 in
      let small : n % 2 ^ 32 ≡ n = omega (arith, length-body r) in
      let chunk = body r ++ to_le_bytes 8 (xxh3_64 (body r)) in
      rw small (
        next_record_short n (take j chunk) (omega (arith, length-body r)) (
          omega (
            arith,
            length-take j chunk,
            length-append (body r) (to_le_bytes 8 (xxh3_64 (body r))),
          )))
  next_record_torn r k w h =
      next_record_tiny (take k (encode xxh3_64 r)) (omega (arith, length-take k (encode xxh3_64 r)))

  -- The records that lie in the first k bytes of the log as a whole.
  pub whole_records : ℕ → List WalRecord → List WalRecord
  whole_records k [] = []
  whole_records k (r ∷ rs) =
      let size = length (encode xxh3_64 r) in
      let rest = whole_records (k - size) rs in if ltb k size then [] else r ∷ rest

  read_all-none :
      (fuel : ℕ) (file : List ℕ)
      → (next_record xxh3_64 file).0 ≡ none
      → read_all xxh3_64 fuel file ≡ []
  unfolding read_all
  read_all-none zero file h = refl
  read_all-none (suc fuel) file h = rw (h, read_all)

  read_all-some :
      (fuel : ℕ) (file rest : List ℕ) (r : WalRecord)
      → next_record xxh3_64 file ≡ (some r, rest)
      → read_all xxh3_64 (suc fuel) file ≡ r ∷ read_all xxh3_64 fuel rest
  unfolding read_all
  read_all-some fuel file rest r h = ground arith

  -- After a crash that left the first k bytes of a log of writable records, with k anywhere, the
  -- reader yields exactly the records that these bytes hold as a whole, given more fuel than there
  -- are records.
  pub read_all_crash :
      (rs : List WalRecord) (k fuel : ℕ)
      → ((bs : List ℕ) → xxh3_64 bs < 2 ^ 64)
      → All IsWritable rs
      → length rs < fuel
      → read_all xxh3_64 fuel (take k (encode_all xxh3_64 rs)) ≡ whole_records k rs
  unfolding encode_all whole_records
  read_all_crash [] k fuel hash_fits w f =
      read_all-none fuel (take k [])
        (next_record_tiny (take k []) (omega (arith, length-take {A = ℕ} k [])))
  read_all_crash (r ∷ rs) k zero hash_fits w f = absurd (omega arith)
  read_all_crash (r ∷ rs) k (suc fuel) hash_fits w f =
      let size = length (encode xxh3_64 r) in
      let more = encode_all xxh3_64 rs in
      elim (Bool-cases (ltb k size)) [
        | inl torn ↦ rw torn (
            rw (take_append_inside k (encode xxh3_64 r) more (omega tests)) (
              read_all-none (suc fuel) (take k (encode xxh3_64 r))
                (next_record_torn r k w.0 (omega tests))))
        | inr read ↦ rw read (
            rw (take_append_beyond k (encode xxh3_64 r) more (ground (arith))) (
              read_all-some fuel (encode xxh3_64 r ++ take (k - size) more) (take (k - size) more) r
                (next_record-encode r (take (k - size) more) hash_fits w.0)
              ∙ ap (λ t. r ∷ t) (read_all_crash rs (k - size) fuel hash_fits w.1 (omega arith))))
      ]

  -- The reader yields all records of an undamaged log, given more fuel than there are records.
  pub read_all-encode_all :
      (rs : List WalRecord) (fuel : ℕ)
      → ((bs : List ℕ) → xxh3_64 bs < 2 ^ 64)
      → All IsWritable rs
      → length rs < fuel
      → read_all xxh3_64 fuel (encode_all xxh3_64 rs) ≡ rs
  unfolding encode_all
  read_all-encode_all [] fuel hash_fits w f =
      read_all-none fuel [] (next_record_tiny [] (omega arith))
  read_all-encode_all (r ∷ rs) zero hash_fits w f = absurd (omega arith)
  read_all-encode_all (r ∷ rs) (suc fuel) hash_fits w f =
      let more = encode_all xxh3_64 rs in
      read_all-some fuel (encode xxh3_64 r ++ more) more r (next_record-encode r more hash_fits w.0)
      ∙ ap (λ t. r ∷ t) (read_all-encode_all rs fuel hash_fits w.1 (omega arith))
