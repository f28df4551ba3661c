-- ===== src/Storage/Wal/Log/Writes.antt =====
-- What `append` adds to the bytes of the log.
use tensorvault.Prelude.{
  ℕ, ◌-◌, ◌≡◌, refl, ap, ◌∙◌, sym, false, some, List, [], ◌∷◌, ◌++◌, length, arith, inl, inr,
  Bool-cases, Option-cases, tests, ◌≤◌, ◌<◌, ◌⊎◌, ltb, leb,
}
use mathlib.Core.List.{append_assoc, append-nil}
use tensorvault.Prelude.Results.{Result, ok, err}
use tensorvault.Storage.Wal.Format.{WalRecord, encode}
use tensorvault.Storage.Wal.Action.{File, WalError, Wal, Action, continue, device, ◌>>=◌, ◌>>◌}
use tensorvault.Storage.Wal.Log.{
  flush_file, flush, rotate_for, fill_zone, buffer_bytes, write_through, write_all, count_record,
  append, put_bytes, buffer_capacity,
}
use tensorvault.Storage.Wal.Log.Contents.{
  contents, buffered, Keeps, flush-Keeps, rotate_for-Keeps, fill_zone-Keeps, count_record-Keeps,
}

-- What an action that writes `bytes` adds: nothing when it fails.
abbrev pub written : Result (Unit {0}) WalError → List ℕ → List ℕ
written (ok _) bytes = bytes
written (err _) bytes = []

-- Bytes that bypass the buffer may be cut by a failure.
abbrev pub Settles : Result (Unit {0}) WalError → List ℕ → Type 0
Settles result bytes = (length bytes < buffer_capacity) ⊎ (result ≡ ok tt)

abbrev pub Writes : Action (Unit {0}) → List ℕ → Type 0
Writes m bytes =
    (w : Wal) → Settles (m w).0 bytes → contents (m w).1 ≡ contents w ++ written (m w).0 bytes

continue-Writes :
    {A : Type 0} (r : Result A WalError) (f : A → Action (Unit {0})) (bytes : List ℕ) (w : Wal)
    → ((a : A) → Writes (f a) bytes)
    → Settles (continue r f w).0 bytes
    → contents (continue r f w).1 ≡ contents w ++ written (continue r f w).0 bytes
continue-Writes (ok a) f bytes w k h = k a w h
continue-Writes (err e) f bytes w k h = sym (append-nil (contents w))

bind-Writes :
    {A : Type 0} (m : Action A) (f : A → Action (Unit {0})) (bytes : List ℕ)
    → Keeps m
    → ((a : A) → Writes (f a) bytes)
    → Writes (m >>= f) bytes
bind-Writes m f bytes km kf w h =
    continue-Writes (m w).0 f bytes (m w).1 kf h
    ∙ ap (λ (t : List ℕ). t ++ written ((m >>= f) w).0 bytes) (km w)

buffer_bytes-Writes : (bytes : List ℕ) → Writes (buffer_bytes bytes) bytes
unfolding buffer_bytes contents
buffer_bytes-Writes bytes w h = elim (Option-cases w.file) [
  | inl e ↦ ground (arith, e)
  | inr (f, e) ↦ ground (arith, e, append_assoc f.disk f.buffer bytes)
]

-- No byte waits in the buffer.
abbrev pub IsFlushed : Wal → Type 0
IsFlushed w = buffered w ≡ []

write_through_writes :
    (bytes : List ℕ) (w : Wal)
    → IsFlushed w
    → (write_through bytes w).0 ≡ ok tt
    → contents (write_through bytes w).1 ≡ contents w ++ written (write_through bytes w).0 bytes
unfolding write_through contents device buffered
write_through_writes bytes w h s = elim (Option-cases w.file) [
  | inl e ↦ ground (arith, e)
  | inr (f, e) ↦ ground (arith, e, append-nil f.disk, append-nil (f.disk ++ bytes))
]

buffered-some : (w : Wal) (f : File) → w.file ≡ some f → buffered w ≡ f.buffer
unfolding buffered
buffered-some w f e = ground (arith, e)

pub flush_empties : (w : Wal) → (flush w).0 ≡ ok tt → IsFlushed (flush w).1
unfolding flush flush_file buffered device
flush_empties w h = ground arith

unsettled :
    (bytes : List ℕ) (result : Result (Unit {0}) WalError)
    → Settles result bytes
    → buffer_capacity ≤ length bytes
    → result ≡ ok tt
unsettled bytes result (inl small) h = absurd (omega arith)
unsettled bytes result (inr done) h = done

-- The buffer is empty if the bytes bypass it.
put_bytes_writes :
    (bytes : List ℕ) (w : Wal)
    → (buffer_capacity ≤ length bytes → IsFlushed w)
    → Settles (put_bytes bytes w).0 bytes
    → contents (put_bytes bytes w).1 ≡ contents w ++ written (put_bytes bytes w).0 bytes
unfolding put_bytes
put_bytes_writes bytes w h = elim (Bool-cases (leb buffer_capacity (length bytes))) [
  | inl large ↦
      rw large
        λ s. write_through_writes bytes w (h (omega tests)) (unsettled bytes _ s (omega tests))
  | inr small ↦ rw small (buffer_bytes-Writes bytes w)
]

flush_then_put :
    (bytes : List ℕ) (r : Result (Unit {0}) WalError) (w : Wal)
    → (r ≡ ok tt → IsFlushed w)
    → Settles (continue r (λ _. put_bytes bytes) w).0 bytes
    → contents (continue r (λ _. put_bytes bytes) w).1
      ≡ contents w ++ written (continue r (λ _. put_bytes bytes) w).0 bytes
flush_then_put bytes (ok tt) w h s = put_bytes_writes bytes w (λ _. h refl) s
flush_then_put bytes (err e) w h s = sym (append-nil (contents w))

no_room :
    (buffer bytes : List ℕ)
    → ltb (length bytes) (buffer_capacity - length buffer) ≡ false
    → ltb (buffer_capacity - length buffer) (length bytes) ≡ false
    → buffer_capacity ≤ length bytes
    → buffer ≡ []
no_room [] bytes a b c = refl
no_room (x ∷ buffer) bytes a b c = absurd (ground arith)

pub write_all-Writes : (bytes : List ℕ) → Writes (write_all bytes) bytes
unfolding write_all
write_all-Writes bytes w s = elim (Option-cases w.file) [
  | inl e ↦ ground (arith, e, append-nil (contents w))
  | inr (f, e) ↦ ground (
    arith,
    e,
    buffer_bytes-Writes bytes w,
    flush_then_put bytes (flush w).0 (flush w).1 (flush_empties w),
    flush-Keeps w,
    put_bytes_writes bytes w,
    no_room f.buffer bytes,
    buffered-some w f e,
  )
]

count_after :
    (n : ℕ) (bytes : List ℕ) (r : Result (Unit {0}) WalError) (w : Wal)
    → contents (continue r (λ _. count_record n) w).1 ≡ contents w
count_after n bytes (ok tt) w = count_record-Keeps n w
count_after n bytes (err e) w = refl

count_result :
    (n : ℕ) (bytes : List ℕ) (r : Result (Unit {0}) WalError) (w : Wal)
    → written (continue r (λ _. count_record n) w).0 bytes ≡ written r bytes
unfolding count_record
count_result n bytes (ok tt) w = refl
count_result n bytes (err e) w = refl

count_record-Settles :
    (n : ℕ) (bytes : List ℕ) (r : Result (Unit {0}) WalError) (w : Wal)
    → Settles (continue r (λ _. count_record n) w).0 bytes
    → Settles r bytes
count_record-Settles n bytes (ok tt) w h = inr refl
count_record-Settles n bytes (err e) w h = h

count-Writes : (n : ℕ) (bytes : List ℕ) → Writes (write_all bytes >> count_record n) bytes
count-Writes n bytes w s =
    let r = (write_all bytes w).0 in
    let v = (write_all bytes w).1 in
    count_after n bytes r v
    ∙ (write_all-Writes bytes w (count_record-Settles n bytes r v s)
        ∙ ap (λ (t : List ℕ). contents w ++ t) (sym (count_result n bytes r v)))

module _ (xxh3_64 : List ℕ → ℕ) where
  -- `append` adds the record's bytes when it succeeds, and, unless they bypass the buffer, none
  -- when it fails.
  pub append-Writes : (r : WalRecord) → Writes (append xxh3_64 r) (encode xxh3_64 r)
  unfolding append
  append-Writes r =
      let buf = encode xxh3_64 r in
      bind-Writes (rotate_for (length buf))
        (λ _. fill_zone (length buf) >> (write_all buf >> count_record (length buf))) buf
        (rotate_for-Keeps (length buf))
        λ _.
          bind-Writes (fill_zone (length buf)) (λ _. write_all buf >> count_record (length buf)) buf
            (fill_zone-Keeps (length buf)) (λ _. count-Writes (length buf) buf)
