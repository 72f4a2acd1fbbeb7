-- ===== src/MariaDb/Buffers/Columns.antt =====
-- What a fetched column shows of the row.
use storm_byte_database.Prelude.{
  refl, Bool-cases, inl, inr, ltb, false, if◌then◌else◌, ℕ, ◌+◌, ◌≤◌, ◌≡◌, ◌∙◌, true, List, arith,
  length, replicate, length-replicate,
}
use storm_byte_database.Prelude.Words.{take, take-length}
use storm_byte_database.MariaDb.Client.{Cell}
use storm_byte_database.MariaDb.Buffers.{
  characters, refetches, Out, cell_length, fetched, refetched,
}

-- A value that fits is written over the start of the buffer.
abbrev pub WritesStart : (List ℕ → List ℕ → List ℕ) → Type 0
WritesStart write =
    (n : ℕ) (bs old : List ℕ)
    → n ≤ length bs
    → length bs ≤ length old
    → take n (write bs old) ≡ take n bs

-- A column of characters that the connector still writes to, and that has room for the value, shows the value.
fetched_fits :
    (write : List ℕ → List ℕ → List ℕ) (x : Cell) (o : Out)
    → WritesStart write
    → o.kind ≡ characters
    → o.attached ≡ true
    → length x.bytes ≤ length o.chars
    → take (fetched write x o).len (fetched write x o).chars ≡ x.bytes
unfolding fetched cell_length
fetched_fits write x o w k a h =
    rw (k, a) (w (length x.bytes) x.bytes o.chars (omega arith) h ∙ take-length x.bytes)

roomy : (bs : List ℕ) → length bs ≤ length (replicate {A = ℕ} (length bs + 1) 0)
roomy bs = let zero_byte : ℕ = 0 in omega (arith, length-replicate (length bs + 1) zero_byte)

-- Where a value that fits is written over the start of a buffer, a column of characters that is fetched
-- again shows the whole value of its row.
refetched_shows :
    (write : List ℕ → List ℕ → List ℕ) (x : Cell) (o : Out)
    → WritesStart write
    → o.kind ≡ characters
    → take (refetched write (fetched write x o)).len (refetched write (fetched write x o)).chars
      ≡ x.bytes
unfolding fetched refetched cell_length
refetched_shows write x o w k =
    let zeros : List ℕ = replicate (length x.bytes + 1) 0 in
    rw k (w (length x.bytes) x.bytes zeros (omega arith) (roomy x.bytes) ∙ take-length x.bytes)

refetches-fetched :
    (write : List ℕ → List ℕ → List ℕ) (x : Cell) (o : Out)
    → o.kind ≡ characters
    → x.is_null ≡ false
    → refetches (fetched write x o) ≡ ltb o.buffer_length (length x.bytes)
unfolding refetches fetched cell_length
refetches-fetched write x o k v = rw (k, v) refl

-- Where a value that fits is written over the start of a buffer, a column of characters that the connector
-- writes to, with its length as buffer length, shows exactly the bytes of a value that is not null, fetched
-- again if it did not fit.
pub fetched_shows :
    (write : List ℕ → List ℕ → List ℕ) (x : Cell) (o : Out)
    → WritesStart write
    → o.kind ≡ characters
    → o.attached ≡ true
    → o.buffer_length ≡ length o.chars
    → x.is_null ≡ false
    → let got = fetched write x o in
      let shown = (if refetches got then refetched write got else got) in
      take shown.len shown.chars ≡ x.bytes
fetched_shows write x o w k a n v =
    let q : refetches (fetched write x o) ≡ ltb o.buffer_length (length x.bytes) =
      refetches-fetched write x o k v in
    elim (Bool-cases (ltb o.buffer_length (length x.bytes))) [
      | inl e ↦ rw (q, e) (refetched_shows write x o w k)
      | inr e ↦ rw (q, e) (fetched_fits write x o w k a (ground (arith, e, n)))
    ]

-- Where a value that fits is written over the start of a buffer, in the row after a column of characters
-- was fetched again, the column shows a prefix of the earlier value, whatever the new one is, if the new
-- one is not longer.
pub refetched_goes_stale :
    (write : List ℕ → List ℕ → List ℕ) (x y : Cell) (o : Out)
    → WritesStart write
    → o.kind ≡ characters
    → length y.bytes ≤ length x.bytes
    → take
        (fetched write y (refetched write (fetched write x o))).len
        (fetched write y (refetched write (fetched write x o))).chars
      ≡ take (length y.bytes) x.bytes
unfolding fetched refetched cell_length
refetched_goes_stale write x y o w k h =
    let zeros : List ℕ = replicate (length x.bytes + 1) 0 in
    rw k (w (length y.bytes) x.bytes zeros h (roomy x.bytes))
