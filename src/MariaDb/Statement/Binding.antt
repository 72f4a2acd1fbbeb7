-- ===== src/MariaDb/Statement/Binding.antt =====
-- What the connector reads of the parameters.
use storm_byte_database.Prelude.{
  Option-cases, inl, inr, ℕ, ◌+◌, ◌-◌, ◌≡◌, refl, sym, ap, ◌∙◌, true, false, List, [], ◌∷◌, ◌++◌,
  arith, length, set-append, if◌then◌else◌,
}
use storm_byte_database.Prelude.Int.{ℤ, pos}
use storm_byte_database.Prelude.Words.{to_int32, to_int64, take, take-length}
use storm_byte_database.Value.{Value, Double}
use storm_byte_database.Convert.{IntType}
use storm_byte_database.Convert.Integers.{InRange}
use storm_byte_database.MariaDb.Client.{
  Client, FieldType, Bind, Buffer, nothing, int32, uint32, int64, uint64, character, bytes, Call,
}
use storm_byte_database.MariaDb.Client.Counts.{closed, given, stmts_given, stmts_closed, Idle}
use storm_byte_database.MariaDb.Statement.{
  reset_call, Stmt, ensure_param_size, binder, reset, entry, bind_in,
}

-- A parameter as the connector reads it: a number with the width of the type, signed unless `is_unsigned` is set.
pub data Param : Type 0 where
  null unreadable : Param
  number : ℤ → Param
  real : Double → Param
  string blob : List ℕ → Param

-- What the connector documents of its reading: nothing where `is_null` is set, a number with the width of the type, signed
-- where `is_unsigned` is not set, and as many bytes as `buffer_length` says.
pub record Documented (reads : Bind → Param) : Type 0 where
  pub reads_null : (b : Bind) → b.is_null ≡ true → reads b ≡ Param.null
  pub reads_int32 : (z : ℤ) → reads (entry FieldType.long (int32 z) 0 false) ≡ Param.number z
  pub reads_uint32 :
      (z : ℤ) → reads (entry FieldType.long (uint32 z) 0 false) ≡ Param.number (to_int32 z)
  pub reads_int64 : (z : ℤ) → reads (entry FieldType.longlong (int64 z) 0 false) ≡ Param.number z
  pub reads_uint64 :
      (z : ℤ) → reads (entry FieldType.longlong (uint64 z) 0 false) ≡ Param.number (to_int64 z)
  pub reads_double :
      (x : Double) → reads (entry FieldType.double (Buffer.real x) 0 false) ≡ Param.real x
  pub reads_tiny :
      (k : ℕ) → reads (entry FieldType.tiny (character k) 0 false) ≡ Param.number (pos k)
  pub reads_string :
      (s : List ℕ) (n : ℕ)
      → reads (entry FieldType.string (bytes s) n false) ≡ Param.string (take n s)
  pub reads_blob :
      (s : List ℕ) (n : ℕ) → reads (entry FieldType.blob (bytes s) n false) ≡ Param.blob (take n s)

-- The value as it stands.
pub meant : Value → Param
meant Value.null = Param.null
meant (Value.integer z) = Param.number z
meant (Value.unsigned_integer z) = Param.number z
meant (Value.long_integer z) = Param.number z
meant (Value.unsigned_long_integer z) = Param.number z
meant (Value.double x) = Param.real x
meant (Value.boolean b) = Param.number (pos (if b then 1 else 0))
meant (Value.text s) = Param.string s
meant (Value.blob s) = Param.blob s

-- The unsigned numbers that have the sign bit clear.
abbrev pub IsPlain : Value → Type 0
IsPlain (Value.unsigned_integer z) = InRange IntType.int z
IsPlain (Value.unsigned_long_integer z) = InRange IntType.long_int z
IsPlain _ = Unit {0}

to_int32-small : (z : ℤ) → InRange IntType.int z → to_int32 z ≡ z
to_int32-small z h = ground arith

to_int64-small : (z : ℤ) → InRange IntType.long_int z → to_int64 z ≡ z
to_int64-small z h = ground arith

module _ {reads : Bind → Param} (doc : Documented reads) where
  -- The connector reads every parameter as the value that was bound, unsigned numbers if their sign bit is clear.
  pub bind_in-reads : (v : Value) → IsPlain v → reads (bind_in v) ≡ meant v
  unfolding bind_in meant
  bind_in-reads Value.null h = doc.reads_null (entry FieldType.null nothing 0 true) refl
  bind_in-reads (Value.integer z) h = doc.reads_int32 z
  bind_in-reads (Value.unsigned_integer z) h =
      doc.reads_uint32 z ∙ ap Param.number (to_int32-small z h)
  bind_in-reads (Value.long_integer z) h = doc.reads_int64 z
  bind_in-reads (Value.unsigned_long_integer z) h =
      doc.reads_uint64 z ∙ ap Param.number (to_int64-small z h)
  bind_in-reads (Value.double x) h = doc.reads_double x
  bind_in-reads (Value.boolean b) h = doc.reads_tiny (if b then 1 else 0)
  bind_in-reads (Value.text s) h = doc.reads_string s (length s) ∙ ap Param.string (take-length s)
  bind_in-reads (Value.blob s) h = doc.reads_blob s (length s) ∙ ap Param.blob (take-length s)

pub binder-params :
    (i : ℕ) (a : Value) (p : Stmt) (calls : List Call)
    → length p.params ≡ i
    → (binder i a (p, calls)).1.0.params ≡ p.params ++ a ∷ []
unfolding binder ensure_param_size
binder-params i a p calls e =
    let one : i + 1 - length p.params ≡ 1 = omega (arith, e) in
    rw (one, sym e) (set-append p.params Value.null a)

pub reset-params : (p : Stmt) (calls : List Call) → (reset (p, calls)).1.0.params ≡ []
unfolding reset
reset-params p calls = refl

pub binder-query : (i : ℕ) (a : Value) (s : Stmt × List Call) → (binder i a s).1.0.query ≡ s.0.query
unfolding binder
binder-query i a s = refl

pub reset-query : (s : Stmt × List Call) → (reset s).1.0.query ≡ s.0.query
unfolding reset
reset-query s = refl

pub binder-calls : (i : ℕ) (a : Value) (s : Stmt × List Call) → (binder i a s).1.1 ≡ s.1
unfolding binder
binder-calls i a s = refl

pub reset-Idle : (c : Client) (s : Stmt × List Call) → Idle c s.1 (reset s).1.1
unfolding reset reset_call given closed stmts_given stmts_closed
reset-Idle c (p, calls) = elim (Option-cases p.stmt) [
  | inl e ↦ rw (e, reset_call) (refl, refl, refl, refl)
  | inr (h, e) ↦ rw (e, reset_call) (refl, refl, refl, refl)
]

-- Neither changes the handle of the statement.
pub binder-handle : (i : ℕ) (a : Value) (s : Stmt × List Call) → (binder i a s).1.0.stmt ≡ s.0.stmt
unfolding binder
binder-handle i a s = refl

pub reset-handle : (s : Stmt × List Call) → (reset s).1.0.stmt ≡ s.0.stmt
unfolding reset
reset-handle s = refl
