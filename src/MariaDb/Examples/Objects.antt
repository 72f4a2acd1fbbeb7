-- ===== src/MariaDb/Examples/Objects.antt =====
-- A client that connects, and answers a stored result of one row or a statement of one row, with what is
-- true of it, and MariaDB objects on it.
use storm_byte_database.Prelude.{
  ℕ, zero, suc, ◌≤◌, length, ap, ◌≡◌, refl, text, Bool, true, false, none, some, List, [], ◌∷◌,
  arith, if◌then◌else◌,
}
use storm_byte_database.Prelude.Int.{ℤ, pos}
use storm_byte_database.Prelude.Words.{to_int32, to_int64, take}
use storm_byte_database.Value.{Value, nan}
use storm_byte_database.Database.{SslMode}
use storm_byte_database.MariaDb.Client.{
  Bind, Buffer, int32, uint32, int64, uint64, character, bytes, FieldType, Cell, no_data, truncated,
  Call, fetches, Client, FiniteResults,
}
use storm_byte_database.MariaDb.Statement.{Stmt}
use storm_byte_database.MariaDb.Statement.Binding.{Param, unreadable, Documented}
use storm_byte_database.MariaDb.Buffers.{characters, Out}
use storm_byte_database.MariaDb.Members.{MariaDb}

-- A reader of bound parameters, as the connector documents it.
abbrev pub signed32 : Bool → ℤ → ℤ
signed32 u z = if u then z else to_int32 z

abbrev pub signed64 : Bool → ℤ → ℤ
signed64 u z = if u then z else to_int64 z

pub reads_buffer : Bool → FieldType → Buffer → ℕ → Param
reads_buffer u FieldType.long (int32 z) n = Param.number z
reads_buffer u FieldType.long (uint32 z) n = Param.number (signed32 u z)
reads_buffer u FieldType.longlong (int64 z) n = Param.number z
reads_buffer u FieldType.longlong (uint64 z) n = Param.number (signed64 u z)
reads_buffer u FieldType.double (Buffer.real x) n = Param.real x
reads_buffer u FieldType.tiny (character k) n = Param.number (pos k)
reads_buffer u FieldType.string (bytes s) n = Param.string (take n s)
reads_buffer u FieldType.blob (bytes s) n = Param.blob (take n s)
reads_buffer u _ _ n = unreadable

pub reads : Bind → Param
unfolding reads_buffer
reads b =
    if b.is_null
    then Param.null
    else reads_buffer b.is_unsigned b.buffer_type b.buffer b.buffer_length

pub reads-Documented : Documented reads
unfolding reads reads_buffer
reads-Documented = record {
  reads_null = λ b h. rw h refl;
  reads_int32 = λ z. refl;
  reads_uint32 = λ z. refl;
  reads_int64 = λ z. refl;
  reads_uint64 = λ z. refl;
  reads_double = λ x. refl;
  reads_tiny = λ k. refl;
  reads_string = λ s n. refl;
  reads_blob = λ s n. refl;
}

-- The first bytes of a block are overwritten.
pub overwrite : List ℕ → List ℕ → List ℕ
overwrite [] old = old
overwrite (b ∷ bs) [] = []
overwrite (b ∷ bs) (c ∷ cs) = b ∷ overwrite bs cs

pub take-overwrite :
    (n : ℕ) (bs old : List ℕ)
    → n ≤ length bs
    → length bs ≤ length old
    → take n (overwrite bs old) ≡ take n bs
unfolding overwrite take
take-overwrite zero bs old k h = refl
take-overwrite (suc n) [] old k h = absurd (omega (arith, k))
take-overwrite (suc n) (b ∷ bs) [] k h = absurd (omega (arith, h))
take-overwrite (suc n) (b ∷ bs) (c ∷ cs) k h =
    ap (◌∷◌ b) (take-overwrite n bs cs (omega (arith, k)) (omega (arith, h)))

-- How often a row was fetched: once, and there is no more.
abbrev pub fetched_before : List Call → Bool
fetched_before [] = false
fetched_before (fetches s ∷ calls) = true
fetched_before (_ ∷ calls) = fetched_before calls

abbrev pub a_cell : Cell
a_cell = record { is_null = false; number = pos 0; real = nan; bytes = 97 ∷ 98 ∷ 99 ∷ [] }

abbrev pub one_row : Client
one_row = record {
  init = λ calls. some 1;
  real_connect = λ calls h. true;
  error = λ calls h. none;
  real_query = λ calls h sql. true;
  warning_count = λ calls h. 0;
  store_result = λ calls h. some 2;
  field_count = λ calls h. 1;
  num_rows = λ r. 1;
  num_fields = λ r. 1;
  field = λ r i. some (record {
    name = some (97 ∷ []);
    type = FieldType.var_string;
    is_unsigned = false;
    length = 1;
    charset = 33;
  });
  row_value = λ r i j. some (97 ∷ 0 ∷ []);
  row_length = λ r i j. 1;
  stmt_init = λ calls h. some 3;
  stmt_prepare = λ calls s sql. true;
  stmt_bind_param = λ calls s. true;
  stmt_execute = λ calls s. true;
  stmt_metadata = λ calls s. some 4;
  stmt_field_count = λ calls s. 1;
  stmt_bind_result = λ calls s. true;
  stmt_store = λ calls s. true;
  stmt_fetch = λ calls s. if fetched_before calls then no_data else truncated;
  stmt_fetch_column = λ calls s i. true;
  stmt_error = λ calls s. none;
  cell = λ calls s i. a_cell;
  rows_left = λ calls s. if fetched_before calls then 0 else 1;
  write = overwrite;
  stod = λ s. none;
}

pub one_row-FiniteResults : FiniteResults one_row
one_row-FiniteResults = (λ calls s h. ground (arith, h), λ calls s i. refl)

abbrev pub object : MariaDb
object = record {
  has_logger = true;
  prepared_stmts = [];
  connected = false;
  ssl_mode = SslMode.default;
  log = [];
  own = record {
    host = text "db";
    user = [];
    password = [];
    dbname = [];
    port = 3306;
    conn = none;
  };
  env = [];
}

abbrev pub prepared : Stmt
prepared = record {
  name = text "put";
  query = text "INSERT INTO t VALUES (?, ?)";
  conn = some 1;
  stmt = some 3;
  params = Value.null ∷ [];
}

-- A column of at most two characters, and a shorter value.
abbrev pub narrow : Out
narrow = record {
  kind = characters;
  buffer_length = 3;
  chars = 0 ∷ 0 ∷ 0 ∷ [];
  attached = true;
  is_null = false;
  len = 0;
  cell = a_cell;
}

abbrev pub b_cell : Cell
b_cell = record { is_null = false; number = pos 0; real = nan; bytes = 120 ∷ [] }
