-- ===== src/MariaDb/Buffers.antt =====
-- lib/optional/StormByte/database/mariadb/prepared_stmt.cxx, `DoExecute`: the buffer that a column of the result is bound
-- to, what a fetch leaves in it, and the value that is read from it. The connector keeps its own copy of the
-- `MYSQL_BIND` array of the columns, so `mysql_stmt_fetch` writes to the buffers that were bound first; where a vector
-- was moved since, what is written is lost.
pub mod Columns
use storm_byte_database.Prelude.{
  ℕ, zero, suc, ◌+◌, ◌-◌, Text, text, Bool, true, false, not, ◌&&◌, ◌||◌, Option, none, some, List,
  [], ◌∷◌, ◌++◌, map, length, get_elem?, replicate, ◌==◌, ltb, is_empty, Action, if◌then◌else◌,
}
use storm_byte_database.Prelude.Int.{ℤ, pos}
use storm_byte_database.Prelude.Words.{c_string, take}
use storm_byte_database.Exception.{Exception, ok, err}
use storm_byte_database.Value.{Value, nan, int_eq}
use storm_byte_database.Row.{Row}
use storm_byte_database.Columns.{fill_row}
use storm_byte_database.Rows.{Rows, ExpectedRows, Iterable}
use storm_byte_database.Statement.{Virtuals}
use storm_byte_database.MariaDb.Client.{
  FieldType, Field, Cell, FetchCode, row, no_data, truncated, failed, Call, binds_params,
  executes_stmt, binds_result, stores_stmt, fetches, fetches_column, frees_result, frees_stmt,
  Client,
}
use storm_byte_database.MariaDb.Fetch.{
  column_name, type_of_field, unsigned_field, length_of_field, is_binary, is_flag,
}
use storm_byte_database.MariaDb.Statement.{Stmt, binder, reset, bind_all_in}

-- How a column is bound: to a number buffer, to the double buffer, or to characters.
pub data Kind : Type 0 where
  number real characters : Kind

kind_of : FieldType → Kind
kind_of FieldType.tiny = Kind.number
kind_of FieldType.short = Kind.number
kind_of FieldType.long = Kind.number
kind_of FieldType.longlong = Kind.number
kind_of FieldType.float = Kind.real
kind_of FieldType.double = Kind.real
kind_of _ = Kind.characters

-- The state of a column while rows are fetched: `bind_out[i].buffer_length`, the contents of `out_str[i]`, whether the
-- connector still writes to that vector, and what the last fetch left in the other buffers. `out_len[i]` is `len`.
pub record Out : Type 0 where
  pub kind : Kind
  pub buffer_length : ℕ
  pub chars : List ℕ
  pub attached : Bool
  pub is_null : Bool
  pub len : ℕ
  pub cell : Cell

abbrev empty_cell : Cell
empty_cell = record { is_null = false; number = pos 0; real = nan; bytes = [] }

-- `(f && f->length) ? f->length : 1024`
abbrev pub buffer_size : Option Field → ℕ
buffer_size f = if length_of_field f == 0 then 1024 else length_of_field f

bound_kind : Kind → Option Field → Out
bound_kind Kind.characters f = record {
  kind = Kind.characters;
  buffer_length = buffer_size f + 1;
  chars = replicate (buffer_size f + 1) 0;
  attached = true;
  is_null = false;
  len = 0;
  cell = empty_cell;
}
bound_kind k f = record {
  kind = k;
  buffer_length = 0;
  chars = [];
  attached = true;
  is_null = false;
  len = 0;
  cell = empty_cell;
}

-- What the loop before `mysql_stmt_bind_result` makes of a column.
unfoldable pub bind_out : Option Field → Out
unfolding kind_of bound_kind
bind_out f = bound_kind (kind_of (type_of_field f)) f

-- The length that the connector reports. That of a number is only compared with 0.
cell_length : Kind → Cell → ℕ
cell_length Kind.characters x = length x.bytes
cell_length Kind.real x = 8
cell_length Kind.number x = 4

-- `mysql_stmt_fetch` on one column, for the way in which a value is written over the start of a buffer.
unfoldable pub fetched : (List ℕ → List ℕ → List ℕ) → Cell → Out → Out
unfolding cell_length
fetched write x o = record {
  kind = o.kind;
  buffer_length = o.buffer_length;
  chars = if o.attached then write x.bytes o.chars else o.chars;
  attached = o.attached;
  is_null = x.is_null;
  len = cell_length o.kind x;
  cell = x;
}

-- Whether the code fetches the column again: what it compares is the length of the buffer, which is 0 for numbers.
unfoldable pub refetches : Out → Bool
refetches o = not o.is_null && ltb o.buffer_length o.len

-- `out_str[ci].resize(out_len[ci] + 1)`, the new buffer, and `mysql_stmt_fetch_column` into it.
unfoldable pub refetched : (List ℕ → List ℕ → List ℕ) → Out → Out
refetched write o = record {
  kind = o.kind;
  buffer_length = o.len + 1;
  chars = write o.cell.bytes (replicate (o.len + 1) 0);
  attached = false;
  is_null = o.is_null;
  len = o.len;
  cell = o.cell;
}

-- The value that is added to the row.
text_value : Option Field → Out → Value
text_value f o = Value.text (take o.len o.chars)

blob_value : Option Field → Out → Value
blob_value f o =
    if is_binary f then Value.blob (take o.len o.chars) else Value.text (take o.len o.chars)

typed_value : Option Field → FieldType → Out → Value
unfolding text_value blob_value
typed_value f FieldType.tiny o =
    if is_flag f
    then Value.boolean (not (int_eq o.cell.number (pos 0)))
    else if unsigned_field f
    then Value.unsigned_integer o.cell.number
    else Value.integer o.cell.number
typed_value f FieldType.short o =
    if unsigned_field f then Value.unsigned_integer o.cell.number else Value.integer o.cell.number
typed_value f FieldType.long o =
    if unsigned_field f then Value.unsigned_integer o.cell.number else Value.integer o.cell.number
typed_value f FieldType.longlong o =
    if unsigned_field f
    then Value.unsigned_long_integer o.cell.number
    else Value.long_integer o.cell.number
typed_value f FieldType.float o = Value.double o.cell.real
typed_value f FieldType.double o = Value.double o.cell.real
typed_value f FieldType.blob o = blob_value f o
typed_value f FieldType.int24 o = text_value f o
typed_value f FieldType.decimal o = text_value f o
typed_value f FieldType.newdecimal o = text_value f o
typed_value f FieldType.tiny_blob o = text_value f o
typed_value f FieldType.medium_blob o = text_value f o
typed_value f FieldType.long_blob o = text_value f o
typed_value f FieldType.var_string o = text_value f o
typed_value f FieldType.string o = text_value f o
typed_value f FieldType.varchar o = text_value f o
typed_value f FieldType.null o = text_value f o
typed_value f FieldType.other o = text_value f o

pub out_value : Option Field → Out → Value
unfolding typed_value
out_value f o = if o.is_null then Value.null else typed_value f (type_of_field f) o

-- The column of an index; the loops stay within the fields.
unfoldable pub value_or_null : Option Field → Option Out → Value
unfolding out_value
value_or_null f none = Value.null
value_or_null f (some o) = out_value f o
