-- ===== src/MariaDb/Client.antt =====
-- The MariaDB C connector as the backend sees it: the calls that change something, and its answers, which are
-- parameters that may depend on all calls so far.
pub mod Counts
use storm_byte_database.Prelude.{ℕ, ◌<◌, ◌≡◌, ◌⊎◌, Text, Bool, Option, List, ◌∷◌}
use storm_byte_database.Prelude.Int.{ℤ}
use storm_byte_database.Value.{Double}

-- `enum_field_types`, as far as the backend tells the types apart.
pub data FieldType : Type 0 where
  tiny short long int24 longlong float double decimal newdecimal tiny_blob medium_blob long_blob
        blob var_string string varchar null other :
      FieldType

-- A `MYSQL_FIELD`.
pub record Field : Type 0 where
  pub name : Option Text
  pub type : FieldType
  pub is_unsigned : Bool
  pub length : ℕ
  pub charset : ℕ

-- What the buffer of a parameter holds: the buffers are of the C++ types that the names say.
pub data Buffer : Type 0 where
  nothing : Buffer
  int32 uint32 int64 uint64 : ℤ → Buffer
  real : Double → Buffer
  character : ℕ → Buffer
  bytes : List ℕ → Buffer

-- A `MYSQL_BIND` of a parameter.
pub record Bind : Type 0 where
  pub buffer_type : FieldType
  pub buffer : Buffer
  pub buffer_length : ℕ
  pub is_null : Bool
  pub is_unsigned : Bool

pub data SslOption : Type 0 where
  disabled preferred required : SslOption

pub data Call : Type 0 where
  initializes : Call
  sets_ssl : ℕ → SslOption → Call
  connects : ℕ → Option Text → Option Text → Option Text → Option Text → ℕ → Call
  inits_stmt closes frees_result stores_result fetches_row : ℕ → Call
  queries : ℕ → Text → Call
  prepares : ℕ → Text → Call
  closes_stmt resets_stmt executes_stmt binds_result stores_stmt fetches frees_stmt : ℕ → Call
  binds_params : ℕ → List Bind → Call
  fetches_column : ℕ → ℕ → Call

-- `mysql_stmt_fetch`: 0, `MYSQL_NO_DATA`, `MYSQL_DATA_TRUNCATED`, or an error.
pub data FetchCode : Type 0 where
  row no_data truncated failed : FetchCode

-- The value of a column in the row that was fetched: a number, a double, or bytes, by the type of the field.
pub record Cell : Type 0 where
  pub is_null : Bool
  pub number : ℤ
  pub real : Double
  pub bytes : List ℕ

-- The answers. A Boolean is whether the call succeeded; a handle is a number, or null. The calls so far are listed
-- newest first, the answered one not included.
pub record Client : Type 0 where
  pub init : List Call → Option ℕ
  pub real_connect : List Call → ℕ → Bool
  pub error : List Call → ℕ → Option Text
  pub real_query : List Call → ℕ → Text → Bool
  pub warning_count : List Call → ℕ → ℕ
  pub store_result : List Call → ℕ → Option ℕ
  pub field_count : List Call → ℕ → ℕ
  -- A stored result: its rows of values, each a null pointer or the bytes behind it and a length.
  pub num_rows : ℕ → ℕ
  pub num_fields : ℕ → ℕ
  pub field : ℕ → ℕ → Option Field
  pub row_value : ℕ → ℕ → ℕ → Option (List ℕ)
  pub row_length : ℕ → ℕ → ℕ → ℕ
  pub stmt_init : List Call → ℕ → Option ℕ
  pub stmt_prepare : List Call → ℕ → Text → Bool
  pub stmt_bind_param : List Call → ℕ → Bool
  pub stmt_execute : List Call → ℕ → Bool
  pub stmt_metadata : List Call → ℕ → Option ℕ
  pub stmt_field_count : List Call → ℕ → ℕ
  pub stmt_bind_result : List Call → ℕ → Bool
  pub stmt_store : List Call → ℕ → Bool
  pub stmt_fetch : List Call → ℕ → FetchCode
  pub stmt_fetch_column : List Call → ℕ → ℕ → Bool
  pub stmt_error : List Call → ℕ → Option Text
  pub cell : List Call → ℕ → ℕ → Cell
  pub rows_left : List Call → ℕ → ℕ
  -- What a buffer holds once a value was written to it.
  pub write : List ℕ → List ℕ → List ℕ
  -- `strtod` of the C library; `none` where `std::stod` throws.
  pub stod : Text → Option Double

-- A result is finite: each row that is fetched leaves fewer, and to fetch a column again changes nothing there.
abbrev pub FiniteResults : Client → Type 0
FiniteResults c =
    ((calls : List Call) (s : ℕ)
      → (c.stmt_fetch calls s ≡ row) ⊎ (c.stmt_fetch calls s ≡ truncated)
      → c.rows_left (fetches s ∷ calls) s < c.rows_left calls s)
    × ((calls : List Call) (s i : ℕ)
        → c.rows_left (fetches_column s i ∷ calls) s ≡ c.rows_left calls s)
