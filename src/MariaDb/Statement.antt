-- ===== src/MariaDb/Statement.antt =====
-- lib/optional/StormByte/database/mariadb/prepared_stmt.hxx, and of prepared_stmt.cxx beside it the constructors, the
-- binding of parameters and the first half of `DoExecute`, the `MYSQL_BIND` array of the parameters.
pub mod Binding
pub mod Trimming
use storm_byte_database.Prelude.{
  ℕ, ◌+◌, ◌-◌, Text, text, Bool, true, false, Option, none, some, List, [], ◌∷◌, ◌++◌, map, length,
  set, replicate, ◌==◌, Action, pure, when, ◌>>=◌, ◌>>◌, is_some, if◌then◌else◌,
}
use storm_byte_database.Prelude.Int.{ℤ}
use storm_byte_database.Prelude.Words.{to_int32, to_int64}
use storm_byte_database.Value.{Value, Double}
use storm_byte_database.Decimal.{is_space}
use storm_byte_database.Trim.{trim_end}
use storm_byte_database.MariaDb.Client.{
  FieldType, Bind, Buffer, nothing, int32, uint32, int64, uint64, character, bytes, Call,
  closes_stmt, resets_stmt, Client,
}

-- `m_name`, `m_query`, `m_conn`, `m_stmt` and `m_params`.
pub record Stmt : Type 0 where
  pub name : Text
  pub query : Text
  pub conn : Option ℕ
  pub stmt : Option ℕ
  pub params : List Value

-- What the constructor prepares: the query without spaces at its end and one semicolon before them.
drop_semicolon : Text → Text
drop_semicolon [] = []
drop_semicolon (c ∷ []) = if c == 59 then [] else c ∷ []
drop_semicolon (c ∷ d ∷ s) = let rest = drop_semicolon (d ∷ s) in c ∷ rest

pub prepared_query : Text → Text
unfolding drop_semicolon
prepared_query sql = drop_semicolon (trim_end is_space sql)

-- `EnsureParamSize`, for an index that is not negative.
ensure_param_size : List Value → ℕ → List Value
ensure_param_size params index = params ++ replicate (index + 1 - length params) Value.null

-- `PreparedSTMT::Binder`
pub binder : ℕ → Value → Action (Stmt × List Call) (Unit {0})
unfolding ensure_param_size
binder index value (p, calls) =
    (tt, (record p { params = set (ensure_param_size p.params index) index value }, calls))

-- `PreparedSTMT::Reset`
reset_call : Option ℕ → List Call → List Call
reset_call none calls = calls
reset_call (some s) calls = resets_stmt s ∷ calls

pub reset : Action (Stmt × List Call) (Unit {0})
unfolding reset_call
reset (p, calls) = (tt, (record p { params = [] }, reset_call p.stmt calls))

-- The entries that a branch of the loop over the parameters does not write are zero.
abbrev pub entry : FieldType → Buffer → ℕ → Bool → Bind
entry t b n is_null = record {
  buffer_type = t;
  buffer = b;
  buffer_length = n;
  is_null = is_null;
  is_unsigned = false;
}

pub bind_in : Value → Bind
bind_in Value.null = entry FieldType.null nothing 0 true
bind_in (Value.integer z) = entry FieldType.long (int32 z) 0 false
bind_in (Value.unsigned_integer z) = entry FieldType.long (uint32 z) 0 false
bind_in (Value.long_integer z) = entry FieldType.longlong (int64 z) 0 false
bind_in (Value.unsigned_long_integer z) = entry FieldType.longlong (uint64 z) 0 false
bind_in (Value.double x) = entry FieldType.double (Buffer.real x) 0 false
bind_in (Value.boolean b) = entry FieldType.tiny (character (if b then 1 else 0)) 0 false
bind_in (Value.text s) = entry FieldType.string (bytes s) (length s) false
bind_in (Value.blob s) = entry FieldType.blob (bytes s) (length s) false

unfoldable pub bind_all_in : List Value → List Bind
unfolding bind_in
bind_all_in params = map bind_in params
