-- ===== src/Postgres/Statement.antt =====
-- lib/optional/StormByte/database/postgres/prepared_stmt.hxx and prepared_stmt.cxx. A parameter is a pointer into the
-- statement's own storage, so the storage is modelled with the addresses of what it holds, for libstdc++: a
-- `std::vector` doubles its capacity, a string of at most 15 characters lies inside its object and a longer one on the
-- heap.
pub mod Storage
pub mod Binding
pub mod Sending
pub mod Again
pub mod Idle
pub mod Clearing
use storm_byte_database.Prelude.{
  ℕ, zero, suc, ◌+◌, ◌-◌, ◌*◌, Text, text, Bool, true, false, ◌&&◌, ◌||◌, Option, none, some, List,
  [], ◌∷◌, ◌++◌, map, length, get_elem?, set, replicate, ◌==◌, ltb, leb, Action, pure, ◌>>=◌, ◌>>◌,
  if◌then◌else◌,
}
use storm_byte_database.Prelude.Int.{ℤ, pos, pos_part}
use storm_byte_database.Prelude.Words.{to_int32, c_string, take}
use storm_byte_database.Exception.{Exception, err}
use storm_byte_database.Value.{Value}
use storm_byte_database.Rows.{ExpectedRows, Iterable}
use storm_byte_database.Statement.{Virtuals}
use storm_byte_database.Decimal.{to_string, double_to_string}
use storm_byte_database.Postgres.Client.{
  Param, dangling, binary, Call, executes_prepared, clears, Client,
}
use storm_byte_database.Postgres.Fetch.{step_results}

-- A pointer: null, to the characters inside the string object in a slot of an array of `m_string_storage`, to the heap
-- buffer of the string in a slot, or to the heap buffer of a blob.
pub data Pointer : Type 0 where
  null : Pointer
  inside : ℕ → ℕ → Pointer
  on_heap blob_at : ℕ → Pointer

-- The members. `m_string_storage` has a capacity and the array that it lives in now; each growth moves it to a new one.
pub record Stmt : Type 0 where
  pub name : Text
  pub query : Text
  pub conn : Option ℕ
  pub stmt_name : Text
  pub param_values : List Pointer
  pub param_lengths : List ℤ
  pub param_formats : List ℕ
  pub strings : List Text
  pub capacity : ℕ
  pub array : ℕ
  pub blobs : List (List ℕ)

-- The constructors.
unfoldable pub create : Text → Text → Stmt
create name query = record {
  name = name;
  query = query;
  conn = none;
  stmt_name = name;
  param_values = [];
  param_lengths = [];
  param_formats = [];
  strings = [];
  capacity = 0;
  array = 0;
  blobs = [];
}

-- `v.resize(index + 1, fill)` if the index is past the end, and the write to the index.
abbrev grown {ℓ} : {A : Type ℓ} → ℕ → A → List A → List A
grown index fill xs = xs ++ replicate (index + 1 - length xs) fill

abbrev put {ℓ} : {A : Type ℓ} → ℕ → A → A → List A → List A
put index fill x xs = set (grown index fill xs) index x

-- The three writes that every branch of `Binder` ends with.
pub set_param : ℕ → Pointer → ℤ → ℕ → Stmt → Stmt
set_param index ptr len format p = record p {
  param_values = put index Pointer.null ptr p.param_values;
  param_lengths = put index (pos 0) len p.param_lengths;
  param_formats = put index 0 format p.param_formats;
}

-- `m_string_storage.emplace_back(s)`
pub push_string : Text → Stmt → Stmt
push_string s p =
    if ltb (length p.strings) p.capacity
    then record p { strings = p.strings ++ s ∷ [] }
    else record p {
      strings = p.strings ++ s ∷ [];
      capacity = if p.capacity == 0 then 1 else 2 * p.capacity;
      array = suc p.array;
    }

-- `m_string_storage.back().c_str()`, for the last string of the array and its slot.
pub back : Text → ℕ → ℕ → Pointer
back s array slot = if leb (length s) 15 then inside array slot else on_heap slot

pub bind_string : ℕ → Text → Stmt → Stmt
unfolding set_param push_string back
bind_string index s p =
    let q = push_string s p in set_param index (back s q.array (length p.strings)) (pos 0) 0 q

-- `m_blob_storage.back().data()` is null for an empty vector.
blob_pointer : List ℕ → ℕ → Pointer
blob_pointer [] slot = Pointer.null
blob_pointer (b ∷ bs) slot = blob_at slot

pub bind_blob : ℕ → List ℕ → Stmt → Stmt
unfolding set_param blob_pointer
bind_blob index bytes p =
    set_param index (blob_pointer bytes (length p.blobs)) (to_int32 (pos (length bytes))) 1
      (record p { blobs = p.blobs ++ bytes ∷ [] })

-- `PreparedSTMT::Binder`
pub bind_value : ℕ → Value → Stmt → Stmt
unfolding bind_string bind_blob set_param
bind_value index Value.null p = set_param index Pointer.null (pos 0) 0 p
bind_value index (Value.integer z) p = bind_string index (to_string z) p
bind_value index (Value.unsigned_integer z) p = bind_string index (to_string z) p
bind_value index (Value.long_integer z) p = bind_string index (to_string z) p
bind_value index (Value.unsigned_long_integer z) p = bind_string index (to_string z) p
bind_value index (Value.double x) p = bind_string index (double_to_string x) p
bind_value index (Value.boolean b) p = bind_string index (if b then text "true" else text "false") p
bind_value index (Value.text s) p = bind_string index s p
bind_value index (Value.blob bytes) p = bind_blob index bytes p

pub binder : ℕ → Value → Action (Stmt × List Call) (Unit {0})
unfolding bind_value
binder index value (p, calls) = (tt, (bind_value index value p, calls))

-- `PreparedSTMT::Reset`: the vectors keep their arrays.
pub cleared : Stmt → Stmt
cleared p = record p {
  param_values = [];
  param_lengths = [];
  param_formats = [];
  strings = [];
  blobs = [];
}

pub reset : Action (Stmt × List Call) (Unit {0})
unfolding cleared
reset (p, calls) = (tt, (cleared p, calls))

-- What libpq reads behind a pointer that is not null: a C string in format 0, so many bytes in format 1.
abbrev pub read_param : Option (List ℕ) → ℤ → ℕ → Param
read_param none len format = dangling
read_param (some bytes) len format =
    if format == 0 then Param.text (c_string bytes) else binary (take (pos_part len) bytes)

-- With what is stored now: the array of the strings, the strings and the blobs.
pub seen : ℕ → List Text → List (List ℕ) → Pointer → ℤ → ℕ → Param
seen array strings blobs Pointer.null len format = Param.null
seen array strings blobs (inside home slot) len format =
    if home == array then read_param (get_elem? strings slot) len format else dangling
seen array strings blobs (on_heap slot) len format = read_param (get_elem? strings slot) len format
seen array strings blobs (blob_at slot) len format = read_param (get_elem? blobs slot) len format

-- The three arrays that `DoExecute` copies and passes, as libpq reads them.
pub seen_all : ℕ → List Text → List (List ℕ) → List Pointer → List ℤ → List ℕ → List Param
seen_all array strings blobs (v ∷ vs) (l ∷ ls) (f ∷ fs) =
    seen array strings blobs v l f ∷ seen_all array strings blobs vs ls fs
seen_all array strings blobs _ _ _ = []

pub params : Stmt → List Param
unfolding seen_all
params p = seen_all p.array p.strings p.blobs p.param_values p.param_lengths p.param_formats

module _ (c : Client) (it : Iterable) where
  pub error_text : Option Text → Text
  error_text none = text "Unknown Postgres error"
  error_text (some s) = c_string s

  -- From the result on; the answers are those at the calls so far.
  pub finish : ℕ → Option ℕ → List Call → ExpectedRows × List Call
  unfolding error_text
  finish conn none calls =
      (err (Exception.execute_error (text "Null PGresult from PQexecPrepared")), calls)
  finish conn (some res) calls =
      if c.result_ok res then (step_results c it (some res), clears res ∷ calls) else (
        err (Exception.execute_error (error_text (c.error_message calls conn))),
        clears res ∷ calls,
      )

  do_execute_on : Option ℕ → Action (Stmt × List Call) ExpectedRows
  unfolding params finish
  do_execute_on none s =
      (err (Exception.execute_error (text "No connection available for prepared statement")), s)
  do_execute_on (some conn) (p, calls) =
      let res = c.exec_prepared calls conn (c_string p.stmt_name) (params p) in
      let (result, after) =
        finish conn res (executes_prepared conn (c_string p.stmt_name) (params p) ∷ calls) in
      (result, (p, after))

  -- `PreparedSTMT::DoExecute`
  pub do_execute : Action (Stmt × List Call) ExpectedRows
  unfolding do_execute_on
  do_execute (p, calls) = do_execute_on p.conn (p, calls)

  unfoldable pub virtuals : Virtuals Stmt (List Call)
  virtuals = record { name = λ p. p.name; binder = binder; reset = reset; do_execute = do_execute }
