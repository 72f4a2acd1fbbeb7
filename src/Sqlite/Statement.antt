-- ===== src/Sqlite/Statement.antt =====
-- lib/optional/StormByte/database/sqlite/prepared_stmt.hxx and prepared_stmt.cxx
pub mod Binding
pub mod Idle
use storm_byte_database.Prelude.{
  ℕ, zero, suc, ◌+◌, Text, Bool, true, false, Option, none, some, List, [], ◌∷◌, length, Action,
  pure, modify, ◌>>=◌, ◌>>◌, if◌then◌else◌,
}
use storm_byte_database.Prelude.Int.{ℤ, pos}
use storm_byte_database.Prelude.Words.{to_int32, to_int64, c_string}
use storm_byte_database.Value.{Value}
use storm_byte_database.Rows.{ExpectedRows, Iterable}
use storm_byte_database.Statement.{Virtuals}
use storm_byte_database.Sqlite.Client.{
  Param, Call, finalizes, clears_bindings, resets, binds, Client, Env,
}
use storm_byte_database.Sqlite.Fetch.{step_results}

-- `m_name`, `m_query` and `m_stmt`.
pub record Stmt : Type 0 where
  pub name : Text
  pub query : Text
  pub handle : Option ℕ

-- The constructors.
unfoldable pub create : Text → Text → Stmt
create name query = record { name = name; query = query; handle = none }

pub call : Call → Action (Stmt × Env) (Unit {0})
call c (p, e) = (tt, (p, record e { calls = c ∷ e.calls }))

-- `bv.empty()` passes a null pointer.
blob_param : List ℕ → Param
blob_param [] = Param.blob none 0
blob_param (b ∷ bs) = Param.blob (some (b ∷ bs)) (length (b ∷ bs))

-- What `Binder` binds for a value.
pub render : Value → Param
unfolding blob_param
render Value.null = Param.null
render (Value.integer z) = Param.int z
render (Value.unsigned_integer z) = Param.int (to_int32 z)
render (Value.long_integer z) = Param.int64 z
render (Value.unsigned_long_integer z) = Param.int64 (to_int64 z)
render (Value.double x) = Param.double x
render (Value.boolean b) = Param.int (if b then pos 1 else pos 0)
render (Value.text s) = Param.text (c_string s)
render (Value.blob b) = blob_param b

-- `PreparedSTMT::Binder`: SQLite counts parameters from 1.
binder_on : Option ℕ → ℕ → Value → Action (Stmt × Env) (Unit {0})
unfolding call
binder_on none index value = pure tt
binder_on (some h) index value = call (binds h (index + 1) (render value))

pub binder : ℕ → Value → Action (Stmt × Env) (Unit {0})
unfolding binder_on
binder index value (p, e) = binder_on p.handle index value (p, e)

-- `PreparedSTMT::Reset`
reset_on : Option ℕ → Action (Stmt × Env) (Unit {0})
unfolding call
reset_on none = pure tt
reset_on (some h) = do call (clears_bindings h); call (resets h)

pub reset : Action (Stmt × Env) (Unit {0})
unfolding reset_on
reset (p, e) = reset_on p.handle (p, e)

module _ (c : Client) (it : Iterable) where
  -- `PreparedSTMT::DoExecute`
  pub do_execute : Action (Stmt × Env) ExpectedRows
  do_execute (p, e) =
      let (result, calls) = step_results c it p.handle e.calls in
      (result, (p, record e { calls = calls }))

  unfoldable pub virtuals : Virtuals Stmt Env
  virtuals = record { name = λ p. p.name; binder = binder; reset = reset; do_execute = do_execute }
