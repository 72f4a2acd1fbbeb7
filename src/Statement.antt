-- ===== src/Statement.antt =====
-- lib/public/StormByte/database/prepared_stmt.hxx: the template method `PreparedSTMT::Execute` over the
-- virtual methods of a backend. A statement is `P`; `E` is what lies outside it: the client library.
pub mod Contract
pub mod Memory
use storm_byte_database.Prelude.{ℕ, zero, suc, ◌+◌, Text, List, [], ◌∷◌, Action, pure, ◌>>=◌, ◌>>◌}
use storm_byte_database.Value.{Value}
use storm_byte_database.Rows.{ExpectedRows}

-- `Name()` and the virtual methods.
pub record Virtuals (P E : Type 0) : Type 0 where
  pub name : P → Text
  pub binder : ℕ → Value → Action (P × E) (Unit {0})
  pub reset : Action (P × E) (Unit {0})
  pub do_execute : Action (P × E) ExpectedRows

module _ {P E : Type 0} (v : Virtuals P E) where
  -- The fold over the arguments in `Execute`: `Bind` makes a `Value` and calls `Binder`.
  unfoldable pub bind_all : ℕ → List Value → Action (P × E) (Unit {0})
  bind_all idx [] = pure tt
  bind_all idx (a ∷ args) = v.binder idx a >> bind_all (suc idx) args

  -- `PreparedSTMT::Execute`
  unfoldable pub execute : List Value → Action (P × E) ExpectedRows
  execute args = do v.reset; bind_all 0 args; result ← v.do_execute; v.reset; pure result
