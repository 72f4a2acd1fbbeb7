-- ===== src/MariaDb/Output/Sending.antt =====
-- `Execute` of a MariaDB statement: what the connector reads of the arguments.
use storm_byte_database.Prelude.{◌≡◌, refl, ◌∙◌, ap, List, [], ◌∷◌, map, All}
use storm_byte_database.Value.{Value}
use storm_byte_database.Rows.{Iterable}
use storm_byte_database.Statement.{execute}
use storm_byte_database.Statement.Contract.{Binds, execute-Binds}
use storm_byte_database.Statement.Memory.{Remembers}
use storm_byte_database.MariaDb.Client.{Bind, Call, Client}
use storm_byte_database.MariaDb.Statement.{Stmt, bind_all_in}
use storm_byte_database.MariaDb.Statement.Binding.{
  Param, Documented, meant, IsPlain, bind_in-reads, binder-params, reset-params, binder-query,
  reset-query,
}
use storm_byte_database.MariaDb.Output.{do_execute, virtuals}

abbrev pub bound : Stmt × List Call → List Value
bound (p, calls) = p.params

abbrev AnyState : Stmt × List Call → Type 0
AnyState s = Unit {0}

abbrev itself : Value → Value
itself v = v

map-itself : (vs : List Value) → map itself vs ≡ vs
map-itself [] = refl
map-itself (v ∷ vs) = ap (◌∷◌ v) (map-itself vs)

map-reads :
    {reads : Bind → Param} (doc : Documented reads) (vs : List Value)
    → All IsPlain vs
    → map reads (bind_all_in vs) ≡ map meant vs
unfolding bind_all_in
map-reads doc [] h = refl
map-reads doc (v ∷ vs) (h, k) = rw (bind_in-reads doc v h, map-reads doc vs k) refl

module _ (c : Client) (it : Iterable) where
  -- A MariaDB statement keeps the contract of bindings.
  pub virtuals-Binds : Binds (virtuals c it) bound itself AnyState
  unfolding virtuals
  virtuals-Binds = record {
    reset_clears = λ s u. reset-params s.0 s.1;
    reset_usable = λ s u. tt;
    binder_appends = λ i a s u e. binder-params i a s.0 s.1 e;
    binder_usable = λ i a s u. tt;
    do_execute_usable = λ s u. tt;
  }

  -- A statement keeps its query while it is bound, reset and executed.
  pub virtuals-Remembers : Remembers (virtuals c it) (λ p. p.query)
  unfolding virtuals do_execute
  virtuals-Remembers = record {
    binder_keeps = binder-query;
    reset_keeps = reset-query;
    do_execute_keeps = λ s. refl;
  }

  -- Execute of a MariaDB statement runs DoExecute on a statement of whose parameters the connector, if it
  -- reads them as it documents, reads exactly the arguments in order, the unsigned ones with their sign bit
  -- clear, and leaves no parameter.
  pub execute-meant :
      {reads : Bind → Param} (args : List Value) (s : Stmt × List Call)
      → Documented reads
      → All IsPlain args
      → (t : Stmt × List Call) × (map reads (bind_all_in (bound t)) ≡ map meant args)
        × ((execute (virtuals c it) args s).0 ≡ (do_execute c it t).0)
        × (bound (execute (virtuals c it) args s).1 ≡ [])
  unfolding virtuals
  execute-meant {reads = reads} args s doc h =
      let (t, e, r, b, u) = execute-Binds virtuals-Binds args s tt in
      (t, ap (λ vs. map reads (bind_all_in vs)) (e ∙ map-itself args) ∙ map-reads doc args h, r, b)
