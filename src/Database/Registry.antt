-- ===== src/Database/Registry.antt =====
-- The map of prepared statements: registration by name and execution by name.
use storm_byte_database.Prelude.{
  ◌≡◌, refl, ◌∙◌, inl, inr, Option, none, some, List, [], ◌∷◌, map, Text, text, text_eq,
  eq_of_text_eq, lookup, emplace, lookup-emplace, lookup-store, arith, Option-cases, if◌then◌else◌,
}
use storm_byte_database.Value.{Value}
use storm_byte_database.Statement.{execute}
use storm_byte_database.Statement.Contract.{Binds, execute-Binds}
use storm_byte_database.Database.{
  Db, Backend, Level, debug, write_log, register, register_if_made, do_prepare_stmt, execute_stmt,
}

-- The log line of `DoPrepareSTMT`.
abbrev pub preparing : Text → Text → List Text
preparing name query = text "Preparing statement '" ∷ name ∷ text "': " ∷ query ∷ []

module _ {P W E : Type 0} where
  -- What a backend promises of `CreatePreparedSTMT` and of a statement's destructor.
  pub record Creates (b : Backend P W E) : Type 0 where
    pub create_keeps :
        (name query : Text) (db : Db P W E)
        → (b.create_stmt name query db).1.prepared_stmts ≡ db.prepared_stmts
    pub create_names :
        (name query : Text) (db : Db P W E) (p : P)
        → (b.create_stmt name query db).0 ≡ some p
        → b.statement.name p ≡ name
    pub destroy_keeps :
        (p : P) (db : Db P W E) → (b.destroy_stmt p db).1.prepared_stmts ≡ db.prepared_stmts

  pub write_log-prepared_stmts :
      (l : Level) (pieces : List Text) (db : Db P W E)
      → (write_log l pieces db).1.prepared_stmts ≡ db.prepared_stmts
  unfolding write_log
  write_log-prepared_stmts l pieces db = ground arith

  module _ {b : Backend P W E} (c : Creates b) where
    register-prepared_stmts :
        (p : P) (db : Db P W E)
        → (register b p db).1.prepared_stmts ≡ emplace (b.statement.name p) p db.prepared_stmts
    unfolding register
    register-prepared_stmts p db =
        elim (Option-cases (lookup (b.statement.name p) db.prepared_stmts)) [
          | inl e ↦ rw (e, register) refl
          | inr (q, e) ↦ rw (e, register) (c.destroy_keeps p _)
        ]

    registered-lookup :
        (name other : Text) (made : Option P) (m : List (Text × P)) (db : Db P W E)
        → db.prepared_stmts ≡ m
        → ((p : P) → made ≡ some p → b.statement.name p ≡ name)
        → lookup other (register_if_made b made db).1.prepared_stmts ≡ (elim (lookup other m) [
          | some p ↦ some p
          | none ↦ if text_eq name other then made else none
        ])
    unfolding register_if_made
    registered-lookup name other none m db e n = rw e (ground arith)
    registered-lookup name other (some p) m db e n =
        rw (register-prepared_stmts p db, e, n p refl, lookup-emplace name other p m) refl

    -- If the backend names what it makes and leaves the registry alone, PrepareSTMT registers the statement
    -- it made under its name where that was free, and every statement registered before stays, also under
    -- that name.
    pub do_prepare_stmt-lookup :
        (name query other : Text) (db : Db P W E)
        → lookup other (do_prepare_stmt b name query db).1.prepared_stmts
          ≡ (elim (lookup other db.prepared_stmts) [
            | some p ↦ some p
            | none ↦
                if text_eq name other
                then (b.create_stmt name query (write_log debug (preparing name query) db).1).0
                else none
          ])
    unfolding do_prepare_stmt
    do_prepare_stmt-lookup name query other db =
        let d1 : Db P W E = (write_log debug (preparing name query) db).1 in
        registered-lookup name other (b.create_stmt name query d1).0 db.prepared_stmts _
          (c.create_keeps name query d1 ∙ write_log-prepared_stmts debug (preparing name query) db)
          (c.create_names name query d1)

  -- ExecuteSTMT under the name of a usable statement, whose backend keeps the contract of bindings, runs it
  -- on exactly the rendered arguments; then it holds no binding, and the other names refer to what they
  -- did.
  pub execute_stmt-Binds :
      {Param : Type 0} {bound : P × E → List Param} {render : Value → Param}
      {usable : P × E → Type 0} (b : Backend P W E) (name : Text) (args : List Value) (p : P)
      (db : Db P W E)
      → Binds b.statement bound render usable
      → lookup name db.prepared_stmts ≡ some p
      → usable (p, db.env)
      → let (result, db') = execute_stmt b name args db in
        (t : P × E) × (bound t ≡ map render args)
        × (result ≡ (b.statement.do_execute t).0)
        × ((q : P) × (bound (q, db'.env) ≡ [])
            × ((other : Text)
                → lookup other db'.prepared_stmts
                  ≡ (if text_eq name other then some q else lookup other db.prepared_stmts)))
  unfolding execute_stmt
  execute_stmt-Binds b name args p db c e u =
      let (t, h, r, x, w) = execute-Binds c args (p, db.env) u in
      let p' : P = (execute b.statement args (p, db.env)).1.0 in
      rw (e, execute_stmt)
        (
          t,
          h,
          r,
          (
            p',
            x,
            λ other.
                ground (
                  arith,
                  e,
                  lookup-store name other p' db.prepared_stmts,
                  eq_of_text_eq name other,
                ),
          ),
        )
