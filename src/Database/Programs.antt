-- ===== src/Database/Programs.antt =====
-- Programs that prepare and execute statements by name, and the map from names to queries that they build.
use storm_byte_database.Prelude.{
  ◌≡◌, refl, sym, eq_of_text_eq, ◌∙◌, Bool, true, false, inl, inr, Option, none, some, List, [],
  ◌∷◌, is_some, Text, text_eq, lookup, lookup-store, arith, ap, Option-cases, if◌then◌else◌,
}
use storm_byte_database.Value.{Value}
use storm_byte_database.Statement.{execute}
use storm_byte_database.Statement.Memory.{Remembers, execute-query}
use storm_byte_database.Database.{Db, Backend, debug, write_log, prepare_stmt, execute_stmt}
use storm_byte_database.Database.Registry.{Creates, preparing, do_prepare_stmt-lookup}

pub data Op : Type 0 where
  prepares : Text → Text → Op
  executes : Text → List Value → Op

-- The query that is registered under a name, given what was before.
abbrev pub or_else : Option Text → Option Text → Option Text
or_else (some q) o = some q
or_else none o = o

or_else-none : (o : Option Text) → or_else o none ≡ o
or_else-none none = refl
or_else-none (some q) = refl

or_else_assoc : (o p q : Option Text) → or_else (or_else o p) q ≡ or_else o (or_else p q)
or_else_assoc none p q = refl
or_else_assoc (some x) p q = refl

-- An operation, and whether the backend made a statement for it.
abbrev pub Outcome : Type 0
Outcome = Op × Bool

-- The query that an operation brings under a name, if the backend made a statement for it.
unfoldable pub brings : Text → Op → Bool → Option Text
brings n (prepares name query) made =
    if made then (if text_eq name n then some query else none) else none
brings n (executes name args) made = none

-- The query of the first statement that was made under a name.
unfoldable pub first_made : Text → List Outcome → Option Text
first_made n [] = none
first_made n ((op, made) ∷ os) = or_else (brings n op made) (first_made n os)

module _ {P W E : Type 0} (b : Backend P W E) where
  unfoldable pub run_op : Op → Db P W E → Db P W E
  run_op (prepares name query) db = (prepare_stmt b name query db).1
  run_op (executes name args) db = (execute_stmt b name args db).1

  unfoldable pub run_ops : List Op → Db P W E → Db P W E
  run_ops [] db = db
  run_ops (op ∷ ops) db = run_ops ops (run_op op db)

  -- Whether `CreatePreparedSTMT` made a statement.
  unfoldable pub made : Op → Db P W E → Bool
  made (prepares name query) db =
      is_some (b.create_stmt name query (write_log debug (preparing name query) db).1).0
  made (executes name args) db = false

  unfoldable pub outcomes : List Op → Db P W E → List Outcome
  outcomes [] db = []
  outcomes (op ∷ ops) db = (op, made op db) ∷ outcomes ops (run_op op db)

module _ {P : Type 0} (query_of : P → Text) where
  abbrev pub query_under : Option P → Option Text
  query_under none = none
  query_under (some p) = some (query_of p)

  -- The query under a name.
  abbrev pub registered : {W E : Type 0} → Text → Db P W E → Option Text
  registered n db = query_under (lookup n db.prepared_stmts)

  brought :
      (query : Text) (hit : Bool) (there made : Option P)
      → ((p : P) → made ≡ some p → query_of p ≡ query)
      → query_under (elim there [ some p ↦ some p | none ↦ if hit then made else none ])
        ≡ or_else
            (query_under there)
            (if is_some made then (if hit then some query else none) else none)
  brought query hit (some p) made h = refl
  brought query false none none h = refl
  brought query false none (some q) h = refl
  brought query true none none h = refl
  brought query true none (some q) h = ap some (h q refl)

module _ {P W E : Type 0} where
  -- What a backend promises of the query of a statement.
  pub record Asks (b : Backend P W E) (query_of : P → Text) : Type 0 where
    pub create_asks :
        (name query : Text) (db : Db P W E) (p : P)
        → (b.create_stmt name query db).0 ≡ some p
        → query_of p ≡ query
    pub remembers : Remembers b.statement query_of

  module _ {b : Backend P W E} {query_of : P → Text} (c : Creates b) (a : Asks b query_of) where
    execute_stmt-registered :
        (n name : Text) (args : List Value) (db : Db P W E)
        → registered query_of n (execute_stmt b name args db).1 ≡ registered query_of n db
    unfolding execute_stmt
    execute_stmt-registered n name args db = elim (Option-cases (lookup name db.prepared_stmts)) [
      | inl e ↦ rw (e, execute_stmt) refl
      | inr (p, e) ↦
          let p' : P = (execute b.statement args (p, db.env)).1.0 in
          let same : query_of p' ≡ query_of p = execute-query a.remembers args (p, db.env) in
          rw (e, execute_stmt, lookup-store name n p' db.prepared_stmts)
            (ground (arith, e, same, eq_of_text_eq name n))
    ]

    run_op-registered :
        (n : Text) (op : Op) (db : Db P W E)
        → registered query_of n (run_op b op db)
          ≡ or_else (registered query_of n db) (brings n op (made b op db))
    unfolding run_op prepare_stmt made brings
    run_op-registered n (prepares name query) db =
        let d : Db P W E = (write_log debug (preparing name query) db).1 in
        ap (query_under query_of) (do_prepare_stmt-lookup c name query n db)
        ∙ brought query_of query (text_eq name n) (lookup n db.prepared_stmts)
            (b.create_stmt name query d).0 (a.create_asks name query d)
    run_op-registered n (executes name args) db =
        execute_stmt-registered n name args db ∙ sym (or_else-none _)

    -- On a backend that names what it makes, keeps the query of a statement and leaves the registry alone,
    -- after PrepareSTMT and ExecuteSTMT in any order a name stands for the query that it stood for before,
    -- or else for that of the first statement that was made under it.
    pub run_ops-first :
        (n : Text) (ops : List Op) (db : Db P W E)
        → registered query_of n (run_ops b ops db)
          ≡ or_else (registered query_of n db) (first_made n (outcomes b ops db))
    unfolding run_ops outcomes first_made
    run_ops-first n [] db = sym (or_else-none _)
    run_ops-first n (op ∷ ops) db =
        run_ops-first n ops (run_op b op db)
        ∙ ap (λ o. or_else o (first_made n (outcomes b ops (run_op b op db))))
            (run_op-registered n op db)
        ∙ or_else_assoc (registered query_of n db) (brings n op (made b op db)) _
