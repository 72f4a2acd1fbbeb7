-- ===== src/Database/Handles.antt =====
-- The handles of the statements of a database object: those that the registry holds, and what a backend promises of
-- them.
pub mod Lives
use storm_byte_database.Prelude.{
  ℕ, ◌+◌, ◌≡◌, refl, ap, Bool, true, false, inl, inr, Option, none, some, List, [], ◌∷◌, Text, text,
  arith, ◌==◌, lookup, emplace, store, Bool-cases, Option-cases, if◌then◌else◌,
}
use storm_byte_database.Value.{Value}
use storm_byte_database.Statement.{execute}
use storm_byte_database.Database.{
  Db, Backend, IsolationLevel, Level, low_level, debug, write_log, connect, disconnect, register,
  register_if_made, do_prepare_stmt, prepare_stmt, execute_stmt, begin_transaction,
  commit_transaction, rollback_transaction,
}
use storm_byte_database.Database.Steady.{
  Use, queries, silently, prepares, executes, begins, commits, rolls_back, use_db,
}
use storm_byte_database.Database.Lifecycle.{left}
use storm_byte_database.Database.Lifetime.{Life, connects, disconnects, uses, live, live_all}

module _ {P : Type 0} (weight : P → ℕ) where
  -- The handles that a registry holds.
  abbrev pub held : List (Text × P) → ℕ
  held [] = 0
  held ((name, p) ∷ m) = weight p + held m

  abbrev pub weight_made : Option P → ℕ
  weight_made none = 0
  weight_made (some p) = weight p

  held-emplace_new :
      (name : Text) (p : P) (m : List (Text × P))
      → lookup name m ≡ none
      → held (emplace name p m) ≡ held m + weight p
  unfolding lookup emplace
  held-emplace_new name p [] e = omega arith
  held-emplace_new name p ((other, q) ∷ m) e = ground (arith, e, held-emplace_new name p m)

  held-emplace_taken :
      (name : Text) (p q : P) (m : List (Text × P))
      → lookup name m ≡ some q
      → held (emplace name p m) ≡ held m
  unfolding lookup emplace
  held-emplace_taken name p q [] e = ground (arith, e)
  held-emplace_taken name p q ((other, r) ∷ m) e = ground (arith, e, held-emplace_taken name p q m)

  held-store :
      (name : Text) (p q : P) (m : List (Text × P))
      → lookup name m ≡ some q
      → weight p ≡ weight q
      → held (store name p m) ≡ held m
  unfolding lookup store
  held-store name p q [] e w = refl
  held-store name p q ((other, r) ∷ m) e w = ground (arith, e, w, held-store name p q m)

module _ {P W E : Type 0} (weight : P → ℕ) (given taken : E → ℕ) where
  -- What is given out, and neither taken back nor held by the registry, is as it was.
  abbrev pub Evens : Db P W E → Db P W E → Type 0
  Evens db db' =
      given db'.env + taken db.env + held weight db.prepared_stmts
      ≡ given db.env + taken db'.env + held weight db'.prepared_stmts

  -- What a backend promises of the handles of its statements.
  pub record Handles (b : Backend P W E) : Type 0 where
    pub pre_connects : (db : Db P W E) → Evens db (b.do_pre_connect db).1
    pub joins : (db : Db P W E) → Evens db (b.do_connect db).1
    pub post_connects : (db : Db P W E) → Evens db (b.do_post_connect db).1
    pub pre_disconnects : (db : Db P W E) → Evens db (b.do_pre_disconnect db).1
    pub leaves : (db : Db P W E) → Evens db (b.do_disconnect db).1
    pub post_disconnects : (db : Db P W E) → Evens db (b.do_post_disconnect db).1
    pub creates :
        (name query : Text) (db : Db P W E)
        → let (made, db') = b.create_stmt name query db in
          (db'.prepared_stmts ≡ db.prepared_stmts)
          × (given db'.env + taken db.env ≡ given db.env + taken db'.env + weight_made weight made)
    pub destroys :
        (p : P) (db : Db P W E)
        → let db' = (b.destroy_stmt p db).1 in
          (db'.prepared_stmts ≡ db.prepared_stmts)
          × (given db'.env + taken db.env + weight p ≡ given db.env + taken db'.env)
    pub runs :
        (args : List Value) (p : P) (e : E)
        → let (p', e') = (execute b.statement args (p, e)).1 in
          (weight p' ≡ weight p) × (given e' + taken e ≡ given e + taken e')
    pub starts : (level : IsolationLevel) (db : Db P W E) → Evens db (b.do_begin level db).1
    pub does : (sql : Text) (db : Db P W E) → Evens db (b.do_silent_query sql db).1
    pub asks : (sql : Text) (db : Db P W E) → Evens db (b.query sql db).1
    pub tells : (sql : Text) (db : Db P W E) → Evens db (b.silent_query sql db).1

  pub Evens-again : (db : Db P W E) → Evens db db
  Evens-again db = refl

  pub Evens-further : (db d db' : Db P W E) → Evens db d → Evens d db' → Evens db db'
  Evens-further db d db' x y = omega (arith, x, y)

  pub write_log-Evens :
      (l : Level) (pieces : List Text) (db : Db P W E) → Evens db (write_log l pieces db).1
  unfolding write_log
  write_log-Evens l pieces db = ground arith
