-- ===== src/Postgres/Statement/Sending.antt =====
-- `Execute` of a PostgreSQL statement: what reaches libpq.
use storm_byte_database.Prelude.{
  ℕ, suc, ◌≤◌, ◌≡◌, refl, sym, ◌∙◌, ap, Text, true, ◌⊎◌, inl, inr, Option, none, some, List, [],
  ◌∷◌, ◌++◌, map, arith, length, append_assoc, append-nil, leb, Bool-cases, Option-cases,
}
use storm_byte_database.Prelude.Words.{c_string}
use storm_byte_database.Value.{Value}
use storm_byte_database.Statement.{bind_all, execute}
use storm_byte_database.Statement.Memory.{Remembers}
use storm_byte_database.Rows.{Iterable}
use storm_byte_database.Postgres.Client.{Param, dangling, Call, executes_prepared, clears, Client}
use storm_byte_database.Postgres.Statement.{
  Stmt, create, set_param, push_string, back, bind_string, bind_blob, bind_value, binder, cleared,
  reset, seen, seen_all, params, finish, do_execute_on, do_execute, virtuals,
}
use storm_byte_database.Postgres.Statement.Binding.{
  IsBuilt, HasRoom, string_count, render, bind_value-Adds,
}

module _ (c : Client) (it : Iterable) where
  -- The members that binding leaves alone.
  binder-conn :
      (i : ℕ) (a : Value) (p : Stmt)
      → ((bind_value i a p).conn ≡ p.conn) × ((bind_value i a p).stmt_name ≡ p.stmt_name)
  unfolding bind_value bind_string push_string set_param
  binder-conn i a p = ground arith

  bind_all-renders :
      (args : List Value) (i : ℕ) (p : Stmt) (calls : List Call)
      → IsBuilt i p
      → HasRoom (string_count args) p
      → (q : Stmt) × ((bind_all (virtuals c it) i args (p, calls)).1 ≡ (q, calls))
        × (params q ≡ params p ++ map render args)
        × (q.conn ≡ p.conn)
        × (q.stmt_name ≡ p.stmt_name)
  unfolding bind_all virtuals binder string_count
  bind_all-renders [] i p calls b r = (p, refl, sym (append-nil (params p)), refl, refl)
  bind_all-renders (a ∷ args) i p calls b r =
      let p' : Stmt = bind_value i a p in
      let (e, b', r') = bind_value-Adds i (string_count args) a p b r in
      let (q, s, h, k, n) = bind_all-renders args (suc i) p' calls b' r' in
      (
        q,
        s,
        h
            ∙ ap (λ xs. xs ++ map render args) e
            ∙ append_assoc (params p) (render a ∷ []) (map render args),
        k ∙ (binder-conn i a p).0,
        n ∙ (binder-conn i a p).1,
      )

  finish-calls :
      (conn : ℕ) (res : Option ℕ) (calls : List Call)
      → ((finish c it conn res calls).1 ≡ calls)
        ⊎ ((r : ℕ) × ((finish c it conn res calls).1 ≡ clears r ∷ calls))
  unfolding finish
  finish-calls conn none calls = inl refl
  finish-calls conn (some res) calls = elim (Bool-cases (c.result_ok res)) [
    | inl e ↦ rw (e, finish) (inr (res, refl))
    | inr e ↦ rw (e, finish) (inr (res, refl))
  ]

  do_execute-calls :
      (conn : ℕ) (name : Text) (p : Stmt) (calls : List Call) (xs : List Param)
      → p.conn ≡ some conn
      → p.stmt_name ≡ name
      → params p ≡ xs
      → let sent = executes_prepared conn (c_string name) xs ∷ calls in
        ((do_execute c it (p, calls)).1.1 ≡ sent)
        ⊎ ((r : ℕ) × ((do_execute c it (p, calls)).1.1 ≡ clears r ∷ sent))
  unfolding do_execute do_execute_on
  do_execute-calls conn name p calls xs e n h = rw (e, do_execute_on, h, n) (finish-calls conn _ _)

  binder-query : (i : ℕ) (a : Value) (p : Stmt) → (bind_value i a p).query ≡ p.query
  unfolding bind_value bind_string push_string set_param bind_blob
  binder-query i a p = ground arith

  pub do_execute-stmt : (s : Stmt × List Call) → (do_execute c it s).1.0 ≡ s.0
  unfolding do_execute do_execute_on
  do_execute-stmt (p, calls) = elim (Option-cases p.conn) [
    | inl e ↦ rw (e, do_execute_on) refl
    | inr (h, e) ↦ rw (e, do_execute_on) refl
  ]

  -- A statement keeps its query while it is bound, reset and executed.
  pub virtuals-Remembers : Remembers (virtuals c it) (λ p. p.query)
  unfolding virtuals binder reset cleared
  virtuals-Remembers = record {
    binder_keeps = λ i a s. binder-query i a s.0;
    reset_keeps = λ s. refl;
    do_execute_keeps = λ s. ap (λ (p : Stmt). p.query) (do_execute-stmt s);
  }

  -- Execute of a PostgreSQL statement on a connection, with room in its string storage for those arguments
  -- that are sent as text, passes libpq exactly the rendered arguments in order, in one call, after which
  -- at most its result is cleared.
  pub execute-sends :
      (args : List Value) (p : Stmt) (calls : List Call) (conn : ℕ)
      → p.conn ≡ some conn
      → string_count args ≤ p.capacity
      → let after = (execute (virtuals c it) args (p, calls)).1.1 in
        let sent = executes_prepared conn (c_string p.stmt_name) (map render args) ∷ calls in
        (after ≡ sent) ⊎ ((r : ℕ) × (after ≡ clears r ∷ sent))
  unfolding execute virtuals reset cleared params seen_all
  execute-sends args p calls conn e room =
      let (q, s, h, k, n) =
        bind_all-renders args 0 (cleared p) calls (refl, refl, refl, tt) (omega (arith, room)) in
      rw s (do_execute-calls conn p.stmt_name q calls (map render args) (k ∙ e) n h)

-- On a new PostgreSQL statement, binding a second text after a text of at most 15 characters leaves the
-- first parameter pointing to storage that is gone.
pub second_text_dangles :
    (name query s t : Text)
    → length s ≤ 15
    → params (bind_value 1 (Value.text t) (bind_value 0 (Value.text s) (create name query)))
      ≡ dangling ∷ Param.text (c_string t) ∷ []
unfolding params seen_all seen bind_value bind_string push_string back set_param create
second_text_dangles name query s t h =
    let k : leb (length s) 15 ≡ true = ground (arith, h) in
    elim (Bool-cases (leb (length t) 15)) [ inl m ↦ rw (k, m) refl | inr m ↦ rw (k, m) refl ]
