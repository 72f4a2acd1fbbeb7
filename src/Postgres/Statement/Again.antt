-- ===== src/Postgres/Statement/Again.antt =====
-- A statement that is executed again: the string storage keeps the room that it once had.
use storm_byte_database.Prelude.{
  ℕ, suc, ◌+◌, ◌≤◌, ◌≡◌, refl, ◌∙◌, ◌⊎◌, some, List, [], ◌∷◌, map, arith, length, Text,
  length-append,
}
use storm_byte_database.Prelude.Words.{c_string}
use storm_byte_database.Value.{Value}
use storm_byte_database.Rows.{Iterable}
use storm_byte_database.Statement.{bind_all, execute}
use storm_byte_database.Postgres.Client.{Call, executes_prepared, clears, Client}
use storm_byte_database.Postgres.Statement.{
  Stmt, set_param, push_string, bind_string, bind_blob, bind_value, binder, cleared, reset,
  do_execute, virtuals,
}
use storm_byte_database.Postgres.Statement.Binding.{strings_of, string_count, render}
use storm_byte_database.Postgres.Statement.Sending.{do_execute-stmt, execute-sends}

-- The strings fit, `q` has `n` more of them than `p` and no less room.
abbrev Widens : ℕ → Stmt → Stmt → Type 0
Widens n p q =
    (length q.strings ≡ length p.strings + n)
    × (length q.strings ≤ q.capacity)
    × (p.capacity ≤ q.capacity)
    × (q.conn ≡ p.conn)
    × (q.stmt_name ≡ p.stmt_name)

push_string-Widens :
    (s : Text) (p : Stmt) → length p.strings ≤ p.capacity → Widens 1 p (push_string s p)
unfolding push_string
push_string-Widens s p h = ground (arith, length-append p.strings (s ∷ []))

bind_string-Widens :
    (i : ℕ) (s : Text) (p : Stmt) → length p.strings ≤ p.capacity → Widens 1 p (bind_string i s p)
unfolding bind_string set_param
bind_string-Widens i s p h = push_string-Widens s p h

bind_value-Widens :
    (i : ℕ) (a : Value) (p : Stmt)
    → length p.strings ≤ p.capacity
    → Widens (strings_of a) p (bind_value i a p)
unfolding bind_value strings_of set_param bind_blob
bind_value-Widens i Value.null p h = (omega arith, h, omega arith, refl, refl)
bind_value-Widens i (Value.integer z) p h = bind_string-Widens i _ p h
bind_value-Widens i (Value.unsigned_integer z) p h = bind_string-Widens i _ p h
bind_value-Widens i (Value.long_integer z) p h = bind_string-Widens i _ p h
bind_value-Widens i (Value.unsigned_long_integer z) p h = bind_string-Widens i _ p h
bind_value-Widens i (Value.double x) p h = bind_string-Widens i _ p h
bind_value-Widens i (Value.boolean b) p h = bind_string-Widens i _ p h
bind_value-Widens i (Value.text s) p h = bind_string-Widens i _ p h
bind_value-Widens i (Value.blob bytes) p h = (omega arith, h, omega arith, refl, refl)

module _ (c : Client) (it : Iterable) where
  bind_all-Widens :
      (args : List Value) (i : ℕ) (p : Stmt) (calls : List Call)
      → length p.strings ≤ p.capacity
      → (q : Stmt) × ((bind_all (virtuals c it) i args (p, calls)).1 ≡ (q, calls))
        × Widens (string_count args) p q
  unfolding bind_all virtuals binder string_count
  bind_all-Widens [] i p calls h = (p, refl, (omega arith, h, omega arith, refl, refl))
  bind_all-Widens (a ∷ args) i p calls h =
      let (n, f, g, k, m) = bind_value-Widens i a p h in
      let (q, e, (n', f', g', k', m')) = bind_all-Widens args (suc i) (bind_value i a p) calls f in
      (q, e, (omega (arith, n, n'), f', omega (arith, g, g'), k' ∙ k, m' ∙ m))

  -- What an Execute leaves of the statement: room for as many strings as it stored.
  execute-room :
      (args : List Value) (p : Stmt) (calls : List Call)
      → let q = (execute (virtuals c it) args (p, calls)).1.0 in
        (string_count args ≤ q.capacity) × (q.conn ≡ p.conn) × (q.stmt_name ≡ p.stmt_name)
  unfolding execute virtuals reset cleared
  execute-room args p calls =
      let (q, e, (n, f, g, k, m)) = bind_all-Widens args 0 (cleared p) calls (omega arith) in
      let kept : (do_execute c it (q, calls)).1.0 ≡ q = do_execute-stmt c it (q, calls) in
      rw (e, kept) (omega (arith, n, f), k, m)

  sends_named :
      (args : List Value) (p : Stmt) (calls : List Call) (conn : ℕ) (name : Text)
      → p.conn ≡ some conn
      → p.stmt_name ≡ name
      → string_count args ≤ p.capacity
      → let after = (execute (virtuals c it) args (p, calls)).1.1 in
        let sent = executes_prepared conn (c_string name) (map render args) ∷ calls in
        (after ≡ sent) ⊎ ((r : ℕ) × (after ≡ clears r ∷ sent))
  sends_named args p calls conn name e n room = rw⁻¹ n (execute-sends c it args p calls conn e room)

  -- An Execute of a PostgreSQL statement on a connection that follows another Execute and stores no more
  -- strings than that one passes libpq exactly the rendered arguments in order, in one call, after which at
  -- most its result is cleared.
  pub execute_again-sends :
      (first args : List Value) (p : Stmt) (calls : List Call) (conn : ℕ)
      → p.conn ≡ some conn
      → string_count args ≤ string_count first
      → let ran = (execute (virtuals c it) first (p, calls)).1 in
        let after = (execute (virtuals c it) args ran).1.1 in
        let sent = executes_prepared conn (c_string p.stmt_name) (map render args) ∷ ran.1 in
        (after ≡ sent) ⊎ ((r : ℕ) × (after ≡ clears r ∷ sent))
  execute_again-sends first args p calls conn e fewer =
      let ran : Stmt × List Call = (execute (virtuals c it) first (p, calls)).1 in
      let (room, k, m) = execute-room first p calls in
      sends_named args ran.0 ran.1 conn p.stmt_name (k ∙ e) m (omega (arith, room, fewer))
