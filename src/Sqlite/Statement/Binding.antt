-- ===== src/Sqlite/Statement/Binding.antt =====
-- What the client library holds for a statement, read off the calls, and the contract of `Binder`.
use storm_byte_database.Prelude.{
  ℕ, ◌+◌, ◌≡◌, refl, inl, inr, Option-cases, ap, ◌==◌, Option, none, some, List, [], ◌∷◌, ◌++◌,
  arith, length, if◌then◌else◌,
}
use storm_byte_database.Value.{Value}
use storm_byte_database.Rows.{Iterable}
use storm_byte_database.Statement.Contract.{Binds}
use storm_byte_database.Statement.Memory.{Remembers}
use storm_byte_database.Sqlite.Client.{Param, Call, clears_bindings, resets, binds, Client, Env}
use storm_byte_database.Sqlite.Statement.{
  Stmt, render, binder_on, binder, reset_on, reset, do_execute, virtuals,
}

-- A parameter is bound behind those before it if its column is the next one, counted from 1.
abbrev pub place : ℕ → Param → List Param → List Param
place col x before = if col == length before + 1 then before ++ x ∷ [] else before

-- The parameters bound to statement `h` in columns 1, 2, … since its bindings were cleared.
pub bound_to : ℕ → List Call → List Param
bound_to h [] = []
bound_to h (binds j col x ∷ calls) =
    let before = bound_to h calls in if j == h then place col x before else before
bound_to h (clears_bindings j ∷ calls) =
    let before = bound_to h calls in if j == h then [] else before
bound_to h (_ ∷ calls) = bound_to h calls

pub bound_by : Option ℕ → List Call → List Param
bound_by none calls = []
bound_by (some h) calls = bound_to h calls

abbrev pub bound : Stmt × Env → List Param
bound (p, e) = bound_by p.handle e.calls

-- The statement was prepared.
abbrev pub IsPrepared : Stmt × Env → Type 0
IsPrepared (p, e) = (h : ℕ) × (p.handle ≡ some h)

reset_prepared :
    (p : Stmt) (e : Env) (h : ℕ)
    → p.handle ≡ some h
    → reset (p, e) ≡ (tt, (p, record e { calls = resets h ∷ clears_bindings h ∷ e.calls }))
unfolding reset
reset_prepared p e h q = ap (λ o. reset_on o (p, e)) q

reset-bound : (s : Stmt × Env) → IsPrepared s → bound (reset s).1 ≡ []
unfolding bound_by bound_to
reset-bound (p, e) (h, q) = rw (reset_prepared p e h q, q) (ground arith)

reset-IsPrepared : (s : Stmt × Env) → IsPrepared s → IsPrepared (reset s).1
reset-IsPrepared (p, e) (h, q) = rw (reset_prepared p e h q) (h, q)

binder_prepared :
    (i : ℕ) (a : Value) (p : Stmt) (e : Env) (h : ℕ)
    → p.handle ≡ some h
    → binder i a (p, e) ≡ (tt, (p, record e { calls = binds h (i + 1) (render a) ∷ e.calls }))
unfolding binder
binder_prepared i a p e h q = ap (λ o. binder_on o i a (p, e)) q

binder-bound :
    (i : ℕ) (a : Value) (s : Stmt × Env)
    → IsPrepared s
    → length (bound s) ≡ i
    → bound (binder i a s).1 ≡ bound s ++ render a ∷ []
unfolding bound_by bound_to
binder-bound i a (p, e) (h, q) n =
    let before : length (bound_to h e.calls) ≡ i = rw q at n in
    rw (binder_prepared i a p e h q, q) (ground (arith, before))

binder-IsPrepared :
    (i : ℕ) (a : Value) (s : Stmt × Env) → IsPrepared s → IsPrepared (binder i a s).1
binder-IsPrepared i a (p, e) (h, q) = rw (binder_prepared i a p e h q) (h, q)

pub reset-stmt : (s : Stmt × Env) → (reset s).1.0 ≡ s.0
unfolding reset reset_on
reset-stmt (p, e) = elim (Option-cases p.handle) [
  | inl q ↦ rw (q, reset) refl
  | inr (h, q) ↦ rw (q, reset) refl
]

pub binder-stmt : (i : ℕ) (a : Value) (s : Stmt × Env) → (binder i a s).1.0 ≡ s.0
unfolding binder binder_on
binder-stmt i a (p, e) = elim (Option-cases p.handle) [
  | inl q ↦ rw (q, binder) refl
  | inr (h, q) ↦ rw (q, binder) refl
]

module _ (c : Client) (it : Iterable) where
  -- The bindings of a prepared statement: `Reset` clears them, and binding in order adds the rendered value.
  pub virtuals-Binds : Binds (virtuals c it) bound render IsPrepared
  unfolding virtuals do_execute
  virtuals-Binds = record {
    reset_clears = reset-bound;
    reset_usable = reset-IsPrepared;
    binder_appends = binder-bound;
    binder_usable = binder-IsPrepared;
    do_execute_usable = λ s u. u;
  }

  -- A statement keeps its query while it is bound, reset and executed.
  pub virtuals-Remembers : Remembers (virtuals c it) (λ p. p.query)
  unfolding virtuals do_execute
  virtuals-Remembers = record {
    binder_keeps = λ i a s. ap (λ (p : Stmt). p.query) (binder-stmt i a s);
    reset_keeps = λ s. ap (λ (p : Stmt). p.query) (reset-stmt s);
    do_execute_keeps = λ s. refl;
  }
