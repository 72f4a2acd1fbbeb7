-- ===== src/Sqlite/Statement/Idle.antt =====
-- `Execute` of an SQLite statement gives out and takes back no handle, and keeps its own.
use storm_byte_database.Prelude.{ℕ, suc, ◌≡◌, refl, ◌∙◌, inl, inr, List, [], ◌∷◌, Option-cases}
use storm_byte_database.Value.{Value}
use storm_byte_database.Rows.{Iterable}
use storm_byte_database.Statement.{bind_all, execute}
use storm_byte_database.Sqlite.Client.{finalized, Client, Env}
use storm_byte_database.Sqlite.Client.Counts.{given, taken, prepared, Idle}
use storm_byte_database.Sqlite.Fetch.Idle.{step_results-Idle}
use storm_byte_database.Sqlite.Statement.Binding.{reset-stmt, binder-stmt}
use storm_byte_database.Sqlite.Statement.{
  Stmt, binder_on, binder, reset_on, reset, do_execute, virtuals,
}

module _ (c : Client) (it : Iterable) where
  -- What a method of a statement leaves of its surroundings.
  abbrev pub Leaves : Env → Env → Type 0
  Leaves e e' = Idle c e.calls e'.calls

  Leaves-further : (e d e' : Env) → Leaves e d → Leaves d e' → Leaves e e'
  Leaves-further e d e' (x, y, z, w) (x', y', z', w') = (x' ∙ x, y' ∙ y, z' ∙ z, w' ∙ w)

  reset-Leaves : (p : Stmt) (e : Env) → Leaves e (reset (p, e)).1.1
  unfolding reset reset_on given taken prepared finalized
  reset-Leaves p e = elim (Option-cases p.handle) [
    | inl q ↦ rw (q, reset) (refl, refl, refl, refl)
    | inr (h, q) ↦ rw (q, reset) (refl, refl, refl, refl)
  ]

  binder-Leaves : (i : ℕ) (a : Value) (p : Stmt) (e : Env) → Leaves e (binder i a (p, e)).1.1
  unfolding binder binder_on given taken prepared finalized
  binder-Leaves i a p e = elim (Option-cases p.handle) [
    | inl q ↦ rw (q, binder) (refl, refl, refl, refl)
    | inr (h, q) ↦ rw (q, binder) (refl, refl, refl, refl)
  ]

  bind_all-Leaves :
      (args : List Value) (i : ℕ) (p : Stmt) (e : Env)
      → Leaves e (bind_all (virtuals c it) i args (p, e)).1.1
  unfolding bind_all virtuals
  bind_all-Leaves [] i p e = (refl, refl, refl, refl)
  bind_all-Leaves (a ∷ args) i p e =
      let (p', e') = (binder i a (p, e)).1 in
      Leaves-further e e' (bind_all (virtuals c it) (suc i) args (p', e')).1.1
        (binder-Leaves i a p e) (bind_all-Leaves args (suc i) p' e')

  do_execute-Leaves : (p : Stmt) (e : Env) → Leaves e (do_execute c it (p, e)).1.1
  unfolding do_execute
  do_execute-Leaves p e = step_results-Idle c it p.handle e.calls

  pub execute-Leaves :
      (args : List Value) (p : Stmt) (e : Env) → Leaves e (execute (virtuals c it) args (p, e)).1.1
  unfolding execute virtuals
  execute-Leaves args p e =
      let (p1, e1) = (reset (p, e)).1 in
      let (p2, e2) = (bind_all (virtuals c it) 0 args (p1, e1)).1 in
      let (p3, e3) = (do_execute c it (p2, e2)).1 in
      Leaves-further e e1 (reset (p3, e3)).1.1 (reset-Leaves p e) (
        Leaves-further e1 e2 (reset (p3, e3)).1.1 (bind_all-Leaves args 0 p1 e1) (
          Leaves-further e2 e3 (reset (p3, e3)).1.1 (do_execute-Leaves p2 e2) (reset-Leaves p3 e3)))

  bind_all-stmt :
      (args : List Value) (i : ℕ) (s : Stmt × Env) → (bind_all (virtuals c it) i args s).1.0 ≡ s.0
  unfolding bind_all virtuals
  bind_all-stmt [] i s = refl
  bind_all-stmt (a ∷ args) i s = bind_all-stmt args (suc i) (binder i a s).1 ∙ binder-stmt i a s

  pub execute-stmt :
      (args : List Value) (s : Stmt × Env) → (execute (virtuals c it) args s).1.0 ≡ s.0
  unfolding execute virtuals do_execute
  execute-stmt args s =
      let s1 : Stmt × Env = (reset s).1 in
      let s2 : Stmt × Env = (bind_all (virtuals c it) 0 args s1).1 in
      reset-stmt (do_execute c it s2).1 ∙ bind_all-stmt args 0 s1 ∙ reset-stmt s
