-- ===== src/Statement/Contract.antt =====
-- What a backend's statement promises of its bindings, and what `Execute` makes of it.
use storm_byte_database.Prelude.{
  ℕ, suc, ◌≡◌, refl, sym, ◌∙◌, ap, List, [], ◌∷◌, ◌++◌, map, length, length-append, append_assoc,
  append-nil, arith,
}
use storm_byte_database.Value.{Value}
use storm_byte_database.Statement.{Virtuals, bind_all, execute}

module _ {P E Param : Type 0} where
  -- `bound` reads the parameters that the statement holds; `usable` is kept by binding and is what it needs.
  pub record Binds (v : Virtuals P E) (bound : P × E → List Param) (render : Value → Param)
      (usable : P × E → Type 0) : Type 0 where
    pub reset_clears : (s : P × E) → usable s → bound (v.reset s).1 ≡ []
    pub reset_usable : (s : P × E) → usable s → usable (v.reset s).1
    pub binder_appends :
        (i : ℕ) (a : Value) (s : P × E)
        → usable s
        → length (bound s) ≡ i
        → bound (v.binder i a s).1 ≡ bound s ++ render a ∷ []
    pub binder_usable : (i : ℕ) (a : Value) (s : P × E) → usable s → usable (v.binder i a s).1
    pub do_execute_usable : (s : P × E) → usable s → usable (v.do_execute s).1

  module _ {v : Virtuals P E} {bound : P × E → List Param} {render : Value → Param}
      {usable : P × E → Type 0} (c : Binds v bound render usable) where
    pub bound-bind_all :
        (i : ℕ) (args : List Value) (s : P × E)
        → usable s
        → length (bound s) ≡ i
        → (bound (bind_all v i args s).1 ≡ bound s ++ map render args)
          × usable (bind_all v i args s).1
    unfolding bind_all
    bound-bind_all i [] s u e = (sym (append-nil (bound s)), u)
    bound-bind_all i (a ∷ args) s u e =
        let s' : P × E = (v.binder i a s).1 in
        let b : bound s' ≡ bound s ++ render a ∷ [] = c.binder_appends i a s u e in
        let (h, u') =
          bound-bind_all (suc i) args s' (c.binder_usable i a s u)
            (ap length b ∙ length-append (bound s) (render a ∷ []) ∙ omega (arith, e)) in
        (
          h
              ∙ ap (λ xs. xs ++ map render args) b
              ∙ append_assoc (bound s) (render a ∷ []) (map render args),
          u',
        )

    -- Execute of a usable statement whose backend keeps the contract of bindings runs DoExecute on exactly
    -- the rendered arguments, in order, answers what it answers, and leaves no binding and a usable
    -- statement.
    pub execute-Binds :
        (args : List Value) (s : P × E)
        → usable s
        → (t : P × E) × (bound t ≡ map render args)
          × ((execute v args s).0 ≡ (v.do_execute t).0)
          × (bound (execute v args s).1 ≡ [])
          × usable (execute v args s).1
    unfolding execute
    execute-Binds args s u =
        let r : P × E = (v.reset s).1 in
        let e : bound r ≡ [] = c.reset_clears s u in
        let (h, w) = bound-bind_all 0 args r (c.reset_usable s u) (ap length e) in
        let t : P × E = (bind_all v 0 args r).1 in
        let x : usable (v.do_execute t).1 = c.do_execute_usable t w in
        (t, h ∙ ap (λ xs. xs ++ map render args) e, refl, c.reset_clears _ x, c.reset_usable _ x)
