-- ===== src/Statement/Memory.antt =====
-- What a statement keeps while it is bound and executed: the query that it was made for.
use storm_byte_database.Prelude.{ℕ, suc, ◌≡◌, refl, ◌∙◌, Text, List, [], ◌∷◌}
use storm_byte_database.Value.{Value}
use storm_byte_database.Statement.{Virtuals, bind_all, execute}

module _ {P E : Type 0} where
  -- The virtual methods leave what `query_of` reads of a statement alone.
  pub record Remembers (v : Virtuals P E) (query_of : P → Text) : Type 0 where
    pub binder_keeps :
        (i : ℕ) (a : Value) (s : P × E) → query_of (v.binder i a s).1.0 ≡ query_of s.0
    pub reset_keeps : (s : P × E) → query_of (v.reset s).1.0 ≡ query_of s.0
    pub do_execute_keeps : (s : P × E) → query_of (v.do_execute s).1.0 ≡ query_of s.0

  module _ {v : Virtuals P E} {query_of : P → Text} (c : Remembers v query_of) where
    bind_all-query :
        (args : List Value) (i : ℕ) (s : P × E) → query_of (bind_all v i args s).1.0 ≡ query_of s.0
    unfolding bind_all
    bind_all-query [] i s = refl
    bind_all-query (a ∷ args) i s =
        bind_all-query args (suc i) (v.binder i a s).1 ∙ c.binder_keeps i a s

    pub execute-query :
        (args : List Value) (s : P × E) → query_of (execute v args s).1.0 ≡ query_of s.0
    unfolding execute
    execute-query args s =
        c.reset_keeps _
        ∙ c.do_execute_keeps _
        ∙ bind_all-query args 0 (v.reset s).1
        ∙ c.reset_keeps s
