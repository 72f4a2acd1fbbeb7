-- ===== src/Postgres/Connection/Results.antt =====
-- `Query` and `DoSilentQuery` of PostgreSQL against each other.
use storm_byte_database.Prelude.{
  ℕ, ◌≡◌, refl, sym, ap, Text, text, Bool, inl, inr, Option, none, some, List, [], ◌∷◌, arith,
  Bool-cases,
}
use storm_byte_database.Prelude.Words.{c_string}
use storm_byte_database.Exception.{is_ok}
use storm_byte_database.Rows.{Iterable, ExpectedRows}
use storm_byte_database.Database.{debug, write_log}
use storm_byte_database.Postgres.Client.{executes, clears, Client}
use storm_byte_database.Postgres.Fetch.Tuples.{step_results-is_ok}
use storm_byte_database.Postgres.Members.{Postgres, call}
use storm_byte_database.Postgres.Query.{
  usable, query_result, query_on, query, silent_result, silent_on, do_silent_query,
}

-- The same answer as far as success goes, and the same calls.
abbrev Agree : Bool × Postgres → ExpectedRows × Postgres → Type 0
Agree (b, d) (r, e) = (b ≡ is_ok r) × (d.env ≡ e.env)

module _ (c : Client) (it : Iterable) where
  result-Agree :
      (conn : ℕ) (o : Option ℕ) (d e : Postgres)
      → d.env ≡ e.env
      → Agree (silent_result c conn o d) (query_result c it conn o e)
  unfolding silent_result query_result write_log
  result-Agree conn none d e h = (refl, h)
  result-Agree conn (some res) d e h = elim (Bool-cases (c.result_ok res)) [
    | inl g ↦ rw g (sym (step_results-is_ok c it res g), ap (λ calls. clears res ∷ calls) h)
    | inr g ↦ rw g (ground (arith, h))
  ]

  on-Agree :
      (o : Option ℕ) (sql : Text) (d e : Postgres)
      → d.env ≡ e.env
      → Agree (silent_on c o sql d) (query_on c it o sql e)
  unfolding silent_on query_on
  on-Agree none sql d e h = (refl, h)
  on-Agree (some conn) sql d e h = rw (ap (λ calls. c.exec calls conn (c_string sql)) h) (
      result-Agree conn (c.exec e.env conn (c_string sql)) (call (executes conn (c_string sql)) d).1
        (call (executes conn (c_string sql)) e).1
        (ap (λ calls. executes conn (c_string sql) ∷ calls) h))

  logs_match :
      (xs ys : List Text) (db : Postgres)
      → let d = (write_log debug xs db).1 in
        let e = (write_log debug ys db).1 in (usable c d ≡ usable c e) × (d.env ≡ e.env)
  unfolding write_log
  logs_match xs ys db = ground arith

  -- DoSilentQuery of a PostgreSQL object makes the same calls to libpq as Query, and succeeds exactly if
  -- Query gives rows.
  pub do_silent_query-query :
      (sql : Text) (db : Postgres)
      → ((do_silent_query c sql db).0 ≡ is_ok (query c it sql db).0)
        × ((do_silent_query c sql db).1.env ≡ (query c it sql db).1.env)
  unfolding do_silent_query query
  do_silent_query-query sql db =
      let d : Postgres = (write_log debug (text "Executing silent query: " ∷ sql ∷ []) db).1 in
      let e : Postgres = (write_log debug (text "Executing query: " ∷ sql ∷ []) db).1 in
      let (u, h) =
        logs_match (text "Executing silent query: " ∷ sql ∷ [])
          (text "Executing query: " ∷ sql ∷ []) db in
      rw u (on-Agree (usable c e) sql d e h)
