-- ===== src/Session/Ends.antt =====
-- What a server is sent: each BEGIN is answered by one COMMIT or ROLLBACK.
use storm_byte_database.Prelude.{
  one_if, ℕ, ◌+◌, ◌≡◌, refl, ◌∙◌, ap, Bool, true, ◌||◌, none, List, [], ◌∷◌, ◌++◌, arith, ◌==◌,
  Bool-cases, inl, inr, Text, text, text_eq, All,
}
use storm_byte_database.Prelude.Words.{take}
use storm_byte_database.Transaction.{commits, rolls_back}
use storm_byte_database.Transaction.Store.{Event, begins, ends, Step, run, empty_store}
use storm_byte_database.Transaction.Store.Counts.{begun, ended, begun-append, ended-append}
use storm_byte_database.Transaction.Store.Balance.{run_ends_each}
use storm_byte_database.Database.{Db, Backend, IsolationLevel}
use storm_byte_database.Session.{Session, session_run, said, transcript}
use storm_byte_database.Session.Sending.{Sends}
use storm_byte_database.Session.Refine.{session_run-transcript}

-- A text that begins a transaction, and one that ends it.
unfoldable pub is_begin : Text → Bool
is_begin sql = text_eq (take 5 sql) (text "BEGIN")

unfoldable pub is_end : Text → Bool
is_end sql = text_eq sql (text "COMMIT;") || text_eq sql (text "ROLLBACK;")

unfoldable pub count : (Text → Bool) → List Text → ℕ
count f [] = 0
count f (sql ∷ sent) = one_if (f sql) + count f sent

count-append : (f : Text → Bool) (xs ys : List Text) → count f (xs ++ ys) ≡ count f xs + count f ys
unfolding count
count-append f [] ys = omega arith
count-append f (x ∷ xs) ys = omega (arith, count-append f xs ys)

-- What a begin sends begins one transaction and ends none.
abbrev pub OneBegin : (IsolationLevel → List Text) → Type 0
OneBegin begin_sql =
    (level : IsolationLevel)
    → (count is_begin (begin_sql level) ≡ 1) × (count is_end (begin_sql level) ≡ 0)

ends_counted :
    (count is_begin (text "COMMIT;" ∷ []) ≡ 0)
    × (count is_end (text "COMMIT;" ∷ []) ≡ 1)
    × (count is_begin (text "ROLLBACK;" ∷ []) ≡ 0)
    × (count is_end (text "ROLLBACK;" ∷ []) ≡ 1)
unfolding count is_begin is_end text text_eq take
ends_counted = (refl, refl, refl, refl)

module _ (begin_sql : IsolationLevel → List Text) (one : OneBegin begin_sql) (self : ℕ) where
  said_counted :
      (e : Event)
      → (count is_begin (said begin_sql self e) ≡ begun self (e ∷ []))
        × (count is_end (said begin_sql self e) ≡ ended self (e ∷ []))
  unfolding said begun ended count
  said_counted (begins k level) = elim (Bool-cases (k == self)) [
    | inl e ↦ rw e (ground (arith, one level))
    | inr e ↦ rw e (refl, refl)
  ]
  said_counted (ends (commits k)) = ground (arith, ends_counted)
  said_counted (ends (rolls_back k)) = ground (arith, ends_counted)

  transcript_counted :
      (es : List Event) (sent : List Text)
      → let all = transcript begin_sql self es sent in
        (count is_begin all ≡ begun self es + count is_begin sent)
        × (count is_end all ≡ ended self es + count is_end sent)
  unfolding transcript begun ended
  transcript_counted [] sent = (omega arith, omega arith)
  transcript_counted (e ∷ es) sent = ground (
    arith,
    said_counted e,
    transcript_counted es (said begin_sql self e ++ sent),
    count-append is_begin (said begin_sql self e) sent,
    count-append is_end (said begin_sql self e) sent,
    begun-append self (e ∷ []) es,
    ended-append self (e ∷ []) es,
  )

module _ {P W E : Type 0} {reaches : Db P W E → Bool} {sent : E → List Text} {b : Backend P W E}
    {begin_sql : IsolationLevel → List Text} (c : Sends reaches sent b begin_sql)
    (one : OneBegin begin_sql) where
  -- On a backend that keeps the contract of transactions and sends one BEGIN for a begin, a program from
  -- the empty store at whose end no object lives sends a server that it reaches as many BEGINs as COMMITs
  -- and ROLLBACKs together.
  pub session_ends_each :
      (self : ℕ) (ps : List Step) (db : Db P W E)
      → reaches db ≡ true
      → All (λ o. o ≡ none) (run ps empty_store).slots
      → let s = session_run b self ps (record { store = empty_store; db = db }) in
        count is_begin (sent s.db.env) + count is_end (sent db.env)
        ≡ count is_end (sent s.db.env) + count is_begin (sent db.env)
  session_ends_each self ps db on gone =
      let s : Session P W E = session_run b self ps (record { store = empty_store; db = db }) in
      let (same, r, h) =
        session_run-transcript c self ps (record { store = empty_store; db = db }) refl in
      let h' : sent s.db.env ≡ transcript begin_sql self s.store.events (sent db.env) =
        h ∙ rw on refl in
      let (x, y) = transcript_counted begin_sql one self s.store.events (sent db.env) in
      rw h' (
        omega (
          arith,
          x,
          y,
          run_ends_each self ps gone,
          ap (λ t. begun self t.events) same,
          ap (λ t. ended self t.events) same,
        ))
