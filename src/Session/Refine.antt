-- ===== src/Session/Refine.antt =====
-- A session implements the program over transaction objects: its objects are those of the program, and its
-- database is sent the transcript of the events.
use storm_byte_database.Prelude.{◌≡◌, ◌∙◌, ap, ℕ, Bool, Text, List, [], ◌++◌, if◌then◌else◌}
use storm_byte_database.Transaction.Store.{Step, run}
use storm_byte_database.Database.{Db, Backend, IsolationLevel}
use storm_byte_database.Session.{Session, session_run, transcript}
use storm_byte_database.Session.Delivery.{session_run-refines, session_run-performs}
use storm_byte_database.Session.Sending.{Sends, perform_all-transcript}

module _ {P W E : Type 0} {reaches : Db P W E → Bool} {sent : E → List Text} {b : Backend P W E}
    {begin_sql : IsolationLevel → List Text} (c : Sends reaches sent b begin_sql) (self : ℕ) where
  -- On a backend that keeps the contract of transactions, the objects of a session to which nothing was
  -- told yet are those of the program that it runs, and its database is sent the transcript of the events
  -- of that program if it reaches a server, and nothing otherwise.
  pub session_run-transcript :
      (ps : List Step) (s : Session P W E)
      → s.store.events ≡ []
      → let s' = session_run b self ps s in
        (s'.store ≡ run ps s.store)
        × (reaches s'.db ≡ reaches s.db)
        × (sent s'.db.env ≡ (
            if reaches s.db
            then transcript begin_sql self s'.store.events (sent s.db.env)
            else sent s.db.env))
  session_run-transcript ps s none_told =
      let (es, told, at) = session_run-performs b self ps s in
      let same : (session_run b self ps s).store ≡ run ps s.store =
        session_run-refines b self ps s in
      let events : (session_run b self ps s).store.events ≡ es =
        ap (λ t. t.events) same ∙ told ∙ ap (λ fs. fs ++ es) none_told in
      let (r, h) = perform_all-transcript reaches sent c self es s.db in
      (same, ap reaches at ∙ r, rw (at, events) h)
