-- ===== src/Session/Sending.antt =====
-- What a backend promises of the queries that transactions make, and what a database is sent for each call of a
-- transaction object.
use storm_byte_database.Prelude.{
  ℕ, ◌≡◌, refl, ◌∙◌, inl, inr, Bool, List, [], ◌∷◌, ◌++◌, append_assoc, arith, Text, text,
  Bool-cases, if◌then◌else◌,
}
use storm_byte_database.Prelude.Words.{c_string}
use storm_byte_database.Transaction.{commits, rolls_back}
use storm_byte_database.Transaction.Store.{Event, begins, ends}
use storm_byte_database.Database.{
  Db, Backend, IsolationLevel, Level, debug, write_log, begin_transaction, commit_transaction,
  rollback_transaction,
}
use storm_byte_database.Session.{perform, perform_all, said, transcript}

-- The texts that end a transaction hold no zero byte.
pub commit_whole : c_string (text "COMMIT;") ≡ text "COMMIT;"
unfolding text c_string
commit_whole = refl

pub rollback_whole : c_string (text "ROLLBACK;") ≡ text "ROLLBACK;"
unfolding text c_string
rollback_whole = refl

module _ {P W E : Type 0} (reaches : Db P W E → Bool) (sent : E → List Text) where
  -- The database was sent these texts, newest first, if it reaches a server, and nothing otherwise.
  abbrev pub Sent : List Text → Db P W E → Db P W E → Type 0
  Sent new db db' =
      (reaches db' ≡ reaches db)
      × (sent db'.env ≡ (if reaches db then new ++ sent db.env else sent db.env))

  Sent-log :
      (new : List Text) (db d db' : Db P W E)
      → reaches d ≡ reaches db
      → d.env ≡ db.env
      → Sent new d db'
      → Sent new db db'
  Sent-log new db d db' r e (r', h) = (r' ∙ r, h ∙ rw (r, e) refl)

  pub Sent-append :
      (new more : List Text) (db d db' : Db P W E)
      → Sent new db d
      → Sent more d db'
      → Sent (more ++ new) db db'
  Sent-append new more db d db' (r, h) (r', h') =
      (r' ∙ r, ground (arith, append_assoc more new (sent db.env)))

  -- What a backend promises of its queries: which texts they send, and that what is logged is no matter.
  pub record Sends (b : Backend P W E) (begin_sql : IsolationLevel → List Text) : Type 0 where
    pub reaches_own :
        (db db' : Db P W E)
        → db'.connected ≡ db.connected
        → db'.own ≡ db.own
        → reaches db' ≡ reaches db
    pub begin_sends :
        (level : IsolationLevel) (db : Db P W E) → Sent (begin_sql level) db (b.do_begin level db).1
    pub commit_sends :
        (db : Db P W E) → Sent (text "COMMIT;" ∷ []) db (b.do_silent_query (text "COMMIT;") db).1
    pub rollback_sends :
        (db : Db P W E)
        → Sent (text "ROLLBACK;" ∷ []) db (b.do_silent_query (text "ROLLBACK;") db).1

  module _ {b : Backend P W E} {begin_sql : IsolationLevel → List Text} (c : Sends b begin_sql)
      (self : ℕ) where
    logged :
        (l : Level) (pieces : List Text) (db : Db P W E)
        → let d = (write_log l pieces db).1 in (reaches d ≡ reaches db) × (d.env ≡ db.env)
    unfolding write_log
    logged l pieces db = elim (Bool-cases db.has_logger) [
      | inl e ↦ rw (e, write_log) (c.reaches_own _ _ refl refl, refl)
      | inr e ↦ rw (e, write_log) (refl, refl)
    ]

    -- The rest of a call that writes a log line and then does `m`.
    logged_Sent :
        (new : List Text) (l : Level) (pieces : List Text) (db db' : Db P W E)
        → Sent new (write_log l pieces db).1 db'
        → Sent new db db'
    logged_Sent new l pieces db db' h =
        let (r, e) = logged l pieces db in Sent-log new db (write_log l pieces db).1 db' r e h

    begin_transaction-Sent :
        (k : ℕ) (level : IsolationLevel) (db : Db P W E)
        → Sent (begin_sql level) db (begin_transaction b k level db).1
    unfolding begin_transaction
    begin_transaction-Sent k level db =
        logged_Sent (begin_sql level) debug (text "BeginTransaction" ∷ []) db _
          (c.begin_sends level _)

    commit_transaction-Sent :
        (db : Db P W E) → Sent (text "COMMIT;" ∷ []) db (commit_transaction b db).1
    unfolding commit_transaction
    commit_transaction-Sent db =
        logged_Sent (text "COMMIT;" ∷ []) debug (text "CommitTransaction" ∷ []) db _
          (c.commit_sends _)

    rollback_transaction-Sent :
        (db : Db P W E) → Sent (text "ROLLBACK;" ∷ []) db (rollback_transaction b db).1
    unfolding rollback_transaction
    rollback_transaction-Sent db =
        logged_Sent (text "ROLLBACK;" ∷ []) debug (text "RollbackTransaction" ∷ []) db _
          (c.rollback_sends _)

    perform-Sent :
        (e : Event) (db : Db P W E) → Sent (said begin_sql self e) db (perform b self e db).1
    unfolding perform said
    perform-Sent (begins k level) db = ground (arith, begin_transaction-Sent k level db)
    perform-Sent (ends (commits k)) db = ground (arith, commit_transaction-Sent db)
    perform-Sent (ends (rolls_back k)) db = ground (arith, rollback_transaction-Sent db)

    pub perform_all-transcript :
        (es : List Event) (db : Db P W E)
        → let db' = (perform_all b self es db).1 in
          (reaches db' ≡ reaches db)
          × (sent db'.env
              ≡ (if reaches db then transcript begin_sql self es (sent db.env) else sent db.env))
    unfolding perform_all transcript
    perform_all-transcript [] db = (refl, ground arith)
    perform_all-transcript (e ∷ es) db =
        ground (arith, perform-Sent e db, perform_all-transcript es (perform b self e db).1)
