-- ===== src/Session.antt =====
-- lib/public/StormByte/database/transaction.cxx on top of database.cxx: a program over transaction objects
-- whose calls are carried out on the database that they refer to. The database stands at an address;
-- what the program does with other databases leaves it alone.
pub mod Delivery
pub mod Sending
pub mod Refine
pub mod Ends
use storm_byte_database.Prelude.{
  ℕ, Bool, Text, text, List, [], ◌∷◌, ◌++◌, ◌==◌, Action, pure, when, ◌>>=◌, ◌>>◌, if◌then◌else◌,
}
use storm_byte_database.Transaction.{Call, commits, rolls_back}
use storm_byte_database.Transaction.Store.{Event, begins, ends, Store, Step, step}
use storm_byte_database.Database.{
  Db, Backend, IsolationLevel, begin_transaction, commit_transaction, rollback_transaction,
}

-- The objects and what was told so far, with the database.
pub record Session (P W E : Type 0) : Type 0 where
  pub store : Store
  pub db : Db P W E

-- The objects of a store to which nothing was told yet.
abbrev pub silent : Store → Store
silent s = record s { events = [] }

module _ {P W E : Type 0} (b : Backend P W E) (self : ℕ) where
  -- What a call of a transaction object does on the database that it refers to.
  unfoldable pub perform : Event → Action (Db P W E) (Unit {0})
  perform (begins k level) = when (k == self) (begin_transaction b k level >> pure tt)
  perform (ends (commits k)) = when (k == self) (commit_transaction b)
  perform (ends (rolls_back k)) = when (k == self) (rollback_transaction b)

  unfoldable pub perform_all : List Event → Action (Db P W E) (Unit {0})
  perform_all [] = pure tt
  perform_all (e ∷ es) = perform e >> perform_all es

  -- A step of the program, with the calls that it makes.
  unfoldable pub session_step : Step → Session P W E → Session P W E
  session_step p s =
      let made = step p (silent s.store) in
      record {
        store = record made { events = s.store.events ++ made.events };
        db = (perform_all made.events s.db).1;
      }

  unfoldable pub session_run : List Step → Session P W E → Session P W E
  session_run [] s = s
  session_run (p ∷ ps) s = session_run ps (session_step p s)

-- What a database is sent for an event, newest first, where `begin` is what a begin sends.
unfoldable pub said : (IsolationLevel → List Text) → ℕ → Event → List Text
said begin self (begins k level) = if k == self then begin level else []
said begin self (ends (commits k)) = if k == self then text "COMMIT;" ∷ [] else []
said begin self (ends (rolls_back k)) = if k == self then text "ROLLBACK;" ∷ [] else []

-- What it was sent after these events, in their order.
unfoldable pub transcript : (IsolationLevel → List Text) → ℕ → List Event → List Text → List Text
transcript begin self [] sent = sent
transcript begin self (e ∷ es) sent = transcript begin self es (said begin self e ++ sent)
