-- ===== src/MariaDb/Connection/Transactions.antt =====
-- The transaction calls of a MariaDB object: a begin sets the isolation level first.
use storm_byte_database.Prelude.{
  ◌≡◌, refl, false, Option, none, some, List, [], ◌∷◌, Text, text, text_eq, arith, Action,
}
use storm_byte_database.Prelude.Words.{take}
use storm_byte_database.Rows.{Iterable}
use storm_byte_database.Database.{IsolationLevel}
use storm_byte_database.Session.Sending.{Sent, Sent-append, Sends}
use storm_byte_database.Session.Ends.{OneBegin, is_begin, is_end, count}
use storm_byte_database.MariaDb.Client.{Client}
use storm_byte_database.MariaDb.Members.{MariaDb}
use storm_byte_database.MariaDb.Query.{do_silent_query}
use storm_byte_database.MariaDb.Query.Silent.{reaches, sent, asks_warnings, do_silent_query-Sent}
use storm_byte_database.MariaDb.Connection.{
  SslSupport, isolation_sql, set_isolation, do_begin, backend,
}

abbrev level_texts : Option Text → List Text
level_texts none = []
level_texts (some sql) = sql ∷ []

-- The texts of a begin, newest first.
abbrev pub begins_by : IsolationLevel → List Text
begins_by level = text "BEGIN;" ∷ level_texts (isolation_sql level)

begin_asks : asks_warnings (text "BEGIN;") ≡ false
unfolding text text_eq
begin_asks = refl

commit_asks : asks_warnings (text "COMMIT;") ≡ false
unfolding text text_eq
commit_asks = refl

rollback_asks : asks_warnings (text "ROLLBACK;") ≡ false
unfolding text text_eq
rollback_asks = refl

-- The text that sets a level, if there is one, asks for no warnings.
abbrev AsksNone : Option Text → Type 0
AsksNone none = Unit
AsksNone (some sql) = asks_warnings sql ≡ false

isolation_asks : (level : IsolationLevel) → AsksNone (isolation_sql level)
unfolding isolation_sql text text_eq
isolation_asks IsolationLevel.default = tt
isolation_asks IsolationLevel.read_uncommitted = refl
isolation_asks IsolationLevel.read_committed = refl
isolation_asks IsolationLevel.repeatable_read = refl
isolation_asks IsolationLevel.serializable = refl

module _ (c : Client) (ssl : SslSupport) where
  set_isolation-Sent :
      (o : Option Text) (db : MariaDb)
      → AsksNone o
      → Sent reaches sent (level_texts o) db (set_isolation c ssl o db).1
  unfolding set_isolation
  set_isolation-Sent none db a = (refl, ground arith)
  set_isolation-Sent (some sql) db a = do_silent_query-Sent c sql db a

  do_begin-Sent :
      (level : IsolationLevel) (db : MariaDb)
      → Sent reaches sent (begins_by level) db (do_begin c ssl level db).1
  unfolding do_begin
  do_begin-Sent level db =
      let d : MariaDb = (set_isolation c ssl (isolation_sql level) db).1 in
      Sent-append reaches sent (level_texts (isolation_sql level)) (text "BEGIN;" ∷ []) db d
        (do_silent_query c (text "BEGIN;") d).1
        (set_isolation-Sent (isolation_sql level) db (isolation_asks level))
        (do_silent_query-Sent c (text "BEGIN;") d begin_asks)

  -- The contract of transactions, filled by the backend.
  pub backend-Sends :
      (pre_connect post_connect post_disconnect : Action MariaDb (Unit {0})) (it : Iterable)
      → Sends reaches sent (backend c ssl pre_connect post_connect post_disconnect it) begins_by
  unfolding backend
  backend-Sends pre_connect post_connect post_disconnect it = record {
    reaches_own = λ db db' k o. ground (arith, k, o);
    begin_sends = do_begin-Sent;
    commit_sends = λ db. do_silent_query-Sent c (text "COMMIT;") db commit_asks;
    rollback_sends = λ db. do_silent_query-Sent c (text "ROLLBACK;") db rollback_asks;
  }

pub begins_by-OneBegin : OneBegin begins_by
unfolding isolation_sql count is_begin is_end text text_eq take
begins_by-OneBegin IsolationLevel.default = (refl, refl)
begins_by-OneBegin IsolationLevel.read_uncommitted = (refl, refl)
begins_by-OneBegin IsolationLevel.read_committed = (refl, refl)
begins_by-OneBegin IsolationLevel.repeatable_read = (refl, refl)
begins_by-OneBegin IsolationLevel.serializable = (refl, refl)
