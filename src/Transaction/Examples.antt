-- ===== src/Transaction/Examples.antt =====
-- Transactions at work.
use storm_byte_database.Prelude.{length, none, All, ◌++◌, ◌≡◌, refl, [], ◌∷◌, List}
use storm_byte_database.Database.{IsolationLevel}
use storm_byte_database.Transaction.{
  transaction, commits, rolls_back, move_assign, move_construct, destroy, commit,
}
use storm_byte_database.Transaction.Store.{
  Step, begin, commits_at, destroys_at, move_assigns, move_constructs, begins, ends, run, step,
  empty_store, assign_objects,
}
use storm_byte_database.Transaction.Store.Counts.{begun, ended, open_count}
use storm_byte_database.Transaction.Store.Balance.{Balanced, run-Balanced}
use storm_byte_database.Transaction.Store.Closing.{leave_scope, scope_ends_each}

-- `t = std::move(u);` rolls `t` back, then `t` commits, and both go.
abbrev session : List Step
session =
    begin 1 IsolationLevel.default
    ∷ begin 2 IsolationLevel.serializable
    ∷ move_assigns 0 1
    ∷ commits_at 0
    ∷ destroys_at 1
    ∷ destroys_at 0
    ∷ []

session_events :
    (run session empty_store).events
    ≡ begins 1 IsolationLevel.default
      ∷ begins 2 IsolationLevel.serializable
      ∷ ends (rolls_back 1)
      ∷ ends (commits 2)
      ∷ []
unfolding run step assign_objects move_assign commit destroy transaction
session_events = refl

run-Balanced_example : Balanced 1 (run session empty_store)
unfolding begun ended open_count
run-Balanced_example = run-Balanced 1 session empty_store refl

-- Two objects still hold open transactions when they go out of scope.
abbrev abandoned : List Step
abandoned =
    begin 1 IsolationLevel.default ∷ begin 2 IsolationLevel.serializable ∷ move_constructs 1 ∷ []

abandoned_events :
    (run (abandoned ++ leave_scope 3) empty_store).events
    ≡ begins 1 IsolationLevel.default
      ∷ begins 2 IsolationLevel.serializable
      ∷ ends (rolls_back 2)
      ∷ ends (rolls_back 1)
      ∷ []
unfolding run step move_construct destroy transaction leave_scope
abandoned_events = refl

scope_ends_each_example :
    let scope = leave_scope (length (run abandoned empty_store).slots) in
    let s = run (abandoned ++ scope) empty_store in
    All (λ o. o ≡ none) s.slots × (begun 2 s.events ≡ ended 2 s.events)
scope_ends_each_example = scope_ends_each 2 abandoned
