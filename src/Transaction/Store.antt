-- ===== src/Transaction/Store.antt =====
-- A program over transaction objects. Objects stand in slots; a slot is empty where no object lives.
-- Databases are told apart by their addresses.
pub mod Counts
pub mod Balance
pub mod Closing
use storm_byte_database.Prelude.{
  ℕ, Option, none, some, List, [], ◌∷◌, ◌++◌, map, ◌==◌, get_elem?, set, if◌then◌else◌,
}
use storm_byte_database.Database.{IsolationLevel}
use storm_byte_database.Transaction.{
  Transaction, transaction, Call, move_construct, move_assign, destroy, commit, rollback,
}

-- What databases are told: a BEGIN, or a call of a transaction object.
pub data Event : Type 0 where
  begins : ℕ → IsolationLevel → Event
  ends : Call → Event

pub record Store : Type 0 where
  pub slots : List (Option Transaction)
  pub events : List Event

pub data Step : Type 0 where
  begin : ℕ → IsolationLevel → Step
  commits_at rolls_back_at destroys_at move_constructs : ℕ → Step
  move_assigns : ℕ → ℕ → Step

-- The object of a slot, or null.
abbrev pub object : Option (Option Transaction) → Option Transaction
object none = none
object (some o) = o

-- Sets a slot and appends the calls.
abbrev pub update : ℕ → Option Transaction → List Call → Store → Store
update i o calls s = record s { slots = set s.slots i o; events = s.events ++ map ends calls }

unfoldable pub assign_objects : ℕ → ℕ → Option Transaction → Option Transaction → Store → Store
assign_objects i j (some t) (some u) s =
    let (t', u', calls) = move_assign t u in
    record (update i (some t') calls s) { slots = set (set s.slots i (some t')) j (some u') }
assign_objects i j _ _ s = s

-- A step on an empty slot is no program, and changes nothing. `BeginTransaction` puts its object in a
-- new slot, and so does a move construction.
unfoldable pub step : Step → Store → Store
unfolding assign_objects
step (begin k level) s = record s {
  slots = s.slots ++ some (transaction k) ∷ [];
  events = s.events ++ begins k level ∷ [];
}
step (commits_at i) s = elim (object (get_elem? s.slots i)) [
  | none ↦ s
  | some t ↦ let (t', calls) = commit t in update i (some t') calls s
]
step (rolls_back_at i) s = elim (object (get_elem? s.slots i)) [
  | none ↦ s
  | some t ↦ let (t', calls) = rollback t in update i (some t') calls s
]
step (destroys_at i) s = elim (object (get_elem? s.slots i)) [
  | none ↦ s
  | some t ↦ update i none (destroy t) s
]
step (move_constructs i) s = elim (object (get_elem? s.slots i)) [
  | none ↦ s
  | some t ↦
      let (t', old) = move_construct t in
      record s { slots = set s.slots i (some old) ++ some t' ∷ [] }
]
step (move_assigns i j) s =
    if i == j
    then s
    else assign_objects i j (object (get_elem? s.slots i)) (object (get_elem? s.slots j)) s

unfoldable pub run : List Step → Store → Store
run [] s = s
run (p ∷ ps) s = run ps (step p s)

abbrev pub empty_store : Store
empty_store = record { slots = []; events = [] }
