-- ===== src/Session/Delivery.antt =====
-- A session against the program that it runs: what the database is sent is the transcript of the events.
use storm_byte_database.Prelude.{
  ℕ, ◌≡◌, refl, sym, ap, ◌∙◌, inl, inr, Option, none, some, List, [], ◌∷◌, ◌++◌, append-nil,
  append_assoc, ◌==◌, get_elem?, Option-cases, Bool-cases,
}
use storm_byte_database.Transaction.{Transaction}
use storm_byte_database.Transaction.Store.{
  Event, Store, Step, begin, commits_at, rolls_back_at, destroys_at, move_constructs, move_assigns,
  object, assign_objects, step, run,
}
use storm_byte_database.Database.{Db, Backend}
use storm_byte_database.Session.{Session, silent, perform, perform_all, session_step, session_run}

-- A store after more events.
abbrev heard : List Event → Store → Store
heard es s = record s { events = es ++ s.events }

nothing_heard :
    (os : List (Option Transaction)) (s : Store)
    → record s { slots = os } ≡ record s { slots = os; events = s.events ++ [] }
nothing_heard os s = ap (λ es. record s { slots = os; events = es }) (sym (append-nil s.events))

assign_objects-heard :
    (i j : ℕ) (o p : Option Transaction) (s : Store)
    → assign_objects i j o p s ≡ heard s.events (assign_objects i j o p (silent s))
unfolding assign_objects
assign_objects-heard i j none p s = nothing_heard _ s
assign_objects-heard i j (some t) none s = nothing_heard _ s
assign_objects-heard i j (some t) (some u) s = refl

step-heard : (p : Step) (s : Store) → step p s ≡ heard s.events (step p (silent s))
unfolding step
step-heard (begin k level) s = refl
step-heard (commits_at i) s = elim (Option-cases (object (get_elem? s.slots i))) [
  | inl e ↦ rw (e, step) (nothing_heard _ s)
  | inr (t, e) ↦ rw (e, step) refl
]
step-heard (rolls_back_at i) s = elim (Option-cases (object (get_elem? s.slots i))) [
  | inl e ↦ rw (e, step) (nothing_heard _ s)
  | inr (t, e) ↦ rw (e, step) refl
]
step-heard (destroys_at i) s = elim (Option-cases (object (get_elem? s.slots i))) [
  | inl e ↦ rw (e, step) (nothing_heard _ s)
  | inr (t, e) ↦ rw (e, step) refl
]
step-heard (move_constructs i) s = elim (Option-cases (object (get_elem? s.slots i))) [
  | inl e ↦ rw (e, step) (nothing_heard _ s)
  | inr (t, e) ↦ rw (e, step) (nothing_heard _ s)
]
step-heard (move_assigns i j) s = elim (Bool-cases (i == j)) [
  | inl e ↦ rw (e, step) (nothing_heard _ s)
  | inr e ↦ rw (e, step) (assign_objects-heard i j _ _ s)
]

module _ {P W E : Type 0} (b : Backend P W E) (self : ℕ) where
  pub session_run-refines :
      (ps : List Step) (s : Session P W E) → (session_run b self ps s).store ≡ run ps s.store
  unfolding session_run session_step run
  session_run-refines [] s = refl
  session_run-refines (p ∷ ps) s =
      session_run-refines ps (session_step b self p s) ∙ ap (run ps) (sym (step-heard p s.store))

  perform_all-append :
      (es fs : List Event) (db : Db P W E)
      → (perform_all b self (es ++ fs) db).1
        ≡ (perform_all b self fs (perform_all b self es db).1).1
  unfolding perform_all
  perform_all-append [] fs db = refl
  perform_all-append (e ∷ es) fs db = perform_all-append es fs (perform b self e db).1

  -- The database is where the events of the program take it.
  pub session_run-performs :
      (ps : List Step) (s : Session P W E)
      → (es : List Event) × ((run ps s.store).events ≡ s.store.events ++ es)
        × ((session_run b self ps s).db ≡ (perform_all b self es s.db).1)
  unfolding session_run session_step run perform_all
  session_run-performs [] s = ([], sym (append-nil s.store.events), refl)
  session_run-performs (p ∷ ps) s =
      let made : List Event = (step p (silent s.store)).events in
      let (es, told, at) = session_run-performs ps (session_step b self p s) in
      (
        made ++ es,
        ap (λ t. (run ps t).events) (step-heard p s.store)
            ∙ told
            ∙ append_assoc s.store.events made es,
        at ∙ sym (perform_all-append made es s.db),
      )
