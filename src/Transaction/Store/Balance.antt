-- ===== src/Transaction/Store/Balance.antt =====
-- Every transaction that is begun is ended once: by `Commit`, by `Rollback`, or when its object goes.
use storm_byte_database.Prelude.{
  ℕ, ◌+◌, ◌≡◌, refl, ◌∙◌, inl, inr, ◌≢◌, Option, none, some, List, [], ◌∷◌, ◌++◌, map, ◌==◌, arith,
  get_elem?, set, Option-cases, Bool-cases, All,
}
use storm_byte_database.Database.{IsolationLevel}
use storm_byte_database.Transaction.{
  Transaction, transaction, Call, move_construct, move_assign, destroy, commit, rollback,
}
use storm_byte_database.Transaction.Store.{
  begins, ends, Store, Step, begin, commits_at, rolls_back_at, destroys_at, move_constructs,
  move_assigns, object, update, assign_objects, step, run, empty_store,
}
use storm_byte_database.Transaction.Store.Counts.{
  begun, ended, is_open, open_count, begun-append, ended-append, begun-ends, open_count-append,
  open_count-set, object-set_ne,
}

-- What is begun is ended or still open.
abbrev pub Balanced : ℕ → Store → Type 0
Balanced k s = begun k s.events ≡ ended k s.events + open_count k s.slots

-- An object is replaced and makes its calls: the calls end as many transactions as the object closes.
update-Balanced :
    (k i : ℕ) (t : Transaction) (o : Option Transaction) (calls : List Call) (s : Store)
    → object (get_elem? s.slots i) ≡ some t
    → ended k (map ends calls) + is_open k o ≡ is_open k (some t)
    → Balanced k s
    → Balanced k (update i o calls s)
update-Balanced k i t o calls s h e b = omega (
  arith,
  begun-append k s.events (map ends calls),
  ended-append k s.events (map ends calls),
  begun-ends k calls,
  open_count-set k i s.slots o t h,
)

commit_closes :
    (k : ℕ) (t : Transaction)
    → let (t', calls) = commit t in
      ended k (map ends calls) + is_open k (some t') ≡ is_open k (some t)
unfolding commit ended
commit_closes k t = ground arith

rollback_closes :
    (k : ℕ) (t : Transaction)
    → let (t', calls) = rollback t in
      ended k (map ends calls) + is_open k (some t') ≡ is_open k (some t)
unfolding rollback ended
rollback_closes k t = ground arith

destroy_closes : (k : ℕ) (t : Transaction) → ended k (map ends (destroy t)) + 0 ≡ is_open k (some t)
unfolding destroy ended
destroy_closes k t = ground arith

move_construct-Balanced :
    (k i : ℕ) (t : Transaction) (s : Store)
    → object (get_elem? s.slots i) ≡ some t
    → Balanced k s
    → let (t', old) = move_construct t in
      Balanced k (record s { slots = set s.slots i (some old) ++ some t' ∷ [] })
unfolding move_construct
move_construct-Balanced k i t s h b = omega (
  arith,
  open_count-append k (set s.slots i (some (move_construct t).1)) (some (move_construct t).0),
  open_count-set k i s.slots (some (move_construct t).1) t h,
)

assign_calls :
    (k : ℕ) (t u : Transaction)
    → let (t', u', calls) = move_assign t u in
      ended k (map ends calls) + is_open k (some t') + is_open k (some u')
      ≡ is_open k (some t) + is_open k (some u)
unfolding move_assign ended
assign_calls k t u = ground arith

assign_objects-Balanced :
    (k i j : ℕ) (o p : Option Transaction) (s : Store)
    → i ≢ j
    → object (get_elem? s.slots i) ≡ o
    → object (get_elem? s.slots j) ≡ p
    → Balanced k s
    → Balanced k (assign_objects i j o p s)
unfolding assign_objects
assign_objects-Balanced k i j none p s ne hi hj b = b
assign_objects-Balanced k i j (some t) none s ne hi hj b = b
assign_objects-Balanced k i j (some t) (some u) s ne hi hj b =
    let (t', u', calls) = move_assign t u in
    omega (
      arith,
      begun-append k s.events (map ends calls),
      ended-append k s.events (map ends calls),
      begun-ends k calls,
      assign_calls k t u,
      open_count-set k i s.slots (some t') t hi,
      open_count-set k j (set s.slots i (some t')) (some u') u
          (object-set_ne i j s.slots (some t') ne ∙ hj),
    )

began_one :
    (k j : ℕ) (level : IsolationLevel)
    → (begun k (begins j level ∷ []) ≡ is_open k (some (transaction j)))
      × (ended k (begins j level ∷ []) ≡ 0)
unfolding begun ended transaction
began_one k j level = (omega arith, refl)

empty_Balanced : (k : ℕ) → Balanced k empty_store
unfolding begun ended open_count
empty_Balanced k = refl

step-Balanced : (k : ℕ) (p : Step) (s : Store) → Balanced k s → Balanced k (step p s)
unfolding step
step-Balanced k (begin j level) s b = omega (
  arith,
  begun-append k s.events (begins j level ∷ []),
  ended-append k s.events (begins j level ∷ []),
  open_count-append k s.slots (some (transaction j)),
  began_one k j level,
)
step-Balanced k (commits_at i) s b = elim (Option-cases (object (get_elem? s.slots i))) [
  | inl e ↦ rw (e, step) b
  | inr (t, e) ↦ rw (e, step) (update-Balanced k i t _ _ s e (commit_closes k t) b)
]
step-Balanced k (rolls_back_at i) s b = elim (Option-cases (object (get_elem? s.slots i))) [
  | inl e ↦ rw (e, step) b
  | inr (t, e) ↦ rw (e, step) (update-Balanced k i t _ _ s e (rollback_closes k t) b)
]
step-Balanced k (destroys_at i) s b = elim (Option-cases (object (get_elem? s.slots i))) [
  | inl e ↦ rw (e, step) b
  | inr (t, e) ↦ rw (e, step) (update-Balanced k i t none _ s e (destroy_closes k t) b)
]
step-Balanced k (move_constructs i) s b = elim (Option-cases (object (get_elem? s.slots i))) [
  | inl e ↦ rw (e, step) b
  | inr (t, e) ↦ rw (e, step) (move_construct-Balanced k i t s e b)
]
step-Balanced k (move_assigns i j) s b = elim (Bool-cases (i == j)) [
  | inl e ↦ rw (e, step) b
  | inr e ↦ rw (e, step) (assign_objects-Balanced k i j _ _ s (ground arith) refl refl b)
]

-- Every program over transaction objects, from a store where each database was told to begin as many
-- transactions as it was told to end and active objects still hold, leads to such a store.
pub run-Balanced : (k : ℕ) (ps : List Step) (s : Store) → Balanced k s → Balanced k (run ps s)
unfolding run
run-Balanced k [] s b = b
run-Balanced k (p ∷ ps) s b = run-Balanced k ps (step p s) (step-Balanced k p s b)

none_open : (k : ℕ) (os : List (Option Transaction)) → All (λ o. o ≡ none) os → open_count k os ≡ 0
unfolding open_count
none_open k [] h = refl
none_open k (o ∷ os) h = ground (arith, none_open k os h.1)

-- A program from the empty store at whose end no object lives has told each database to commit or roll back
-- as often as to begin.
pub run_ends_each :
    (k : ℕ) (ps : List Step)
    → All (λ o. o ≡ none) (run ps empty_store).slots
    → begun k (run ps empty_store).events ≡ ended k (run ps empty_store).events
run_ends_each k ps h = omega (
  arith,
  run-Balanced k ps empty_store (empty_Balanced k),
  none_open k (run ps empty_store).slots h,
)
