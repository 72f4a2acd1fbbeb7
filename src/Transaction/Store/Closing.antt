-- ===== src/Transaction/Store/Closing.antt =====
-- When the objects of a program go out of scope, every transaction that it began has ended.
use storm_byte_database.Prelude.{
  ℕ, zero, suc, ◌≡◌, refl, sym, ap, inl, inr, Option, none, some, List, [], ◌∷◌, ◌++◌, length,
  get_elem?, set, All, Option-cases,
}
use storm_byte_database.Transaction.{Transaction}
use storm_byte_database.Transaction.Store.{Store, Step, destroys_at, object, step, run, empty_store}
use storm_byte_database.Transaction.Store.Counts.{begun, ended}
use storm_byte_database.Transaction.Store.Balance.{run_ends_each}

-- The objects of `n` slots are destroyed, the youngest first.
unfoldable pub leave_scope : ℕ → List Step
leave_scope zero = []
leave_scope (suc n) = destroys_at n ∷ leave_scope n

-- A slot is emptied.
abbrev clear : ℕ → List (Option Transaction) → List (Option Transaction)
clear i os = set os i none

clear_empty :
    (i : ℕ) (os : List (Option Transaction)) → object (get_elem? os i) ≡ none → clear i os ≡ os
clear_empty i [] e = refl
clear_empty zero (none ∷ os) e = refl
clear_empty zero (some t ∷ os) e = cc
clear_empty (suc i) (o ∷ os) e = ap (◌∷◌ o) (clear_empty i os e)

destroys-slots : (i : ℕ) (s : Store) → (step (destroys_at i) s).slots ≡ clear i s.slots
unfolding step
destroys-slots i s = elim (Option-cases (object (get_elem? s.slots i))) [
  | inl e ↦ rw (e, step) (sym (clear_empty i s.slots e))
  | inr (t, e) ↦ rw (e, step) refl
]

-- All slots from the `n`-th on are empty.
unfoldable EmptyFrom : ℕ → List (Option Transaction) → Type 0
EmptyFrom n [] = Unit
EmptyFrom zero (o ∷ os) = (o ≡ none) × EmptyFrom zero os
EmptyFrom (suc n) (o ∷ os) = EmptyFrom n os

EmptyFrom-length : (os : List (Option Transaction)) → EmptyFrom (length os) os
unfolding EmptyFrom
EmptyFrom-length [] = tt
EmptyFrom-length (o ∷ os) = EmptyFrom-length os

EmptyFrom-clear :
    (n : ℕ) (os : List (Option Transaction)) → EmptyFrom (suc n) os → EmptyFrom n (clear n os)
unfolding EmptyFrom
EmptyFrom-clear n [] e = tt
EmptyFrom-clear zero (o ∷ os) e = (refl, e)
EmptyFrom-clear (suc n) (o ∷ os) e = EmptyFrom-clear n os e

EmptyFrom-All : (os : List (Option Transaction)) → EmptyFrom 0 os → All (λ o. o ≡ none) os
unfolding EmptyFrom
EmptyFrom-All [] e = tt
EmptyFrom-All (o ∷ os) e = (e.0, EmptyFrom-All os e.1)

leave_scope-clears :
    (n : ℕ) (s : Store) → EmptyFrom n s.slots → All (λ o. o ≡ none) (run (leave_scope n) s).slots
unfolding leave_scope run
leave_scope-clears zero s e = EmptyFrom-All s.slots e
leave_scope-clears (suc n) s e =
    leave_scope-clears n (step (destroys_at n) s)
      (rw (destroys-slots n s) (EmptyFrom-clear n s.slots e))

run-append : (ps qs : List Step) (s : Store) → run (ps ++ qs) s ≡ run qs (run ps s)
unfolding run
run-append [] qs s = refl
run-append (p ∷ ps) qs s = run-append ps qs (step p s)

-- Whatever a program over transaction objects did, once the objects of its slots are destroyed no object
-- lives, and each database was told to commit or roll back as often as to begin.
pub scope_ends_each :
    (k : ℕ) (ps : List Step)
    → let scope = leave_scope (length (run ps empty_store).slots) in
      let s = run (ps ++ scope) empty_store in
      All (λ o. o ≡ none) s.slots × (begun k s.events ≡ ended k s.events)
scope_ends_each k ps =
    let s : Store = run ps empty_store in
    let scope : List Step = leave_scope (length s.slots) in
    let gone : All (λ o. o ≡ none) (run (ps ++ scope) empty_store).slots =
      rw (run-append ps scope empty_store)
        (leave_scope-clears (length s.slots) s (EmptyFrom-length s.slots)) in
    (gone, run_ends_each k (ps ++ scope) gone)
