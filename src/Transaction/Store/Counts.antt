-- ===== src/Transaction/Store/Counts.antt =====
-- How often a database was told to begin and to end, and how many transactions are open.
use storm_byte_database.Prelude.{
  one_if, ℕ, zero, suc, ◌+◌, ◌≡◌, refl, ap, ◌≢◌, Option, none, some, List, [], ◌∷◌, ◌++◌, map, ◌==◌,
  arith, get_elem?, set, if◌then◌else◌,
}
use storm_byte_database.Transaction.{Transaction, Call, commits, rolls_back}
use storm_byte_database.Transaction.Store.{Event, begins, ends, object}

-- How often the database at `k` was told to begin, and to commit or roll back.
unfoldable pub begun : ℕ → List Event → ℕ
begun k [] = 0
begun k (begins j level ∷ es) = one_if (j == k) + begun k es
begun k (ends c ∷ es) = begun k es

abbrev pub target : Call → ℕ
target (commits j) = j
target (rolls_back j) = j

unfoldable pub ended : ℕ → List Event → ℕ
ended k [] = 0
ended k (begins j level ∷ es) = ended k es
ended k (ends c ∷ es) = one_if (target c == k) + ended k es

-- The open transactions on the database at `k`: active objects that refer to it.
abbrev pub is_open : ℕ → Option Transaction → ℕ
is_open k none = 0
is_open k (some t) = if t.active then (elim t.db [ none ↦ 0 | some j ↦ one_if (j == k) ]) else 0

unfoldable pub open_count : ℕ → List (Option Transaction) → ℕ
open_count k [] = 0
open_count k (o ∷ os) = is_open k o + open_count k os

pub begun-append : (k : ℕ) (es fs : List Event) → begun k (es ++ fs) ≡ begun k es + begun k fs
unfolding begun
begun-append k [] fs = omega arith
begun-append k (begins j level ∷ es) fs = omega (arith, begun-append k es fs)
begun-append k (ends c ∷ es) fs = begun-append k es fs

pub ended-append : (k : ℕ) (es fs : List Event) → ended k (es ++ fs) ≡ ended k es + ended k fs
unfolding ended
ended-append k [] fs = omega arith
ended-append k (begins j level ∷ es) fs = ended-append k es fs
ended-append k (ends c ∷ es) fs = omega (arith, ended-append k es fs)

pub begun-ends : (k : ℕ) (cs : List Call) → begun k (map ends cs) ≡ 0
unfolding begun
begun-ends k [] = refl
begun-ends k (c ∷ cs) = begun-ends k cs

pub open_count-append :
    (k : ℕ) (os : List (Option Transaction)) (o : Option Transaction)
    → open_count k (os ++ o ∷ []) ≡ open_count k os + is_open k o
unfolding open_count
open_count-append k [] o = omega arith
open_count-append k (p ∷ os) o = omega (arith, open_count-append k os o)

pub open_count-set :
    (k i : ℕ) (os : List (Option Transaction)) (o : Option Transaction) (t : Transaction)
    → object (get_elem? os i) ≡ some t
    → open_count k (set os i o) + is_open k (some t) ≡ open_count k os + is_open k o
unfolding open_count
open_count-set k i [] o t h = cc
open_count-set k zero (p ∷ os) o t h = ground arith
open_count-set k (suc i) (p ∷ os) o t h = ground (arith, open_count-set k i os o t h)

pub object-set_ne :
    (i j : ℕ) (os : List (Option Transaction)) (o : Option Transaction)
    → i ≢ j
    → object (get_elem? (set os i o) j) ≡ object (get_elem? os j)
object-set_ne i j [] o h = refl
object-set_ne zero zero (p ∷ os) o h = absurd (h refl)
object-set_ne zero (suc j) (p ∷ os) o h = refl
object-set_ne (suc i) zero (p ∷ os) o h = refl
object-set_ne (suc i) (suc j) (p ∷ os) o h = object-set_ne i j os o (λ e. h (ap suc e))
