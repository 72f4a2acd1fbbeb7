-- ===== src/Postgres/Statement/Storage.antt =====
-- The storage behind the parameters: what binding adds leaves the pointers into an array that did not move intact.
use storm_byte_database.Prelude.{
  ℕ, zero, suc, ◌+◌, ◌-◌, ◌<◌, ◌≡◌, refl, sym, Text, List, [], ◌∷◌, ◌++◌, arith, length, get_elem?,
  set-append, All,
}
use storm_byte_database.Prelude.Int.{ℤ}
use storm_byte_database.Postgres.Statement.{Pointer, inside, on_heap, blob_at, put, seen, seen_all}

pub put-append {ℓ} :
    {A : Type ℓ} (i : ℕ) (fill x : A) (xs : List A) → length xs ≡ i → put i fill x xs ≡ xs ++ x ∷ []
put-append i fill x xs e =
    let one : i + 1 - length xs ≡ 1 = omega (arith, e) in rw (one, sym e) (set-append xs fill x)

-- The slot of a pointer is in use.
abbrev pub Fits : ℕ → ℕ → Pointer → Type 0
Fits strings blobs Pointer.null = Unit {0}
Fits strings blobs (inside home slot) = slot < strings
Fits strings blobs (on_heap slot) = slot < strings
Fits strings blobs (blob_at slot) = slot < blobs

get_elem?-more {ℓ} :
    {A : Type ℓ} (xs ys : List A) (k : ℕ) → k < length xs → get_elem? (xs ++ ys) k ≡ get_elem? xs k
get_elem?-more [] ys k h = elim h [ ]
get_elem?-more (x ∷ xs) ys zero h = refl
get_elem?-more (x ∷ xs) ys (suc k) h = get_elem?-more xs ys k (omega (arith, h))

module _ (array : ℕ) (strings more : List Text) (blobs others : List (List ℕ)) where
  seen-more :
      (v : Pointer) (l : ℤ) (f : ℕ)
      → Fits (length strings) (length blobs) v
      → seen array (strings ++ more) (blobs ++ others) v l f ≡ seen array strings blobs v l f
  unfolding seen
  seen-more Pointer.null l f h = refl
  seen-more (inside home slot) l f h = rw (get_elem?-more strings more slot h) refl
  seen-more (on_heap slot) l f h = rw (get_elem?-more strings more slot h) refl
  seen-more (blob_at slot) l f h = rw (get_elem?-more blobs others slot h) refl

  -- A parameter is added behind the others, which are seen as before.
  pub seen_all-append :
      (vs : List Pointer) (ls : List ℤ) (fs : List ℕ) (v : Pointer) (l : ℤ) (f : ℕ)
      → All (Fits (length strings) (length blobs)) vs
      → length ls ≡ length vs
      → length fs ≡ length vs
      → seen_all array
          (strings ++ more)
          (blobs ++ others)
          (vs ++ v ∷ [])
          (ls ++ l ∷ [])
          (fs ++ f ∷ [])
        ≡ seen_all array strings blobs vs ls fs
          ++ seen array (strings ++ more) (blobs ++ others) v l f ∷ []
  unfolding seen_all
  seen_all-append [] [] [] v l f a d e = refl
  seen_all-append (w ∷ vs) (k ∷ ls) (g ∷ fs) v l f (h, a) d e =
      rw (seen-more w k g h, seen_all-append vs ls fs v l f a (omega (arith, d)) (omega (arith, e)))
        refl
  seen_all-append [] (k ∷ ls) fs v l f a d e = absurd (omega (arith, d))
  seen_all-append [] [] (g ∷ fs) v l f a d e = absurd (omega (arith, e))
  seen_all-append (w ∷ vs) [] fs v l f a d e = absurd (omega (arith, d))
  seen_all-append (w ∷ vs) (k ∷ ls) [] v l f a d e = absurd (omega (arith, e))

Fits-more : (n m i j : ℕ) (v : Pointer) → Fits n m v → Fits (n + i) (m + j) v
Fits-more n m i j Pointer.null h = tt
Fits-more n m i j (inside home slot) h = omega (arith, h)
Fits-more n m i j (on_heap slot) h = omega (arith, h)
Fits-more n m i j (blob_at slot) h = omega (arith, h)

pub All-Fits-more :
    (n m i j : ℕ) (vs : List Pointer) → All (Fits n m) vs → All (Fits (n + i) (m + j)) vs
All-Fits-more n m i j [] h = tt
All-Fits-more n m i j (v ∷ vs) (h, a) = (Fits-more n m i j v h, All-Fits-more n m i j vs a)
