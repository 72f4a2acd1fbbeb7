-- ===== src/Postgres/Statement/Binding.antt =====
-- What libpq reads of the bound parameters: the rendered arguments, as long as the strings do not move.
use storm_byte_database.Prelude.{
  ℕ, suc, ◌+◌, ◌≤◌, ◌≡◌, refl, sym, ◌∙◌, ap, Text, text, true, List, [], ◌∷◌, ◌++◌, arith, length,
  get_elem?-append, length-append, All, All-append, append-nil, ltb, if◌then◌else◌,
}
use storm_byte_database.Prelude.Int.{ℤ, pos, pos_part}
use storm_byte_database.Prelude.Words.{to_int32, c_string, take}
use storm_byte_database.Value.{Value}
use storm_byte_database.Decimal.{to_string, double_to_string}
use storm_byte_database.Postgres.Client.{Param, binary}
use storm_byte_database.Postgres.Statement.{
  Pointer, blob_at, Stmt, set_param, push_string, back, bind_string, blob_pointer, bind_blob,
  bind_value, seen, params, put,
}
use storm_byte_database.Postgres.Statement.Storage.{
  put-append, Fits, seen_all-append, All-Fits-more,
}

-- The parameters so far are `i`, and each refers to storage in use.
abbrev pub IsBuilt : ℕ → Stmt → Type 0
IsBuilt i p =
    (length p.param_values ≡ i)
    × (length p.param_lengths ≡ i)
    × (length p.param_formats ≡ i)
    × All (Fits (length p.strings) (length p.blobs)) p.param_values

-- A parameter is set behind the others, into a statement `q` that stores more than `p` does at the same place.
abbrev Grows : Stmt → Stmt → Type 0
Grows p q =
    (q.array ≡ p.array)
    × ((ss : List Text) × (q.strings ≡ p.strings ++ ss))
    × ((bs : List (List ℕ)) × (q.blobs ≡ p.blobs ++ bs))
    × (q.param_values ≡ p.param_values)
    × (q.param_lengths ≡ p.param_lengths)
    × (q.param_formats ≡ p.param_formats)

one_more {ℓ} :
    {A : Type ℓ} (xs : List A) (x : A) (i : ℕ) → length xs ≡ i → length (xs ++ x ∷ []) ≡ suc i
one_more xs x i e = length-append xs (x ∷ []) ∙ omega (arith, e)

set_param-adds :
    (i : ℕ) (v : Pointer) (l : ℤ) (f : ℕ) (p q : Stmt)
    → Grows p q
    → IsBuilt i p
    → Fits (length q.strings) (length q.blobs) v
    → (params (set_param i v l f q) ≡ params p ++ seen q.array q.strings q.blobs v l f ∷ [])
      × IsBuilt (suc i) (set_param i v l f q)
unfolding set_param params
set_param-adds i v l f p q (ea, (ss, es), (bs, eb), ev, el, ef) (nv, nl, nf, fits) h =
    let fit' : All (Fits (length q.strings) (length q.blobs)) p.param_values =
      rw (es, eb, length-append p.strings ss, length-append p.blobs bs)
        (All-Fits-more (length p.strings) (length p.blobs) (length ss) (length bs) p.param_values
          fits) in
    let pv : put i Pointer.null v q.param_values ≡ p.param_values ++ v ∷ [] =
      ap (put i Pointer.null v) ev ∙ put-append i Pointer.null v p.param_values nv in
    let pl : put i (pos 0) l q.param_lengths ≡ p.param_lengths ++ l ∷ [] =
      ap (put i (pos 0) l) el ∙ put-append i (pos 0) l p.param_lengths nl in
    let pf : put i 0 f q.param_formats ≡ p.param_formats ++ f ∷ [] =
      ap (put i 0 f) ef ∙ put-append i 0 f p.param_formats nf in
    (
      rw (pv, pl, pf, ea, es, eb)
          (seen_all-append p.array p.strings ss p.blobs bs p.param_values p.param_lengths
            p.param_formats v l f fits (nl ∙ sym nv) (nf ∙ sym nv)),
      rw (pv, pl, pf)
          (
            one_more p.param_values v i nv,
            one_more p.param_lengths l i nl,
            one_more p.param_formats f i nf,
            All-append _ p.param_values (v ∷ []) fit' (h, tt),
          ),
    )

-- What each value is sent as. A blob is cut to its length as an `int`, and an empty one is a null pointer.
pub render_blob : List ℕ → Param
render_blob [] = Param.null
render_blob (b ∷ bs) = binary (take (pos_part (to_int32 (pos (length (b ∷ bs))))) (b ∷ bs))

pub render : Value → Param
unfolding render_blob
render Value.null = Param.null
render (Value.integer z) = Param.text (c_string (to_string z))
render (Value.unsigned_integer z) = Param.text (c_string (to_string z))
render (Value.long_integer z) = Param.text (c_string (to_string z))
render (Value.unsigned_long_integer z) = Param.text (c_string (to_string z))
render (Value.double x) = Param.text (c_string (double_to_string x))
render (Value.boolean b) = Param.text (c_string (if b then text "true" else text "false"))
render (Value.text s) = Param.text (c_string s)
render (Value.blob bytes) = render_blob bytes

-- How many strings binding a value stores.
unfoldable pub strings_of : Value → ℕ
strings_of Value.null = 0
strings_of (Value.blob bytes) = 0
strings_of _ = 1

unfoldable pub string_count : List Value → ℕ
string_count [] = 0
string_count (a ∷ args) = strings_of a + string_count args

-- Room for so many more strings.
abbrev pub HasRoom : ℕ → Stmt → Type 0
HasRoom n p = length p.strings + n ≤ p.capacity

-- What a step of binding does.
abbrev pub Adds : ℕ → ℕ → Param → Stmt → Stmt → Type 0
Adds i n x p q = (params q ≡ params p ++ x ∷ []) × IsBuilt (suc i) q × HasRoom n q

seen-back :
    (s : Text) (array : ℕ) (strings : List Text) (blobs : List (List ℕ))
    → seen array (strings ++ s ∷ []) blobs (back s array (length strings)) (pos 0) 0
      ≡ Param.text (c_string s)
unfolding seen back
seen-back s array strings blobs = ground (arith, get_elem?-append strings s)

back-Fits : (s : Text) (array n m : ℕ) → Fits (n + 1) m (back s array n)
unfolding back
back-Fits s array n m = ground arith

bind_string-Adds :
    (i n : ℕ) (s : Text) (p : Stmt)
    → IsBuilt i p
    → HasRoom (1 + n) p
    → Adds i n (Param.text (c_string s)) p (bind_string i s p)
unfolding bind_string push_string
bind_string-Adds i n s p b r =
    let room : ltb (length p.strings) p.capacity ≡ true = ground (arith, r) in
    let q : Stmt = record p { strings = p.strings ++ s ∷ [] } in
    let k : length (p.strings ++ s ∷ []) ≡ length p.strings + 1 =
      length-append p.strings (s ∷ []) in
    let (e, b') =
      set_param-adds i (back s p.array (length p.strings)) (pos 0) 0 p q
        (refl, (s ∷ [], refl), ([], sym (append-nil p.blobs)), refl, refl, refl) b
        (rw k (back-Fits s p.array (length p.strings) (length p.blobs))) in
    rw (room, bind_string, push_string)
      (
        e ∙ ap (λ x. params p ++ x ∷ []) (seen-back s p.array p.strings p.blobs),
        b',
        omega (arith, k, r),
      )

bind_blob-Adds :
    (i n : ℕ) (bytes : List ℕ) (p : Stmt)
    → IsBuilt i p
    → HasRoom n p
    → Adds i n (render_blob bytes) p (bind_blob i bytes p)
unfolding bind_blob blob_pointer render_blob seen
bind_blob-Adds i n [] p b r =
    let q : Stmt = record p { blobs = p.blobs ++ [] ∷ [] } in
    let (e, b') =
      set_param-adds i Pointer.null (to_int32 (pos 0)) 1 p q
        (refl, ([], sym (append-nil p.strings)), ([] ∷ [], refl), refl, refl, refl) b tt in
    (e, b', omega (arith, r))
bind_blob-Adds i n (c ∷ cs) p b r =
    let q : Stmt = record p { blobs = p.blobs ++ (c ∷ cs) ∷ [] } in
    let k : length (p.blobs ++ (c ∷ cs) ∷ []) ≡ length p.blobs + 1 =
      length-append p.blobs ((c ∷ cs) ∷ []) in
    let (e, b') =
      set_param-adds i (blob_at (length p.blobs)) (to_int32 (pos (length (c ∷ cs)))) 1 p q
        (refl, ([], sym (append-nil p.strings)), ((c ∷ cs) ∷ [], refl), refl, refl, refl) b
        (omega (arith, k)) in
    (e ∙ rw (get_elem?-append p.blobs (c ∷ cs)) refl, b', omega (arith, r))

pub bind_value-Adds :
    (i n : ℕ) (a : Value) (p : Stmt)
    → IsBuilt i p
    → HasRoom (strings_of a + n) p
    → Adds i n (render a) p (bind_value i a p)
unfolding bind_value render seen strings_of
bind_value-Adds i n Value.null p b r =
    let (e, b') =
      set_param-adds i Pointer.null (pos 0) 0 p p
        (refl, ([], sym (append-nil p.strings)), ([], sym (append-nil p.blobs)), refl, refl, refl) b
        tt in
    (e, b', omega (arith, r))
bind_value-Adds i n (Value.integer z) p b r = bind_string-Adds i n (to_string z) p b r
bind_value-Adds i n (Value.unsigned_integer z) p b r = bind_string-Adds i n (to_string z) p b r
bind_value-Adds i n (Value.long_integer z) p b r = bind_string-Adds i n (to_string z) p b r
bind_value-Adds i n (Value.unsigned_long_integer z) p b r = bind_string-Adds i n (to_string z) p b r
bind_value-Adds i n (Value.double x) p b r = bind_string-Adds i n (double_to_string x) p b r
bind_value-Adds i n (Value.boolean t) p b r =
    bind_string-Adds i n (if t then text "true" else text "false") p b r
bind_value-Adds i n (Value.text s) p b r = bind_string-Adds i n s p b r
bind_value-Adds i n (Value.blob bytes) p b r = bind_blob-Adds i n bytes p b (omega (arith, r))
