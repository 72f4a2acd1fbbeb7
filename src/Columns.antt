-- ===== src/Columns.antt =====
-- The loop over the columns of a result row, `for (c = 0; c < n; ++c) row.add(name, value)`, which the
-- result fetchers of the three backends share.
use storm_byte_database.Prelude.{
  ℕ, zero, suc, ◌+◌, ◌≡◌, refl, sym, ◌∙◌, ap, append-nil, append_assoc, Text, some, List, [], ◌∷◌,
  ◌++◌, ◌||◌, arith, get_elem?, ltb, none, true, if◌then◌else◌,
}
use storm_byte_database.Prelude.Int.{ℤ, ltb_ℤ}
use storm_byte_database.Value.{Value}
use storm_byte_database.Convert.{IntType, lowest, max_of}
use storm_byte_database.Row.{Row, NamedValue, empty_row, add}

-- A 64-bit integer becomes an `int` where it fits.
unfoldable pub narrowest : ℤ → Value
narrowest v =
    if ltb_ℤ (max_of IntType.int) v || ltb_ℤ v (lowest IntType.int)
    then Value.long_integer v
    else Value.integer v

module _ (name : ℕ → Text) (value : ℕ → Value) where
  -- From column `i` on, with `n` left.
  columns_from : ℕ → ℕ → Row → Row
  columns_from i zero r = r
  columns_from i (suc n) r = columns_from (suc i) n (add (name i) (value i) r)

  pub fill_row : ℕ → Row
  unfolding columns_from
  fill_row n = columns_from 0 n empty_row

  columns_spec : ℕ → ℕ → List NamedValue
  columns_spec i zero = []
  columns_spec i (suc n) = record { name = name i; value = value i } ∷ columns_spec (suc i) n

  columns_from-spec :
      (i n : ℕ) (r : Row) → (columns_from i n r).columns ≡ r.columns ++ columns_spec i n
  unfolding columns_from columns_spec add
  columns_from-spec i zero r = sym (append-nil r.columns)
  columns_from-spec i (suc n) r = columns_from-spec (suc i) n _ ∙ append_assoc r.columns _ _

  get_elem?-spec :
      (i n j : ℕ)
      → get_elem? (columns_spec i n) j
        ≡ (if ltb j n then some (record { name = name (i + j); value = value (i + j) }) else none)
  unfolding columns_spec
  get_elem?-spec i zero j = ground arith
  get_elem?-spec i (suc n) zero =
      let e : i + 0 ≡ i = omega arith in
      let h : ltb 0 (suc n) ≡ true = ground arith in rw (e, h) refl
  get_elem?-spec i (suc n) (suc j) =
      let e : i + suc j ≡ suc i + j = omega arith in
      let h : ltb (suc j) (suc n) ≡ ltb j n = ground arith in rw (e, h) (get_elem?-spec (suc i) n j)

  -- The row has `n` columns, each under its name and with its value.
  abbrev pub HasColumns : ℕ → Row → Type 0
  HasColumns n r =
      (j : ℕ)
      → get_elem? r.columns j
        ≡ (if ltb j n then some (record { name = name j; value = value j }) else none)

  pub fill_row-HasColumns : (n : ℕ) → HasColumns n (fill_row n)
  unfolding fill_row empty_row
  fill_row-HasColumns n j =
      let z : 0 + j ≡ j = omega arith in
      ap (λ xs. get_elem? xs j) (columns_from-spec 0 n empty_row) ∙ (rw z at (get_elem?-spec 0 n j))
