-- ===== src/Collect.antt =====
-- The loop over the rows of a stored result, `for (r = 0; r < nrows; ++r) rows.add(row)`, which the result fetchers of
-- PostgreSQL and MariaDB share.
use storm_byte_database.Prelude.{
  ℕ, zero, suc, ◌+◌, ◌≡◌, refl, sym, ◌∙◌, ap, true, none, some, [], ◌∷◌, ◌++◌, append-nil,
  append_assoc, arith, get_elem?, ltb, if◌then◌else◌,
}
use storm_byte_database.Row.{Row}
use storm_byte_database.Rows.{Rows, Iterable}

module _ (it : Iterable) (fetch : ℕ → Row) where
  -- From row `r` on, with `n` left.
  rows_from : ℕ → ℕ → Rows → Rows
  rows_from r zero rows = rows
  rows_from r (suc n) rows = rows_from (suc r) n (it.add rows (fetch r))

  pub collect : ℕ → Rows
  unfolding rows_from
  collect n = rows_from 0 n []

  rows_list : ℕ → ℕ → Rows
  rows_list r zero = []
  rows_list r (suc n) = fetch r ∷ rows_list (suc r) n

  rows_from-list : (r n : ℕ) (rows : Rows) → rows_from r n rows ≡ rows ++ rows_list r n
  unfolding rows_from rows_list
  rows_from-list r zero rows = sym (append-nil rows)
  rows_from-list r (suc n) rows =
      rows_from-list (suc r) n (it.add rows (fetch r))
      ∙ rw (it.add_appends rows (fetch r)) (append_assoc rows (fetch r ∷ []) (rows_list (suc r) n))

  get_elem?-list :
      (r n j : ℕ) → get_elem? (rows_list r n) j ≡ (if ltb j n then some (fetch (r + j)) else none)
  unfolding rows_list
  get_elem?-list r zero j = ground arith
  get_elem?-list r (suc n) zero =
      let e : r + 0 ≡ r = omega arith in
      let h : ltb 0 (suc n) ≡ true = ground arith in rw (e, h) refl
  get_elem?-list r (suc n) (suc j) =
      let e : r + suc j ≡ suc r + j = omega arith in
      let h : ltb (suc j) (suc n) ≡ ltb j n = ground arith in rw (e, h) (get_elem?-list (suc r) n j)

  pub get_elem?-collect :
      (n j : ℕ) → get_elem? (collect n) j ≡ (if ltb j n then some (fetch j) else none)
  unfolding collect
  get_elem?-collect n j =
      let z : 0 + j ≡ j = omega arith in
      ap (λ rows. get_elem? rows j) (rows_from-list 0 n []) ∙ (rw z at (get_elem?-list 0 n j))
