-- ===== src/MariaDb/Output/Loop.antt =====
-- The fetch loop runs a statement to the end of its rows.
use storm_byte_database.Prelude.{
  ℕ, zero, suc, ◌<◌, ◌≡◌, refl, ◌∙◌, ap, Bool, true, false, ◌⊎◌, inl, inr, text, List, [], ◌∷◌,
  ◌++◌, arith, Bool-cases,
}
use storm_byte_database.Exception.{ok}
use storm_byte_database.Rows.{Rows, ExpectedRows, Iterable}
use storm_byte_database.MariaDb.Client.{
  FetchCode, row, no_data, truncated, failed, Call, fetches, fetches_column, frees_result,
  frees_stmt, Client, FiniteResults,
}
use storm_byte_database.MariaDb.Buffers.{Out, refetches}
use storm_byte_database.MariaDb.Output.{
  fetch_columns, refetch_columns, out_row, fetch_failed, fetch_loop,
}

-- How fetching may go: from the columns, the rows and the calls so far to the answer and all calls.
pub data Fetches (c : Client) (meta s : ℕ) (answer : ExpectedRows) (after : List Call)
    : List Out → Rows → List Call → Type 0 where
  ends :
      {os : List Out} {rows : Rows} {calls : List Call}
      → c.stmt_fetch calls s ≡ no_data
      → answer ≡ ok rows
      → after ≡ frees_stmt s ∷ frees_result meta ∷ fetches s ∷ calls
      → Fetches c meta s answer after os rows calls
  fails :
      {os : List Out} {rows : Rows} {calls : List Call}
      → c.stmt_fetch calls s ≡ failed
      → (answer, after)
        ≡ fetch_failed c meta s (text "Unknown MySQL stmt fetch error") (fetches s ∷ calls)
      → Fetches c meta s answer after os rows calls
  fetches_row :
      {os : List Out} {rows : Rows} {calls : List Call} (got : List Out)
      → c.stmt_fetch calls s ≡ row
      → got ≡ fetch_columns c (fetches s ∷ calls) s 0 os
      → Fetches c meta s answer after got (rows ++ out_row c meta got ∷ []) (fetches s ∷ calls)
      → Fetches c meta s answer after os rows calls
  refetches_row :
      {os : List Out} {rows : Rows} {calls : List Call} (got : List Out) (more : List Call)
      → c.stmt_fetch calls s ≡ truncated
      → refetch_columns c s 0 (fetch_columns c (fetches s ∷ calls) s 0 os) (fetches s ∷ calls)
        ≡ (true, got, more)
      → Fetches c meta s answer after got (rows ++ out_row c meta got ∷ []) more
      → Fetches c meta s answer after os rows calls
  refetch_fails :
      {os : List Out} {rows : Rows} {calls : List Call} (got : List Out) (more : List Call)
      → c.stmt_fetch calls s ≡ truncated
      → refetch_columns c s 0 (fetch_columns c (fetches s ∷ calls) s 0 os) (fetches s ∷ calls)
        ≡ (false, got, more)
      → (answer, after) ≡ fetch_failed c meta s (text "Unknown MySQL stmt fetch_column error") more
      → Fetches c meta s answer after os rows calls

pub FetchCode-cases :
    (x : FetchCode) → (x ≡ row) ⊎ ((x ≡ truncated) ⊎ ((x ≡ no_data) ⊎ (x ≡ failed)))
FetchCode-cases row = inl refl
FetchCode-cases truncated = inr (inl refl)
FetchCode-cases no_data = inr (inr (inl refl))
FetchCode-cases failed = inr (inr (inr refl))

module _ (c : Client) (finite : FiniteResults c) (s : ℕ) where
  refetch_columns-rows_left :
      (i : ℕ) (os : List Out) (calls : List Call)
      → c.rows_left (refetch_columns c s i os calls).2 s ≡ c.rows_left calls s
  unfolding refetch_columns
  refetch_columns-rows_left i [] calls = refl
  refetch_columns-rows_left i (o ∷ os) calls = elim (Bool-cases (refetches o)) [
    | inl e ↦ elim (Bool-cases (c.stmt_fetch_column calls s i)) [
      | inl f ↦
          rw (e, f)
            (refetch_columns-rows_left (suc i) os (fetches_column s i ∷ calls) ∙ finite.1 calls s i)
      | inr f ↦ rw (e, f) (finite.1 calls s i)
    ]
    | inr e ↦ rw e (refetch_columns-rows_left (suc i) os calls)
  ]

  module _ (it : Iterable) (meta : ℕ) where
    -- With more fuel than the rows that are left, the loop ends by its own tests: it answers all rows in order once there
    -- is no more data, and an error at the first fetch that fails.
    pub fetch_loop-Fetches :
        (fuel : ℕ) (os : List Out) (rows : Rows) (calls : List Call)
        → c.rows_left calls s < fuel
        → let (answer, after) = fetch_loop c it meta s fuel os rows calls in
          Fetches c meta s answer after os rows calls
    unfolding fetch_loop fetch_failed
    fetch_loop-Fetches zero os rows calls h = elim h [ ]
    fetch_loop-Fetches (suc fuel) os rows calls h =
        let after : List Call = fetches s ∷ calls in
        let got : List Out = fetch_columns c after s 0 os in
        let again : Bool × List Out × List Call = refetch_columns c s 0 got after in
        elim (FetchCode-cases (c.stmt_fetch calls s)) [
          | inl e ↦
              rw (e, fetch_loop, it.add_appends rows (out_row c meta got))
                (fetches_row got e refl
                  (fetch_loop-Fetches fuel got _ after (omega (arith, finite.0 calls s (inl e)))))
          | inr (inl e) ↦ elim (Bool-cases again.0) [
            | inl g ↦
                rw (e, fetch_loop, g, it.add_appends rows (out_row c meta again.1))
                  (refetches_row again.1 again.2 e (ap (λ b. (b, again.1, again.2)) g) (
                    fetch_loop-Fetches fuel again.1 _ again.2 (
                      omega
                        (arith, finite.0 calls s (inr e), refetch_columns-rows_left 0 got after))))
            | inr g ↦
                rw (e, fetch_loop, g)
                  (refetch_fails again.1 again.2 e (ap (λ b. (b, again.1, again.2)) g) refl)
          ]
          | inr (inr (inl e)) ↦ rw (e, fetch_loop) (ends e refl refl)
          | inr (inr (inr e)) ↦ rw (e, fetch_loop) (fails e refl)
        ]
