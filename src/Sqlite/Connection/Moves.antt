-- ===== src/Sqlite/Connection/Moves.antt =====
-- The move constructor of an SQLite object, and the end of both objects: the handle is closed by each.
use storm_byte_database.Prelude.{
  ℕ, suc, ◌+◌, ◌≡◌, refl, ◌∙◌, ap, false, some, List, [], ◌∷◌, Text, text, arith, inl, inr,
  Option-cases, Action, ◌==◌, one_if,
}
use storm_byte_database.Rows.{Iterable}
use storm_byte_database.Database.{low_level, write_log, disconnect, moved_from}
use storm_byte_database.Sqlite.Client.{Call, closes, Client, Env}
use storm_byte_database.Sqlite.Statement.{Stmt}
use storm_byte_database.Sqlite.Members.{Own, Sqlite, own_moved_from}
use storm_byte_database.Sqlite.Connection.{
  release_library, clear_stmts, destroy_all, destroy_stmt, do_pre_disconnect, close_handle,
  do_disconnect, do_post_disconnect, backend, destroy,
}
use storm_byte_database.Sqlite.Connection.Lifecycle.{write_log-same}

-- How often a handle was closed.
unfoldable pub closed : ℕ → List Call → ℕ
closed h [] = 0
closed h (closes j ∷ calls) = one_if (j == h) + closed h calls
closed h (_ ∷ calls) = closed h calls

-- A call that leaves the handle alone and closes none.
abbrev Quiet : ℕ → Sqlite → Sqlite → Type 0
Quiet h db db' = (db'.own ≡ db.own) × (closed h db'.env.calls ≡ closed h db.env.calls)

destroy_stmt-Quiet : (h : ℕ) (p : Stmt) (db : Sqlite) → Quiet h db (destroy_stmt p db).1
unfolding destroy_stmt closed
destroy_stmt-Quiet h p db = elim (Option-cases p.handle) [
  | inl e ↦ rw (e, destroy_stmt) (refl, refl)
  | inr (s, e) ↦ rw (e, destroy_stmt) (refl, refl)
]

destroy_all-Quiet : (h : ℕ) (m : List (Text × Stmt)) (db : Sqlite) → Quiet h db (destroy_all m db).1
unfolding destroy_all
destroy_all-Quiet h [] db = (refl, refl)
destroy_all-Quiet h ((name, p) ∷ m) db =
    let (o, k) = destroy_stmt-Quiet h p db in
    let (o', k') = destroy_all-Quiet h m (destroy_stmt p db).1 in (o' ∙ o, k' ∙ k)

clear_stmts-Quiet : (h : ℕ) (db : Sqlite) → Quiet h db (clear_stmts db).1
unfolding clear_stmts
clear_stmts-Quiet h db = destroy_all-Quiet h db.prepared_stmts db

do_pre_disconnect-Quiet : (h : ℕ) (db : Sqlite) → Quiet h db (do_pre_disconnect db).1
unfolding do_pre_disconnect
do_pre_disconnect-Quiet h db = ground (arith, clear_stmts-Quiet h db)

do_post_disconnect-Quiet : (h : ℕ) (db : Sqlite) → Quiet h db (do_post_disconnect db).1
unfolding do_post_disconnect release_library closed
do_post_disconnect-Quiet h db = ground arith

-- `DoDisconnect` closes the handle that the object holds.
do_disconnect-closes :
    (h : ℕ) (db : Sqlite)
    → db.own.database ≡ some h
    → closed h (do_disconnect db).1.env.calls ≡ suc (closed h db.env.calls)
unfolding do_disconnect close_handle closed
do_disconnect-closes h db e = rw (e, do_disconnect) (ground arith)

logged-Quiet :
    (h : ℕ) (pieces : List Text) (db : Sqlite) → Quiet h db (write_log low_level pieces db).1
logged-Quiet h pieces db =
    let (z, o, e, m) = write_log-same low_level pieces db in
    (o, ap (λ (v : Env). closed h v.calls) e)

module _ (c : Client) (pre post : Action Sqlite (Unit {0})) (it : Iterable) where
  disconnect-closes :
      (h : ℕ) (db : Sqlite)
      → db.own.database ≡ some h
      → closed h (disconnect (backend c pre post it) db).1.env.calls ≡ suc (closed h db.env.calls)
  unfolding disconnect backend
  disconnect-closes h db e =
      let d1 : Sqlite = (write_log low_level (text "Disconnect enter" ∷ []) db).1 in
      let d2 : Sqlite = (do_pre_disconnect d1).1 in
      let d3 : Sqlite = (do_disconnect d2).1 in
      let d4 : Sqlite = (do_post_disconnect d3).1 in
      let d5 : Sqlite = record d4 { connected = false } in
      let (o1, k1) = logged-Quiet h (text "Disconnect enter" ∷ []) db in
      let (o2, k2) = do_pre_disconnect-Quiet h d1 in
      let held : d2.own.database ≡ some h = ap (λ (w : Own). w.database) (o2 ∙ o1) ∙ e in
      omega (
        arith,
        k1,
        k2,
        do_disconnect-closes h d2 held,
        (do_post_disconnect-Quiet h d3).1,
        (logged-Quiet h (text "Disconnect leave" ∷ []) d5).1,
      )

  destroy-closes :
      (h : ℕ) (db : Sqlite)
      → db.own.database ≡ some h
      → closed h (destroy c pre post it db).1.env.calls ≡ suc (closed h db.env.calls)
  unfolding destroy
  destroy-closes h db e =
      let d1 : Sqlite = (write_log low_level (text "SQLite3 dtor" ∷ []) db).1 in
      let d2 : Sqlite = (disconnect (backend c pre post it) d1).1 in
      let (o1, k1) = logged-Quiet h (text "SQLite3 dtor" ∷ []) db in
      let held : d1.own.database ≡ some h = ap (λ (w : Own). w.database) o1 ∙ e in
      omega (arith, k1, disconnect-closes h d1 held, (clear_stmts-Quiet h d2).1)

  -- If an SQLite object that holds a handle is moved from, then destroying the new object and the old one
  -- closes this handle twice.
  pub moved_closes_twice :
      (h : ℕ) (db : Sqlite)
      → db.own.database ≡ some h
      → let old = moved_from own_moved_from db in
        let first = (destroy c pre post it db).1 in
        let second = (destroy c pre post it (record old { env = first.env })).1 in
        closed h second.env.calls ≡ 2 + closed h db.env.calls
  unfolding moved_from own_moved_from
  moved_closes_twice h db e =
      let first : Sqlite = (destroy c pre post it db).1 in
      let old : Sqlite = record (moved_from own_moved_from db) { env = first.env } in
      omega (arith, destroy-closes h db e, destroy-closes h old e)
