-- ===== src/Database/Lifecycle.antt =====
-- `Connect` and `Disconnect` against what a backend promises of its connection handle.
use storm_byte_database.Prelude.{
  ◌≡◌, refl, ◌∙◌, Bool, true, false, ◌&&◌, ◌||◌, inl, inr, arith, Bool-cases, List, [], ◌∷◌, Text,
  text, if◌then◌else◌,
}
use storm_byte_database.Database.{Db, Backend, Level, low_level, write_log, connect, disconnect}

-- The pieces of the last log line of `Connect`.
abbrev pub left : Bool → List Text
left r = text "Connect leave (" ∷ (if r then text "ok" else text "fail") ∷ text ")" ∷ []

module _ {P W E : Type 0} where
  -- A step keeps the connection state: the flag and the handle.
  abbrev pub Keeps : (Db P W E → Bool) → Db P W E → Db P W E → Type 0
  Keeps handle db db' = (db'.connected ≡ db.connected) × (handle db' ≡ handle db)

  -- The promises: `handle` says whether the object owns an open connection.
  pub record Connects (b : Backend P W E) (handle : Db P W E → Bool) : Type 0 where
    pub handle_own : (db db' : Db P W E) → db'.own ≡ db.own → handle db' ≡ handle db
    pub pre_connect_keeps : (db : Db P W E) → Keeps handle db (b.do_pre_connect db).1
    pub post_connect_keeps : (db : Db P W E) → Keeps handle db (b.do_post_connect db).1
    pub connect_flag : (db : Db P W E) → (b.do_connect db).1.connected ≡ db.connected
    pub connect_again :
        (db : Db P W E)
        → db.connected ≡ true
        → ((b.do_connect db).0 ≡ false) × (handle (b.do_connect db).1 ≡ handle db)
    pub connect_handle :
        (db : Db P W E)
        → db.connected ≡ false
        → handle db ≡ false
        → handle (b.do_connect db).1 ≡ (b.do_connect db).0
    pub pre_disconnect_keeps : (db : Db P W E) → handle (b.do_pre_disconnect db).1 ≡ handle db
    pub disconnect_handle : (db : Db P W E) → handle (b.do_disconnect db).1 ≡ false
    pub post_disconnect_keeps : (db : Db P W E) → handle (b.do_post_disconnect db).1 ≡ handle db

  -- The object reports to be connected exactly while it owns a connection.
  abbrev pub Agrees : (Db P W E → Bool) → Db P W E → Type 0
  Agrees handle db = handle db ≡ db.connected

  write_log-Keeps :
      {b : Backend P W E} {handle : Db P W E → Bool}
      → Connects b handle
      → (l : Level) (pieces : List Text) (db : Db P W E) → Keeps handle db (write_log l pieces db).1
  unfolding write_log
  write_log-Keeps c l pieces db = elim (Bool-cases db.has_logger) [
    | inl e ↦ rw (e, write_log) (refl, c.handle_own _ _ refl)
    | inr e ↦ rw (e, write_log) (refl, refl)
  ]

  module _ {b : Backend P W E} {handle : Db P W E → Bool} (c : Connects b handle) where
    -- If the backend keeps the connection contract and the object reports to be connected exactly while it
    -- owns a connection, this holds after Connect; it is connected then if the call succeeded or it was
    -- before, and no call succeeds on a connected object.
    pub connect-Agrees :
        (db : Db P W E)
        → Agrees handle db
        → Agrees handle (connect b db).1
          × ((connect b db).1.connected ≡ ((connect b db).0 || db.connected))
          × (((connect b db).0 && db.connected) ≡ false)
    unfolding connect
    connect-Agrees db h =
        let d1 : Db P W E = (write_log low_level (text "Connect enter" ∷ []) db).1 in
        let d2 : Db P W E = (b.do_pre_connect d1).1 in
        let d3 : Db P W E = (b.do_connect d2).1 in
        let d4 : Db P W E = (b.do_post_connect (record d3 { connected = true })).1 in
        let k1 : Keeps handle db d1 = write_log-Keeps c low_level (text "Connect enter" ∷ []) db in
        let k2 : Keeps handle d1 d2 = c.pre_connect_keeps d1 in
        let k4 : Keeps handle (record d3 { connected = true }) d4 = c.post_connect_keeps _ in
        let s4 : handle (record d3 { connected = true }) ≡ handle d3 = c.handle_own _ _ refl in
        elim (Bool-cases (b.do_connect d2).0) [
          | inl e ↦ rw e (
              let k5 : Keeps handle d4 (write_log low_level (left true) d4).1 =
                write_log-Keeps c low_level (left true) d4 in
              ground (
                arith,
                k1,
                k2,
                k4,
                k5,
                s4,
                c.connect_flag d2,
                c.connect_again d2,
                c.connect_handle d2,
              ))
          | inr e ↦ rw e (
              let k5 : Keeps handle d3 (write_log low_level (left false) d3).1 =
                write_log-Keeps c low_level (left false) d3 in
              ground
                (arith, k1, k2, k5, c.connect_flag d2, c.connect_again d2, c.connect_handle d2))
        ]

    -- If the backend keeps the connection contract, Disconnect ends with no connection owned and none
    -- reported.
    pub disconnect-Agrees :
        (db : Db P W E)
        → (handle (disconnect b db).1 ≡ false) × ((disconnect b db).1.connected ≡ false)
    unfolding disconnect
    disconnect-Agrees db =
        let d1 : Db P W E = (write_log low_level (text "Disconnect enter" ∷ []) db).1 in
        let d2 : Db P W E = (b.do_pre_disconnect d1).1 in
        let d3 : Db P W E = (b.do_disconnect d2).1 in
        let d4 : Db P W E = (b.do_post_disconnect d3).1 in
        let d5 : Db P W E = record d4 { connected = false } in
        let k5 : Keeps handle d5 (write_log low_level (text "Disconnect leave" ∷ []) d5).1 =
          write_log-Keeps c low_level (text "Disconnect leave" ∷ []) d5 in
        let s5 : handle d5 ≡ handle d4 = c.handle_own _ _ refl in
        (k5.1 ∙ s5 ∙ c.post_disconnect_keeps d3 ∙ c.disconnect_handle d2, k5.0)
