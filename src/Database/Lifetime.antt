-- ===== src/Database/Lifetime.antt =====
-- The life of a database object: connects, disconnects and uses in any order. No connection that the client library
-- gave out is lost.
use storm_byte_database.Prelude.{
  ℕ, ◌+◌, ◌≡◌, refl, sym, ◌∙◌, ap, Bool, true, false, inl, inr, List, [], ◌∷◌, text, arith, one_if,
  Bool-cases,
}
use storm_byte_database.Database.{Db, Backend, low_level, write_log, connect, disconnect}
use storm_byte_database.Database.Steady.{Use, use_db, Steady, use_db-Steady}
use storm_byte_database.Database.Lifecycle.{
  Agrees, Connects, left, connect-Agrees, disconnect-Agrees,
}

pub data Life : Type 0 where
  connects disconnects : Life
  uses : Use → Life

module _ {P W E : Type 0} (b : Backend P W E) where
  unfoldable pub live : Life → Db P W E → Db P W E
  live connects db = (connect b db).1
  live disconnects db = (disconnect b db).1
  live (uses u) db = use_db b u db

  unfoldable pub live_all : List Life → Db P W E → Db P W E
  live_all [] db = db
  live_all (l ∷ ls) db = live_all ls (live l db)

module _ {P W E : Type 0} (handle : Db P W E → Bool) (given taken : E → ℕ) where
  -- The connection and what was given out and taken back are as they were.
  abbrev pub Still : Db P W E → Db P W E → Type 0
  Still db db' =
      (db'.connected ≡ db.connected)
      × (handle db' ≡ handle db)
      × (given db'.env ≡ given db.env)
      × (taken db'.env ≡ taken db.env)

  pub Still-again : (db : Db P W E) → Still db db
  Still-again db = (refl, refl, refl, refl)

  pub Still-further : (db d db' : Db P W E) → Still db d → Still d db' → Still db db'
  Still-further db d db' (x, y, z, w) (x', y', z', w') = (x' ∙ x, y' ∙ y, z' ∙ z, w' ∙ w)

  -- What a backend promises of the connections that it is given.
  pub record Accounts (b : Backend P W E) : Type 0 where
    pub connection : Connects b handle
    pub steady : Steady b Still
    pub pre_connect_still : (db : Db P W E) → Still db (b.do_pre_connect db).1
    pub post_connect_still : (db : Db P W E) → Still db (b.do_post_connect db).1
    pub pre_disconnect_still : (db : Db P W E) → Still db (b.do_pre_disconnect db).1
    pub post_disconnect_still : (db : Db P W E) → Still db (b.do_post_disconnect db).1
    pub connect_again :
        (db : Db P W E)
        → db.connected ≡ true
        → (given (b.do_connect db).1.env ≡ given db.env)
          × (taken (b.do_connect db).1.env ≡ taken db.env)
    pub connect_gives :
        (db : Db P W E)
        → db.connected ≡ false
        → handle db ≡ false
        → given (b.do_connect db).1.env + taken db.env
          ≡ given db.env + taken (b.do_connect db).1.env + one_if (handle (b.do_connect db).1)
    pub disconnect_takes :
        (db : Db P W E)
        → (given (b.do_disconnect db).1.env ≡ given db.env)
          × (taken (b.do_disconnect db).1.env ≡ taken db.env + one_if (handle db))

  -- The object tells whether it owns a connection, and all others that were given out were taken back.
  abbrev pub Sound : Db P W E → Type 0
  Sound db = Agrees handle db × (given db.env ≡ taken db.env + one_if (handle db))

  module _ {b : Backend P W E} (c : Accounts b) where
    connect-balance :
        (db : Db P W E)
        → Sound db
        → given (connect b db).1.env ≡ taken (connect b db).1.env + one_if (handle (connect b db).1)
    unfolding connect
    connect-balance db (h, k) =
        let d1 : Db P W E = (write_log low_level (text "Connect enter" ∷ []) db).1 in
        let d2 : Db P W E = (b.do_pre_connect d1).1 in
        let d3 : Db P W E = (b.do_connect d2).1 in
        let d4 : Db P W E = (b.do_post_connect (record d3 { connected = true })).1 in
        let s1 : Still db d1 = c.steady.logs low_level (text "Connect enter" ∷ []) db in
        let s2 : Still d1 d2 = c.pre_connect_still d1 in
        let s4 : Still (record d3 { connected = true }) d4 = c.post_connect_still _ in
        let o4 : handle (record d3 { connected = true }) ≡ handle d3 =
          c.connection.handle_own _ _ refl in
        elim (Bool-cases (b.do_connect d2).0) [
          | inl e ↦ rw e (
              let s5 : Still d4 (write_log low_level (left true) d4).1 =
                c.steady.logs low_level (left true) d4 in
              ground (
                arith,
                s1,
                s2,
                s4,
                o4,
                s5,
                c.connect_again d2,
                c.connect_gives d2,
                c.connection.connect_again d2,
              ))
          | inr e ↦ rw e (
              let s5 : Still d3 (write_log low_level (left false) d3).1 =
                c.steady.logs low_level (left false) d3 in
              ground (
                arith,
                s1,
                s2,
                s5,
                c.connect_again d2,
                c.connect_gives d2,
                c.connection.connect_again d2,
              ))
        ]

    disconnect-balance :
        (db : Db P W E) → Sound db → given (disconnect b db).1.env ≡ taken (disconnect b db).1.env
    unfolding disconnect
    disconnect-balance db (h, k) =
        let d1 : Db P W E = (write_log low_level (text "Disconnect enter" ∷ []) db).1 in
        let d2 : Db P W E = (b.do_pre_disconnect d1).1 in
        let d3 : Db P W E = (b.do_disconnect d2).1 in
        let d4 : Db P W E = (b.do_post_disconnect d3).1 in
        let d5 : Db P W E = record d4 { connected = false } in
        let s1 : Still db d1 = c.steady.logs low_level (text "Disconnect enter" ∷ []) db in
        let s2 : Still d1 d2 = c.pre_disconnect_still d1 in
        let s4 : Still d3 d4 = c.post_disconnect_still d3 in
        let s5 : Still d5 (write_log low_level (text "Disconnect leave" ∷ []) d5).1 =
          c.steady.logs low_level (text "Disconnect leave" ∷ []) d5 in
        let (g, t) = c.disconnect_takes d2 in
        let hs : handle d2 ≡ handle db = s2.1 ∙ s1.1 in
        omega (arith, k, ap one_if hs, g, t, s1.2, s1.3, s2.2, s2.3, s4.2, s4.3, s5.2, s5.3)

    live-Sound : (l : Life) (db : Db P W E) → Sound db → Sound (live b l db)
    unfolding live
    live-Sound connects db s = ((connect-Agrees c.connection db s.0).0, connect-balance db s)
    live-Sound disconnects db s =
        let (x, y) = disconnect-Agrees c.connection db in
        (x ∙ sym y, rw x (disconnect-balance db s ∙ omega arith))
    live-Sound (uses u) db (h, k) =
        let (x, y, z, w) = use_db-Steady c.steady u db in
        (y ∙ h ∙ sym x, z ∙ k ∙ omega (arith, w, ap one_if y))

    live_all-Sound : (ls : List Life) (db : Db P W E) → Sound db → Sound (live_all b ls db)
    unfolding live_all
    live_all-Sound [] db s = s
    live_all-Sound (l ∷ ls) db s = live_all-Sound ls (live b l db) (live-Sound l db s)

    -- If a backend keeps the contract of the connections that it is given, then after connects, disconnects
    -- and uses in any order on an object that reports rightly whether it owns a connection, all others
    -- given out so far being taken back, this is so again, and after one more Disconnect every connection
    -- that was given out was taken back.
    pub life-settles :
        (ls : List Life) (db : Db P W E)
        → Sound db
        → Sound (live_all b ls db)
          × (given (disconnect b (live_all b ls db)).1.env
              ≡ taken (disconnect b (live_all b ls db)).1.env)
    life-settles ls db s =
        let sound : Sound (live_all b ls db) = live_all-Sound ls db s in
        (sound, disconnect-balance (live_all b ls db) sound)
