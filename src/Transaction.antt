-- ===== src/Transaction.antt =====
-- lib/public/StormByte/database/transaction.hxx and transaction.cxx: the RAII wrapper. A `Database *` is
-- an address, and a method gives the calls that it makes on databases, in order.
pub mod Store
mod Examples
use storm_byte_database.Prelude.{
  ℕ, Bool, true, false, not, ◌&&◌, ◌||◌, Option, none, some, List, [], ◌∷◌, is_some, if◌then◌else◌,
}

pub record Transaction : Type 0 where
  pub db : Option ℕ
  pub active : Bool

-- A call on the database at an address.
pub data Call : Type 0 where
  commits rolls_back : ℕ → Call

-- The constructor.
unfoldable pub transaction : ℕ → Transaction
transaction db = record { db = some db; active = true }

-- `Transaction::IsActive`
pub is_active : Transaction → Bool
is_active t = t.active

-- `if (m_active && m_db) m_db->RollbackTransaction();`
rollback_if_active : Bool → Option ℕ → List Call
rollback_if_active true (some k) = rolls_back k ∷ []
rollback_if_active _ _ = []

-- `m_db->CommitTransaction()` through a pointer that is not null.
commit_call : Option ℕ → List Call
commit_call (some k) = commits k ∷ []
commit_call none = []

-- The move constructor: the new object, and the one that was moved from.
pub move_construct : Transaction → Transaction × Transaction
move_construct other =
    (record { db = other.db; active = other.active }, record { db = none; active = false })

-- Move assignment from another object: the target, the source, and the calls.
unfoldable pub move_assign : Transaction → Transaction → Transaction × Transaction × List Call
unfolding rollback_if_active
move_assign self other = (
  record { db = other.db; active = other.active },
  record { db = none; active = false },
  rollback_if_active self.active self.db,
)

-- The destructor.
unfoldable pub destroy : Transaction → List Call
unfolding rollback_if_active
destroy t = rollback_if_active t.active t.db

-- `Transaction::Commit`
unfoldable pub commit : Transaction → Transaction × List Call
unfolding commit_call
commit t =
    if not t.active || not (is_some t.db)
    then (t, [])
    else (record t { active = false }, commit_call t.db)

-- `Transaction::Rollback`
pub rollback : Transaction → Transaction × List Call
unfolding rollback_if_active
rollback t =
    if not t.active || not (is_some t.db)
    then (t, [])
    else (record t { active = false }, rollback_if_active true t.db)
