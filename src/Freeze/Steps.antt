-- ===== src/Freeze/Steps.antt =====
-- server/ctdb_freeze.c: the runs of the freeze machinery of a node.
use ctdb.Base.{ℕ, ◌≡◌, Bool, false, none, some, List, [], ◌∷◌}
use ctdb.Freeze.State.{
  Priority, thawed, Slot, Db, Freezer, ctdb_freeze_lock_handler, Status, done, error, later,
  ctdb_start_freeze, ctdb_control_freeze, ctdb_control_thaw,
}
use ctdb.Freeze.Transaction.{
  ctdb_control_transaction_start, ctdb_control_transaction_cancel, ctdb_control_transaction_commit,
}

abbrev pub thawed_slot : Slot
thawed_slot = record { freeze_mode = thawed; freeze_handle = none }

abbrev pub at_start : List Db → Freezer
at_start dbs = record {
  slot = λ p. thawed_slot;
  freeze_transaction_started = false;
  freeze_transaction_id = 0;
  db_list = dbs;
  replies = [];
  resent = 0;
}

-- A request that is to be answered later.
abbrev pub logged : Status → ℕ → List ℕ → List ℕ
logged done request rs = rs
logged error request rs = rs
logged later request rs = request ∷ rs

-- The states that can be reached, with the requests that were put off: the controls come in any order, the daemon freezes a priority by itself, as when it is banned, and
-- the lock child of a handle reports whether it has the locks, and again when it dies.
pub data Reached : List ℕ → Freezer → Type 0 where
  start : (dbs : List Db) → Reached [] (at_start dbs)
  freeze :
      {rs : List ℕ} {s : Freezer} (request priority : ℕ)
      → Reached rs s
      → Reached
          (logged (ctdb_control_freeze request priority s).status request rs)
          (ctdb_control_freeze request priority s).state
  lock :
      {rs : List ℕ} {s : Freezer} (p : Priority) (locked : Bool) (waiters : List ℕ)
      → (s.slot p).freeze_handle ≡ some waiters
      → Reached rs s
      → Reached rs (ctdb_freeze_lock_handler p locked waiters s)
  start_freeze :
      {rs : List ℕ} {s : Freezer} (p : Priority) → Reached rs s → Reached rs (ctdb_start_freeze p s)
  thaw :
      {rs : List ℕ} {s : Freezer} (priority : ℕ)
      → Reached rs s
      → Reached rs (ctdb_control_thaw priority s).state
  transaction_start :
      {rs : List ℕ} {s : Freezer} (starts : ℕ → Bool) (id : ℕ)
      → Reached rs s
      → Reached rs (ctdb_control_transaction_start starts id s).state
  transaction_cancel :
      {rs : List ℕ} {s : Freezer}
      → Reached rs s
      → Reached rs (ctdb_control_transaction_cancel s).state
  transaction_commit :
      {rs : List ℕ} {s : Freezer} (commits healthy : ℕ → Bool) (id : ℕ)
      → Reached rs s
      → Reached rs (ctdb_control_transaction_commit commits healthy id s).state
