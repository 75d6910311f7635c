-- ===== src/Freeze/Transaction.antt =====
-- server/ctdb_freeze.c: the transaction on all databases, for a recovery.
use ctdb.Base.{ℕ, Bool, true, false, not, ◌&&◌, List, [], ◌∷◌, ◌==◌, if◌then◌else◌}
use ctdb.Freeze.State.{
  one, two, three, is_frozen, Db, Freezer, closed, cancel_all, done, error, Result,
}

unfoldable pub all_frozen : Freezer → Bool
all_frozen s =
    is_frozen (s.slot one).freeze_mode
    && is_frozen (s.slot two).freeze_mode
    && is_frozen (s.slot three).freeze_mode

-- The databases, and whether the call succeeded on all of them.
pub record Databases : Type 0 where
  pub ok : Bool
  pub dbs : List Db

module _ (succeeds : ℕ → Bool) where
  -- A transaction that is open from before is closed first; the loop ends at the first failure.
  unfoldable pub start_transactions : Bool → List Db → Databases
  start_transactions started [] = record { ok = true; dbs = [] }
  start_transactions started (b ∷ bs) =
      let c = if started then closed b else b in
      let rest = start_transactions started bs in
      if not (succeeds b.db_id)
      then record { ok = false; dbs = c ∷ bs }
      else record { ok = rest.ok; dbs = record c { transaction = true } ∷ rest.dbs }

  unfoldable pub commit_transactions : (healthy : ℕ → Bool) → List Db → Databases
  commit_transactions healthy [] = record { ok = true; dbs = [] }
  commit_transactions healthy (b ∷ bs) =
      let rest = commit_transactions healthy bs in
      if not (succeeds b.db_id)
      then record { ok = false; dbs = b ∷ bs }
      else if not (healthy b.db_id)
      then record { ok = false; dbs = closed b ∷ bs }
      else record { ok = rest.ok; dbs = closed b ∷ rest.dbs }

-- `starts` says on which databases `tdb_transaction_start` succeeds.
unfoldable pub ctdb_control_transaction_start : (starts : ℕ → Bool) → ℕ → Freezer → Result
ctdb_control_transaction_start starts id s =
    let r = start_transactions starts s.freeze_transaction_started s.db_list in
    if not (all_frozen s)
    then record { status = error; state = s }
    else if not r.ok
    then record { status = error; state = record s { db_list = r.dbs } }
    else record {
      status = done;
      state = record s {
        db_list = r.dbs;
        freeze_transaction_started = true;
        freeze_transaction_id = id;
      };
    }

unfoldable pub ctdb_control_transaction_cancel : Freezer → Result
ctdb_control_transaction_cancel s = record {
  status = done;
  state = record s { db_list = cancel_all s.db_list; freeze_transaction_started = false };
}

-- `commits` says on which databases `tdb_transaction_commit` succeeds, `healthy` on which the update of
-- the health does.
unfoldable pub ctdb_control_transaction_commit : (commits healthy : ℕ → Bool) → ℕ → Freezer → Result
ctdb_control_transaction_commit commits healthy id s =
    let r = commit_transactions commits healthy s.db_list in
    if not (all_frozen s)
    then record { status = error; state = s }
    else if not s.freeze_transaction_started
    then record { status = error; state = s }
    else if not (id == s.freeze_transaction_id)
    then record { status = error; state = s }
    else if not r.ok
    then record {
      status = error;
      state = record s { db_list = cancel_all r.dbs; freeze_transaction_started = false };
    }
    else record {
      status = done;
      state = record s {
        db_list = r.dbs;
        freeze_transaction_started = false;
        freeze_transaction_id = 0;
      };
    }
