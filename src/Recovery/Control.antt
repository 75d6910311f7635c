-- ===== src/Recovery/Control.antt =====
-- The controls that a node serves in a recovery: ctdb_control_pull_db and ctdb_control_push_db
-- (server/ctdb_recover.c), ctdb_control_wipe_database (server/ctdb_freeze.c).
use ctdb.Base.{ℕ, Bool, true, false, not, none, some, Option, List, [], ◌∷◌, ◌==◌, if◌then◌else◌}
use ctdb.Dmaster.Header.{Header}
use ctdb.Dmaster.Node.{Node}
use ctdb.Dmaster.Store.{ctdb_ltdb_store_server}
use ctdb.Recovery.Database.{Value, short, full, Dbs, at_key}

-- A node in a recovery. `frozen` says that the databases of this priority are frozen.
pub record Member (T : Type 0) : Type 0 where
  pub node : Node T
  pub frozen : Bool
  pub freeze_transaction_started : Bool
  pub freeze_transaction_id : ℕ

-- What a control leaves, and whether it answers with 0.
pub record Answer (T : Type 0) : Type 0 where
  pub ok : Bool
  pub member : Member T

-- `hdr->flags &= ~CTDB_REC_RO_FLAGS`
abbrev pub revoked : Header → Header
revoked h = record h {
  flags = record h.flags {
    ro_have_delegations = false;
    ro_have_readonly = false;
    ro_revoking_readonly = false;
    ro_revoke_complete = false;
  };
}

module _ (d : Dbs) where
  abbrev on_node : Node d.State → Member d.State → Member d.State
  on_node n m = record m { node = n }

  -- All records of the database; `locked` and `traversed` say that the marking of the locks and the
  -- traversal succeed.
  unfoldable pub ctdb_control_pull_db :
      (locked traversed : Bool) → Member d.State → Option (List (ℕ × Value))
  ctdb_control_pull_db locked traversed m =
      if not m.node.attached
      then none
      else if not m.frozen
      then none
      else if not locked
      then none
      else if not traversed
      then none
      else some (d.traverse m.node.store)

  -- The loop of `ctdb_control_push_db`, which stops at the first failure.
  unfoldable pub push_records : List (ℕ × Value) → Node d.State → Bool × Node d.State
  push_records [] n = (true, n)
  push_records ((k, short bytes) ∷ rs) n = (false, n)
  push_records ((k, full r) ∷ rs) n =
      let s = ctdb_ltdb_store_server (at_key d k) n (revoked r.header) r.body in
      let rest = push_records rs s.node in if s.ok then rest else (false, s.node)

  -- The tracking database of the read-only delegations is emptied; `wiped` says that this succeeds.
  unfoldable pub clear_tracking : Bool → Node d.State → Node d.State
  clear_tracking wiped n =
      if not n.readonly
      then n
      else if wiped
      then record n { tracking = [] }
      else record n { tracking = []; readonly = false }

  unfoldable pub ctdb_control_push_db :
      (locked wiped : Bool) → List (ℕ × Value) → Member d.State → Answer d.State
  ctdb_control_push_db locked wiped records m =
      let (done, n) = push_records records m.node in
      if not m.node.attached
      then record { ok = false; member = m }
      else if not m.frozen
      then record { ok = false; member = m }
      else if not locked
      then record { ok = false; member = m }
      else if not done
      then record { ok = false; member = on_node n m }
      else record { ok = true; member = on_node (clear_tracking wiped n) m }

  -- The delete queue is emptied too, for which memory is always had.
  unfoldable pub ctdb_control_wipe_database : ℕ → Member d.State → Answer d.State
  ctdb_control_wipe_database transaction_id m =
      if not m.node.attached
      then record { ok = false; member = m }
      else if not m.frozen
      then record { ok = false; member = m }
      else if not m.freeze_transaction_started
      then record { ok = false; member = m }
      else if not (transaction_id == m.freeze_transaction_id)
      then record { ok = false; member = m }
      else elim (d.wipe m.node.store) [
        | none ↦ record { ok = false; member = m }
        | some t ↦ record { ok = true; member = on_node (record m.node { store = t }) m }
      ]
