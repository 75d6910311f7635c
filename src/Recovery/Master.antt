-- ===== src/Recovery/Master.antt =====
-- server/ctdb_recoverd.c: recover_database, with traverse_recdb and push_recdb_database. A control is sent
-- to all active nodes at once, and fails if it fails on one of them.
use ctdb.Base.{
  ℕ, Bool, true, false, not, ◌&&◌, ◌||◌, none, some, Option, List, [], ◌∷◌, if◌then◌else◌, map,
}
use ctdb.Dmaster.Header.{Rec}
use ctdb.Dmaster.Store.{is_empty}
use ctdb.Recovery.Database.{Value, short, full, Dbs}
use ctdb.Recovery.Control.{
  Member, Answer, ctdb_control_pull_db, ctdb_control_push_db, ctdb_control_wipe_database,
}
use ctdb.Recovery.Pull.{Remote, pull_remote_database}

-- A node of the node map, and what becomes of the controls that are sent to it: whether they arrive and
-- are answered in time, whether the locks can be marked, the traversal and the wiping of the tracking
-- database succeed, and what GET_DB_SEQNUM answers.
pub record Participant (T : Type 0) : Type 0 where
  pub inactive : Bool
  pub member : Member T
  pub reachable : Bool
  pub locked : Bool
  pub traversed : Bool
  pub wiped : Bool
  pub seqnum : Option ℕ

-- `hdr->dmaster = pnn; hdr->flags |= CTDB_REC_FLAG_MIGRATED_WITH_DATA`
unfoldable pub claim : ℕ → Rec → Rec
claim pnn r =
    let h = r.header in
    record r {
      header = record h { dmaster = pnn; flags = record h.flags { migrated_with_data = true } };
    }

-- One record of the recovery database, as it is pushed; empty ones are skipped.
unfoldable pub traverse_value : ℕ → Bool → Value → Option Value
traverse_value pnn persistent (short bytes) = if not persistent then none else some (short bytes)
traverse_value pnn persistent (full r) =
    if not persistent && is_empty r.body
    then none
    else if not persistent
    then some (full (claim pnn r))
    else some (full r)

unfoldable pub traverse_recdb : ℕ → Bool → List (ℕ × Value) → List (ℕ × Value)
traverse_recdb pnn persistent [] = []
traverse_recdb pnn persistent ((k, v) ∷ rs) =
    let rest = traverse_recdb pnn persistent rs in
    elim (traverse_value pnn persistent v) [ none ↦ rest | some w ↦ (k, w) ∷ rest ]

module _ (d : Dbs) where
  abbrev pub remote : Participant d.State → Remote
  remote p = record {
    pnn = p.member.node.pnn;
    inactive = p.inactive;
    seqnum = p.seqnum;
    pulldb = if p.reachable then ctdb_control_pull_db d p.locked p.traversed p.member else none;
  }

  -- What an active node makes of a control.
  abbrev Handler : Type 0
  Handler = Participant d.State → Answer d.State

  abbrev pub answered : Handler → Participant d.State → Participant d.State
  answered f p = if p.inactive || not p.reachable then p else record p { member = (f p).member }

  abbrev pub succeeded : Handler → Participant d.State → Bool
  succeeded f p = p.inactive || p.reachable && (f p).ok

  unfoldable pub all_succeeded : Handler → List (Participant d.State) → Bool
  all_succeeded f [] = true
  all_succeeded f (p ∷ ps) = succeeded f p && all_succeeded f ps

  abbrev pub push : List (ℕ × Value) → Handler
  push records p = ctdb_control_push_db d p.locked p.wiped records p.member

  abbrev pub wipe : ℕ → Handler
  wipe transaction_id p = ctdb_control_wipe_database d transaction_id p.member

  -- Whether the function returns 0, and the nodes.
  pub record Recovered : Type 0 where
    pub ok : Bool
    pub nodes : List (Participant d.State)

  unfoldable pub push_recdb_database :
      (pnn : ℕ) (persistent : Bool) → d.State → List (Participant d.State) → Recovered
  push_recdb_database pnn persistent recdb nodes =
      let handler = push (traverse_recdb pnn persistent (d.traverse recdb)) in
      record { ok = all_succeeded handler nodes; nodes = map (answered handler) nodes }

  -- `by_seqnum` is the tunable `recover_pdb_by_seqnum`, `arrive` the order in which the nodes answer to GET_DB_SEQNUM.
  unfoldable pub recover_database :
      (by_seqnum : Bool) (arrive : List Remote → List Remote) (recovery_master pnn : ℕ)
      (persistent : Bool) (transaction_id : ℕ)
      → List (Participant d.State)
      → Recovered
  recover_database by_seqnum arrive recovery_master pnn persistent transaction_id nodes =
      let pulled =
        pull_remote_database d by_seqnum recovery_master persistent (arrive (map remote nodes))
          (map remote nodes) d.empty in
      let wiped = map (answered (wipe transaction_id)) nodes in
      if not pulled.ok
      then record { ok = false; nodes = nodes }
      else if not (all_succeeded (wipe transaction_id) nodes)
      then record { ok = false; nodes = wiped }
      else push_recdb_database pnn persistent pulled.recdb wiped
