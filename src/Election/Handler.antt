-- ===== src/Election/Handler.antt =====
-- server/ctdb_recoverd.c: the messages of an election.
use ctdb.Base.{
  ℕ, ◌+◌, Bool, true, false, not, ◌&&◌, none, some, Option, List, [], ◌∷◌, ◌++◌, ◌==◌,
  if◌then◌else◌,
}
use ctdb.Election.Message.{
  NodeFlags, ElectionMessage, Recoverd, ctdb_election_data, ctdb_election_win,
}

-- The node asks itself for its election data, and remembers its flags.
unfoldable pub remember : Recoverd → Recoverd
remember r = record r { node_flags = (ctdb_election_data r).node_flags }

-- The node first takes itself for the winner, which `set` says succeeds.
unfoldable pub send_election_request : Bool → Recoverd → Recoverd
send_election_request set r = if not set then remember r else record (remember r) {
  recmaster = r.pnn;
  sent = r.sent ++ (ctdb_election_data r).message ∷ [];
}

-- The timer of `election_handler`
unfoldable pub election_send_request : Bool → Recoverd → Recoverd
election_send_request set r = record (send_election_request set r) { send_election_te = false }

unfoldable pub banned_nodes : ℕ → List NodeFlags → List ℕ
banned_nodes pnn [] = []
banned_nodes pnn (f ∷ fs) =
    let rest = banned_nodes (pnn + 1) fs in
    if not f.disconnected && f.banned then pnn ∷ rest else rest

abbrev pub to_unban : Option (List NodeFlags) → List ℕ
to_unban none = []
to_unban (some nodes) = banned_nodes 0 nodes

unfoldable pub unban_all_nodes : Recoverd → Recoverd
unban_all_nodes r = record r { unbanned = r.unbanned ++ to_unban r.nodemap }

-- The lock of the recovery master is released for another winner.
unfoldable pub release_lock : ElectionMessage → Recoverd → Recoverd
release_lock em r =
    if r.verify_recovery_lock && not (em.pnn == r.pnn) && r.holds_recovery_lock
    then unban_all_nodes (record r { holds_recovery_lock = false })
    else r

-- `set` says that the control that sets the recovery master succeeds.
unfoldable pub election_handler : Bool → ElectionMessage → Recoverd → Recoverd
election_handler set em r =
    let r' = record (remember r) { election_timeout = true } in
    if ctdb_election_win r em
    then record r' { send_election_te = true }
    else (let lost = release_lock em (record r' { send_election_te = false }) in
        if set then record lost { recmaster = em.pnn } else lost)
