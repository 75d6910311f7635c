-- ===== src/Persistent/Steps.antt =====
-- server/ctdb_persistent.c: the runs of the commits of a daemon.

use ctdb.Base.{ℕ, Bool, true, none, Option, List, []}
use ctdb.Persistent.Commit.{
  ctdb_control_start_persistent_update, ctdb_control_cancel_persistent_update, Client, Daemon,
  VnnNode, ctdb_persistent_callback, ctdb_persistent_store_timeout,
  ctdb_persistent_finish_trans3_commits, ctdb_request_control, ctdb_client_destructor,
}

abbrev pub at_start : List ℕ → (ℕ → Option Client) → Daemon
at_start db_list clients = record {
  recovery_normal = true;
  clients = clients;
  db_list = db_list;
  persistent_state = λ db. none;
  replies = [];
}

-- The states that can be reached: clients commit and go away, nodes answer, a commit times out, and recoveries begin and
-- end, in any order.
pub data Reached (vnn_map : List VnnNode) : Daemon → Type 0 where
  start :
      (db_list : List ℕ) (clients : ℕ → Option Client) → Reached vnn_map (at_start db_list clients)
  commit :
      {s : Daemon} (sends : ℕ → Bool) (c client db : ℕ)
      → Reached vnn_map s
      → Reached vnn_map (ctdb_request_control sends vnn_map c client db s)
  callback :
      {s : Daemon} (db pnn : ℕ) (ok : Bool)
      → Reached vnn_map s
      → Reached vnn_map (ctdb_persistent_callback db pnn ok s)
  timeout :
      {s : Daemon} (db : ℕ)
      → Reached vnn_map s
      → Reached vnn_map (ctdb_persistent_store_timeout db s)
  finish :
      {s : Daemon} → Reached vnn_map s → Reached vnn_map (ctdb_persistent_finish_trans3_commits s)
  disconnect :
      {s : Daemon} (client : ℕ)
      → Reached vnn_map s
      → Reached vnn_map (ctdb_client_destructor client s)
  start_update :
      {s : Daemon} (client : ℕ)
      → Reached vnn_map s
      → Reached vnn_map (ctdb_control_start_persistent_update client s).1
  cancel_update :
      {s : Daemon} (client : ℕ)
      → Reached vnn_map s
      → Reached vnn_map (ctdb_control_cancel_persistent_update client s).1
  recovery :
      {s : Daemon} (normal : Bool)
      → Reached vnn_map s
      → Reached vnn_map (record s { recovery_normal = normal })
