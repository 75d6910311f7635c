-- ===== src/Dmaster/Tests.antt =====
-- Concrete runs of the dmaster protocol, and the theorems at concrete clusters.
use ctdb.Base.{ℕ, ◌≡◌, refl, arith, Bool, true, false, Option, none, some, List, [], ◌∷◌, get_or}
use ctdb.Dmaster.Header.{req_call, ReplyCall, Rec, ReqCall, no_flags}
use ctdb.Dmaster.Node.{Tdb, Env, Node, CallStatus, Lock, send, note, lock, unlock, ctdb_lmaster}
use ctdb.Dmaster.Store.{
  ctdb_ltdb_store_server, keep_record, stored_header, write, remove, dropped_header, schedules,
  ctdb_ltdb_fetch,
}
use ctdb.Dmaster.Call.{
  hop_count_bucket, ctdb_call_send_dmaster, ctdb_send_dmaster_reply, ctdb_request_dmaster,
  accept_dmaster, ctdb_reply_dmaster, ctdb_become_dmaster, owned_header, run_waiting_call,
}
use ctdb.Dmaster.Request.{
  ctdb_request_call, locked_call, clear_revoked, serve_call, count_hops, migrate_or_answer,
}
use ctdb.Dmaster.Ownership.{weight, carried, owned_here, tokens, token}
use ctdb.Dmaster.Writes.{owns, Stores, store-Stores}
use ctdb.Dmaster.Cluster.{
  Cluster, Event, arrive, retry, ask, run, step, take_packet, handle, handle_own, queue, dequeue,
  remove_at, destnode, ctdb_input_pkt,
}
use ctdb.Dmaster.Reliable.{Reliable}
use ctdb.Dmaster.Transfer.{Answers, request_call-keeps_lock}
use ctdb.Dmaster.Released.{input_pkt-Locks}
use ctdb.Dmaster.Reply.{ctdb_reply_call}
use ctdb.Dmaster.Copies.{Keeps, reply_call-Keeps}
use ctdb.Dmaster.Exclusive.{total, asked, asked_by, run-one_owner}

memory_fetch-store : (t : Option Rec) (r : Rec) → some (some r) ≡ some t → t ≡ some r
memory_fetch-store t r q = cc

memory_fetch-delete : (t : Option Rec) → some none ≡ some t → t ≡ none
memory_fetch-delete t q = cc

-- A file that holds one record, and never fails.
abbrev memory : Tdb
memory = record {
  State = Option Rec;
  fetch = λ s. s;
  store = λ s r. some (some r);
  delete = λ s. some none;
  fetch-store = λ s t r q. memory_fetch-store t r q;
  fetch-delete = λ s t q. memory_fetch-delete t q;
}

-- The key's hash is 1, so that node 1 is the lmaster.
abbrev small : Env
small = record { tdb = memory; key = 77; key_hash = 1; call_fn = λ id. none }

abbrev idle_node : ℕ → Option Rec → Node (Option Rec)
idle_node pnn stored = record {
  pnn = pnn;
  vnn_map = 0 ∷ 1 ∷ 2 ∷ [];
  transport = true;
  attached = true;
  persistent = false;
  sticky = false;
  readonly = false;
  transaction = false;
  hopcount_make_sticky = 50;
  store = stored;
  locks = 0;
  recovery = false;
  sticky_record = none;
  tracking = [];
  find_call = λ id. none;
  sent = [];
  waiting = [];
  deferred = [];
  notes = [];
}

-- The record as the lmaster and its dmaster, node 0, have it.
abbrev owned_by_0 : Rec
owned_by_0 = record { header = record { rsn = 5; dmaster = 0; flags = no_flags }; body = 9 ∷ [] }

abbrev three_nodes : Cluster small
three_nodes = idle_node 0 (some owned_by_0) ∷ idle_node 1 (some owned_by_0) ∷ idle_node 2 none ∷ []

abbrev request_of_2 : ReqCall
request_of_2 = record {
  destnode = 0;
  srcnode = 2;
  reqid = 3;
  key = 77;
  callid = 0xff000002;
  want_readonly = false;
  hopcount = 0;
}

-- Node 2 asks node 0, which sends the record to the lmaster, which sends it on.
abbrev migration : List Event
migration =
    ask 2 request_of_2
    ∷ arrive 2 0 0 Lock.got
    ∷ arrive 0 0 1 Lock.contended
    ∷ retry 1 0 Lock.got
    ∷ arrive 1 0 2 Lock.got
    ∷ []

abbrev owners : Cluster small → List Bool
owners [] = []
owners (n ∷ c) = owns small n ∷ owners c

-- The code that the tests run.
unfoldable dmaster_code : Unit {0}
unfolding run step take_packet handle handle_own queue dequeue remove_at destnode ctdb_input_pkt
    owns send note lock unlock ctdb_lmaster ctdb_request_call locked_call clear_revoked serve_call
    count_hops hop_count_bucket migrate_or_answer ctdb_call_send_dmaster ctdb_send_dmaster_reply
    ctdb_request_dmaster accept_dmaster ctdb_reply_dmaster ctdb_become_dmaster owned_header
    run_waiting_call ctdb_ltdb_store_server keep_record stored_header write remove dropped_header
    schedules ctdb_ltdb_fetch total weight carried owned_here tokens token asked asked_by
dmaster_code = tt

migrated : owners (run small three_nodes migration) ≡ false ∷ false ∷ true ∷ []
unfolding dmaster_code
migrated = refl

abbrev new_owner : Node (Option Rec)
new_owner = get_or (run small three_nodes migration) 2 (idle_node 2 none)

run-one_owner_example : ◌≡◌ {A = ℕ} 2 2
unfolding dmaster_code
run-one_owner_example =
    run-one_owner small three_nodes migration 2 2 new_owner new_owner (omega arith)
      (refl, (refl, (refl, (refl, (refl, tt))))) refl refl refl refl

abbrev dmaster_node : Node (Option Rec)
dmaster_node = idle_node 0 (some owned_by_0)

-- The database is in a transaction.
abbrev busy_node : Node (Option Rec)
busy_node = record (idle_node 0 (some owned_by_0)) { transaction = true }

busy-Answers : Answers small busy_node request_of_2 owned_by_0
unfolding dmaster_code
busy-Answers = record {
  transport = refl;
  attached = refl;
  sticky = refl;
  stored = refl;
  no_copies = refl;
  dmaster = refl;
  elsewhere = refl;
  want = refl;
}

request_call-keeps_lock_example :
    (m : Node (Option Rec)) × (ctdb_request_call small busy_node Lock.got request_of_2 ≡ some m)
    × (m.locks ≡ 1)
    × (m.sent ≡ [])
    × (m.waiting ≡ [])
    × (m.deferred ≡ [])
unfolding dmaster_code
request_call-keeps_lock_example =
    request_call-keeps_lock small busy_node request_of_2 owned_by_0 busy-Answers refl

-- The lmaster stores an empty record that it gives away, and keeps it.
store-Stores_example :
    Stores small
      (idle_node 1 none)
      (record { rsn = 5; dmaster = 0; flags = record no_flags { vacuum_migrated = true } })
      (ctdb_ltdb_store_server small
        (idle_node 1 none)
        (record { rsn = 5; dmaster = 0; flags = record no_flags { vacuum_migrated = true } })
        [])
store-Stores_example =
    store-Stores small (idle_node 1 none)
      (record { rsn = 5; dmaster = 0; flags = record no_flags { vacuum_migrated = true } }) []

abbrev after_request : Node (Option Rec)
after_request = elim (ctdb_input_pkt small dmaster_node Lock.got (req_call request_of_2)) [
  | none ↦ dmaster_node
  | some m ↦ m
]

input_pkt-Locks_example : after_request.locks ≡ dmaster_node.locks
unfolding dmaster_code
input_pkt-Locks_example =
    input_pkt-Locks small dmaster_node after_request Lock.got (req_call request_of_2) refl refl

-- Node 2 waits for an answer to a fetch with the header.
abbrev waiting_node : Node (Option Rec)
waiting_node = record (idle_node 2 none) {
  find_call = λ id. some (record {
    reqid = 3;
    key = 77;
    callid = 0xff000003;
    vacuum_migration = false;
    status = CallStatus.wait;
  });
}

abbrev copy_for_2 : ReplyCall
copy_for_2 = record {
  destnode = 2;
  reqid = 3;
  status = 0;
  delegation =
      some (record { rsn = 7; dmaster = 0; flags = record no_flags { ro_have_readonly = true } });
  body = 9 ∷ [];
}

reply_call-Keeps_example :
    Keeps small waiting_node copy_for_2 (ctdb_reply_call small waiting_node Lock.got copy_for_2)
reply_call-Keeps_example = reply_call-Keeps small waiting_node Lock.got copy_for_2
