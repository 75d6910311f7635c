-- ===== src/Persistent/Tests.antt =====
-- A transaction that two of three nodes are asked to write, and two nodes that are asked for their sequence numbers.
use ctdb.Base.{
  inr, ◌≢◌, ◌⊎◌, if◌then◌else◌, none, arith, Option, ℕ, ◌≡◌, refl, inl, true, false, some, List, [],
  ◌∷◌, All,
}
use ctdb.Persistent.Commit.{
  ctdb_request_control, Client, SentControl, acknowledged, CommitReply, Daemon, VnnNode,
  answer_control, persistent_callback, ctdb_persistent_callback, ctdb_persistent_state_destructor,
  send_updates, ctdb_control_trans3_commit,
}
use ctdb.PacketQueue.Word.{load32}
use ctdb.Dmaster.Header.{no_flags}
use ctdb.Dmaster.Node.{Node}
use ctdb.Recovery.Database.{Value, values_at, full, Dbs, at_key}
use ctdb.Recovery.Memory.{Entries, memory, lookup}
use ctdb.Recovery.Pull.{Remote, pull_one_remote_database, pull_all, pull_remote_database}
use ctdb.Persistent.Seqnum.{load64, ctdb_control_get_db_seqnum, answered}
use ctdb.Persistent.Update.{Child, ctdb_control_update_record}
use ctdb.Persistent.Stored.{body_of, latest}
use ctdb.Persistent.Atomic.{update_record-Atomic}
use ctdb.Persistent.Recovered.{pull_remote_database-by_low_byte}
use ctdb.Persistent.Steps.{at_start, Reached, start, commit, callback}
use ctdb.Persistent.Controls.{Acknowledged, pnns, active}
use ctdb.Persistent.Acknowledged.{status_0-Acknowledged}

-- The second node is inactive.
abbrev nodes : List VnnNode
nodes =
    record { pnn = 0; inactive = false }
    ∷ record { pnn = 1; inactive = true }
    ∷ record { pnn = 2; inactive = false }
    ∷ []

abbrev clients : ℕ → Option Client
clients client = some (record { db_id = 0; num_persistent_updates = 0 })

abbrev before : Daemon
before = at_start (5 ∷ []) clients

abbrev after : Daemon
after =
    ctdb_persistent_callback 5 0 true
      (ctdb_persistent_callback 5 2 true (ctdb_request_control (λ node. true) nodes 100 1 5 before))

abbrev run : Reached nodes after
run = callback 5 0 true (callback 5 2 true (commit (λ node. true) 100 1 5 (start (5 ∷ []) clients)))

abbrev control : ℕ → SentControl
control pnn = record { pnn = pnn; outcome = acknowledged }

abbrev succeeded : CommitReply
succeeded = record { c = 100; status = 0; controls = control 0 ∷ control 2 ∷ [] }

replied : after.replies ≡ succeeded ∷ []
unfolding ctdb_persistent_callback ctdb_request_control ctdb_control_trans3_commit answer_control
    persistent_callback ctdb_persistent_state_destructor send_updates
replied = refl

status_0-Acknowledged_example :
    All Acknowledged succeeded.controls × (pnns succeeded.controls ≡ active nodes)
unfolding ctdb_persistent_callback ctdb_request_control ctdb_control_trans3_commit answer_control
    persistent_callback ctdb_persistent_state_destructor send_updates
status_0-Acknowledged_example = status_0-Acknowledged nodes after succeeded run (inl refl) refl

abbrev entries : Dbs
entries = record { tdbs = memory; hash = λ k. k; call_fn = λ id. none }

-- The file of a persistent database that has nothing but its number, under the key 9.
abbrev numbered : List ℕ → Entries
numbered bytes =
    (9, full (record { header = record { rsn = 1; dmaster = 0; flags = no_flags }; body = bytes }))
    ∷ []

abbrev node_with : Entries → Node Entries
node_with s = record {
  pnn = 0;
  vnn_map = 0 ∷ 1 ∷ [];
  transport = true;
  attached = true;
  persistent = true;
  sticky = false;
  readonly = false;
  transaction = false;
  hopcount_make_sticky = 50;
  store = s;
  locks = 0;
  recovery = true;
  sticky_record = none;
  tracking = [];
  find_call = λ id. none;
  sent = [];
  waiting = [];
  deferred = [];
  notes = [];
}

-- The numbers 255 and 256.
abbrev number_255 : List ℕ
number_255 = 255 ∷ 0 ∷ 0 ∷ 0 ∷ 0 ∷ 0 ∷ 0 ∷ 0 ∷ []

abbrev number_256 : List ℕ
number_256 = 0 ∷ 1 ∷ 0 ∷ 0 ∷ 0 ∷ 0 ∷ 0 ∷ 0 ∷ []

abbrev remote : (pnn : ℕ) → List ℕ → Remote
remote pnn bytes = record {
  pnn = pnn;
  inactive = false;
  seqnum =
      answered (ctdb_control_get_db_seqnum (at_key entries 9) (some (node_with (numbered bytes))));
  pulldb = some (numbered bytes);
}

pull_remote_database-by_low_byte_example :
    pull_remote_database entries true 0 true
      (remote 1 number_256 ∷ remote 0 number_255 ∷ [])
      (remote 0 number_255 ∷ remote 1 number_256 ∷ [])
      []
    ≡ (let r = pull_one_remote_database entries 0 (remote 0 number_255) [] in
        if r.ok
        then r
        else pull_all entries 0 (remote 0 number_255 ∷ remote 1 number_256 ∷ []) r.recdb)
unfolding lookup load64 load32
pull_remote_database-by_low_byte_example =
    pull_remote_database-by_low_byte entries 9 (node_with (numbered number_255))
      (node_with (numbered number_256))
      (record { header = record { rsn = 1; dmaster = 0; flags = no_flags }; body = number_255 })
      (record { header = record { rsn = 1; dmaster = 0; flags = no_flags }; body = number_256 })
      (remote 0 number_255) (remote 1 number_256) (remote 1 number_256 ∷ remote 0 number_255 ∷ []) 0
      [] refl refl refl refl refl (ground arith) (inr refl)

abbrev working : Child
working = record { forked = true; starts = true; commits = true; reads = true }

abbrev with_rsn : (rsn byte : ℕ) → Value
with_rsn rsn byte =
    full (record { header = record { rsn = rsn; dmaster = 0; flags = no_flags }; body = byte ∷ [] })

-- Two records of one key, and one of another key.
abbrev updates : List (ℕ × Value)
updates = (5, with_rsn 2 10) ∷ (5, with_rsn 3 11) ∷ (6, with_rsn 2 12) ∷ []

abbrev updated : Option ℕ × Node Entries
updated =
    ctdb_control_update_record entries working true true updates (node_with (numbered number_255))

update_record-Atomic_example :
    ((updated.0 ≡ some 0)
      × ((k : ℕ)
          → body_of (lookup updated.1.store k)
            ≡ latest (values_at k updates) (body_of (lookup (numbered number_255) k))))
    ⊎ ((updated.0 ≢ some 0) × (updated.1.store ≡ numbered number_255))
update_record-Atomic_example =
    update_record-Atomic entries working true true updates (node_with (numbered number_255)) refl
      refl
