-- ===== src/Recovery/Tests.antt =====
-- A recovery of three nodes, of which one is inactive, and the theorems at it.
use ctdb.Base.{
  ℕ, ◌≡◌, refl, inl, inr, Bool, true, false, Option, none, some, List, [], ◌∷◌, ◌==◌, All, if-elim,
  if◌then◌else◌, arith,
}
use ctdb.Dmaster.Header.{Rec, no_flags}
use ctdb.Dmaster.Node.{Node}
use ctdb.Recovery.Database.{Value, full, to_list, Dbs}
use ctdb.Recovery.Memory.{Entries, memory, lookup}
use ctdb.Recovery.Merge.{Best}
use ctdb.Recovery.Master.{Participant, recover_database}
use ctdb.Recovery.Agreement.{held_at}
use ctdb.Recovery.Pull.{Remote, pull_one_remote_database, pull_all, pull_remote_database}
use ctdb.Recovery.Seqnum.{pull_remote_database-by_seqnum}
use ctdb.Recovery.Outcome.{Holds, recover_database-merges}
use ctdb.Recovery.Success.{IsFull, Reliable, Ready, Willing}
use ctdb.Recovery.Completion.{recover_database-succeeds}

abbrev small : Dbs
small = record { tdbs = memory; hash = λ k. k; call_fn = λ id. none }

abbrev in_order : List Remote → List Remote
in_order nodes = nodes

abbrev frozen_node : ℕ → Entries → Node Entries
frozen_node pnn entries = record {
  pnn = pnn;
  vnn_map = 0 ∷ 1 ∷ [];
  transport = true;
  attached = true;
  persistent = false;
  sticky = false;
  readonly = false;
  transaction = false;
  hopcount_make_sticky = 50;
  store = entries;
  locks = 0;
  recovery = true;
  sticky_record = none;
  tracking = [];
  find_call = λ id. none;
  sent = [];
  waiting = [];
  deferred = [];
  notes = [];
}

abbrev participant : ℕ → Bool → Entries → Participant Entries
participant pnn inactive entries = record {
  inactive = inactive;
  member = record {
    node = frozen_node pnn entries;
    frozen = true;
    freeze_transaction_started = true;
    freeze_transaction_id = 7;
  };
  reachable = true;
  locked = true;
  traversed = true;
  wiped = true;
  seqnum = none;
}

abbrev rec : (rsn dmaster byte : ℕ) → Rec
rec rsn dmaster byte = record {
  header = record { rsn = rsn; dmaster = dmaster; flags = no_flags };
  body = byte ∷ [];
}

abbrev value : (rsn dmaster byte : ℕ) → Value
value rsn dmaster byte = full (rec rsn dmaster byte)

-- Key 5 is newest on node 1, key 6 is on one node only; node 2 is inactive.
abbrev old_nodes : List (Participant Entries)
old_nodes =
    participant 0 false ((5, value 3 0 10) ∷ [])
    ∷ participant 1 false ((5, value 4 1 11) ∷ (6, value 1 1 12) ∷ [])
    ∷ participant 2 true ((5, value 9 2 13) ∷ [])
    ∷ []

memory-Reliable : Reliable small
memory-Reliable = record { stores = λ s k r. ((k, full r) ∷ s, refl); wipes = λ s. ([], refl) }

abbrev HasFull : Entries → Type 0
HasFull s = (k : ℕ) → All IsFull (to_list (lookup s k))

empty-HasFull : HasFull []
unfolding lookup
empty-HasFull k = tt

cons-HasFull : (j : ℕ) (r : Rec) (s : Entries) → HasFull s → HasFull ((j, full r) ∷ s)
unfolding lookup
cons-HasFull j r s h k =
    if-elim (λ o. All IsFull (to_list o)) (j == k) (some (full r)) (lookup s k) (λ _. (tt, tt))
      (λ _. h k)

ready :
    (pnn : ℕ) (s : Entries) → HasFull s → Ready small memory-Reliable 7 (participant pnn false s)
ready pnn s h = record {
  reachable = refl;
  locked = refl;
  traversed = refl;
  attached = refl;
  frozen = refl;
  started = refl;
  transaction = refl;
  full = h;
}

nodes-Willing : All (Willing small memory-Reliable 7) old_nodes
nodes-Willing = (
  inr (ready 0 _ (cons-HasFull 5 (rec 3 0 10) [] empty-HasFull)),
  (
    inr (ready 1 _ (cons-HasFull 5 (rec 4 1 11) _ (cons-HasFull 6 (rec 1 1 12) [] empty-HasFull))),
    (inl refl, tt),
  ),
)

recover_database-succeeds_example :
    (recover_database small false in_order 0 0 false 7 old_nodes).ok ≡ true
recover_database-succeeds_example =
    recover_database-succeeds small memory-Reliable false in_order 0 0 7 old_nodes nodes-Willing

recover_database-merges_example :
    (chosen : Option Value) × Best 0 (held_at small 5 old_nodes) chosen
    × All
        (Holds small 5 0 chosen)
        (recover_database small false in_order 0 0 false 7 old_nodes).nodes
recover_database-merges_example =
    recover_database-merges small false in_order 0 0 7 5 old_nodes (refl, (refl, (refl, tt)))
      recover_database-succeeds_example

abbrev remote_node : (pnn seqnum : ℕ) → Bool → List (ℕ × Value) → Remote
remote_node pnn seqnum inactive records = record {
  pnn = pnn;
  inactive = inactive;
  seqnum = some seqnum;
  pulldb = some records;
}

-- Node 1 is behind, node 2 has the highest number, node 3 as well, and node 4 is inactive.
abbrev newest : Remote
newest = remote_node 2 5 false ((5, value 4 2 21) ∷ [])

abbrev newest_after : List Remote
newest_after = remote_node 3 5 false ((5, value 4 3 22) ∷ []) ∷ remote_node 4 9 true [] ∷ []

-- The node map, and the order in which the nodes answer.
abbrev persistent_nodes : List Remote
persistent_nodes = newest ∷ remote_node 1 3 false ((5, value 6 1 20) ∷ []) ∷ newest_after

abbrev arrived : List Remote
arrived = remote_node 1 3 false ((5, value 6 1 20) ∷ []) ∷ newest ∷ newest_after

pull_remote_database-by_seqnum_example :
    pull_remote_database small true 0 true arrived persistent_nodes [] ≡ (
      let p = pull_one_remote_database small 0 newest [] in
      if p.ok then p else pull_all small 0 persistent_nodes p.recdb)
pull_remote_database-by_seqnum_example =
    pull_remote_database-by_seqnum small 0 5 (remote_node 1 3 false ((5, value 6 1 20) ∷ []) ∷ [])
      newest_after persistent_nodes newest [] refl (inr (3, refl, omega arith), tt)
      (inr (5, refl, omega arith), (inl refl, tt)) refl refl (omega arith)
