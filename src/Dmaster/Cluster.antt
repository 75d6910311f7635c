-- ===== src/Dmaster/Cluster.antt =====
-- The nodes of a cluster and the packets between them: `ctdb_input_pkt` of server/ctdb_server.c, and
-- the queues of server/ctdb_ltdb_server.c and server/ctdb_call.c from which packets are handled again.
-- The packets that a node has sent stay with it until they arrive, in any order.
use ctdb.Base.{ℕ, zero, suc, ◌==◌, Option, none, some, List, [], ◌∷◌, get_elem?, set, if◌then◌else◌}
use ctdb.Dmaster.Header.{
  Packet, ReqCall, req_call, req_dmaster, reply_dmaster, reply_call, reply_error,
}
use ctdb.Dmaster.Node.{Env, Lock, send}
use ctdb.Dmaster.Call.{N, ctdb_request_dmaster, ctdb_reply_dmaster, ctdb_reply_error}
use ctdb.Dmaster.Reply.{ctdb_reply_call}
use ctdb.Dmaster.Request.{ctdb_request_call}

unfoldable pub destnode : Packet → ℕ
destnode (req_call c) = c.destnode
destnode (req_dmaster c) = c.destnode
destnode (reply_dmaster c) = c.destnode
destnode (reply_call c) = c.destnode
destnode (reply_error c) = c.destnode

unfoldable pub remove_at : List Packet → ℕ → List Packet
remove_at [] k = []
remove_at (p ∷ ps) zero = ps
remove_at (p ∷ ps) (suc k) = p ∷ remove_at ps k

-- What happens next: a packet that node `sender` has sent arrives, a packet that waits for the
-- record's lock or was deferred is handled again, a packet is lost on its way or refused (by a banned
-- node, or for its generation), a waiting packet is discarded for its generation, or a node asks for the record for a client.
pub data Event : Type 0 where
  arrive : (sender k receiver : ℕ) (l : Lock) → Event
  retry resume : (receiver k : ℕ) (l : Lock) → Event
  lose discard : (node k : ℕ) → Event
  ask : (node : ℕ) (c : ReqCall) → Event

module _ (e : Env) where
  abbrev pub Cluster : Type 0
  Cluster = List (N e)

  -- The packets of the protocol.
  unfoldable pub ctdb_input_pkt : N e → Lock → Packet → Option (N e)
  ctdb_input_pkt n l (req_call c) = ctdb_request_call e n l c
  ctdb_input_pkt n l (req_dmaster c) = ctdb_request_dmaster e n l c
  ctdb_input_pkt n l (reply_dmaster c) = ctdb_reply_dmaster e n l c
  ctdb_input_pkt n l (reply_call c) = some (ctdb_reply_call e n l c)
  ctdb_input_pkt n l (reply_error c) = some (ctdb_reply_error e n c)

  -- Node `i` handles the packet; a node that ends in ctdb_fatal takes no step.
  unfoldable pub handle : Cluster → ℕ → Lock → Packet → Option Cluster
  handle c i l p = elim (get_elem? c i) [
    | none ↦ none
    | some n ↦ elim (ctdb_input_pkt n l p) [ none ↦ none | some m ↦ some (set c i m) ]
  ]

  -- Node `i`, if the packet is for it.
  unfoldable pub handle_own : Cluster → ℕ → Lock → Packet → Option Cluster
  handle_own c i l p = elim (get_elem? c i) [
    | none ↦ none
    | some n ↦ if n.pnn == destnode p then handle c i l p else none
  ]

  pub data Queue : Type 0 where
    sent waiting deferred : Queue

  unfoldable pub queue : Queue → N e → List Packet
  queue sent n = n.sent
  queue waiting n = n.waiting
  queue deferred n = n.deferred

  unfoldable pub dequeue : Queue → ℕ → N e → N e
  dequeue sent k n = record n { sent = remove_at n.sent k }
  dequeue waiting k n = record n { waiting = remove_at n.waiting k }
  dequeue deferred k n = record n { deferred = remove_at n.deferred k }

  -- The packet at `k` of a queue of node `i`, and the cluster without it.
  unfoldable pub take_packet : Cluster → ℕ → Queue → ℕ → Option (Packet × Cluster)
  take_packet c i q k = elim (get_elem? c i) [
    | none ↦ none
    | some n ↦ elim (get_elem? (queue q n) k) [
      | none ↦ none
      | some p ↦ some (p, set c i (dequeue q k n))
    ]
  ]

  unfoldable pub step : Cluster → Event → Option Cluster
  step c (arrive i k j l) = elim (take_packet c i sent k) [
    | none ↦ none
    | some (p, d) ↦ handle_own d j l p
  ]
  step c (retry i k l) = elim (take_packet c i waiting k) [
    | none ↦ none
    | some (p, d) ↦ handle d i l p
  ]
  step c (resume i k l) = elim (take_packet c i deferred k) [
    | none ↦ none
    | some (p, d) ↦ handle d i l p
  ]
  step c (lose i k) = elim (take_packet c i sent k) [ none ↦ none | some (p, d) ↦ some d ]
  step c (discard i k) = elim (take_packet c i waiting k) [ none ↦ none | some (p, d) ↦ some d ]
  step c (ask i r) = elim (get_elem? c i) [
    | none ↦ none
    | some n ↦ some (set c i (send (req_call r) n))
  ]

  -- An event that cannot happen is passed over.
  unfoldable pub run : Cluster → List Event → Cluster
  run c [] = c
  run c (x ∷ xs) = run (elim (step c x) [ none ↦ c | some d ↦ d ]) xs
