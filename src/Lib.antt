-- ===== src/Lib.antt =====
-- ctdb, the clustered database daemon behind Samba. Every node runs ctdbd (server/ctdbd.c), which keeps
-- the volatile and persistent databases of the cluster in local tdb files, moves records between the
-- nodes, and assigns the public IP addresses of the cluster to its healthy nodes.
--
-- These parts of the daemon are modelled.
--
-- Takeover: the allocation of public addresses in server/ctdb_takeover.c, which the recovery master runs.
--   Takeover.Address   ctdb_sock_addr, ctdb_same_ip (common/ctdb_util.c), ip_key, ip_distance
--   Takeover.Nodes     the state of the nodes and set_ipflags_internal
--   Takeover.Basic     can_node_host_ip, can_node_takeover_ip, find_takeover_node, basic_failback,
--                      unassign_unsuitable_ips, ip_alloc_deterministic_ips
--   Takeover.Lcp2      ip_distance_2_sum, lcp2_imbalance, lcp2_init, lcp2_allocate_unassigned
--   Takeover.Failback  lcp2_failback_candidate, lcp2_failback
--   Takeover.Run       ip_alloc_lcp2, ip_alloc_nondeterministic_ips, ctdb_takeover_run_core
-- An assignment is a list of addresses, each with a node or with none (pnn -1). The loops of the source
-- that run until nothing changes take fuel; the termination theorems say how much is enough: the exact
-- imbalance of the assignment for LCP2, and retries are bounded by the source for the basic algorithm.
-- qsort is a parameter, of which only that it returns a permutation is used, and so is the set of
-- addresses that each node can host, as the nodes report it. Distances are computed modulo 2 ^ 32 as in C;
-- the theorems on LCP2 ask that no sum reaches that. The proofs are in Energy, Moves, Places, Placed,
-- Coverage, Assign, Balance, Active, Distance and Theorems.
--
-- Dmaster: the ownership of a record, in server/ctdb_call.c and server/ctdb_ltdb_server.c. Each record has
-- a dmaster, the one node that may write it, and an lmaster, fixed by the key's hash, that keeps track of
-- the dmaster. A node that wants the record sends a call there; the dmaster gives it up to the lmaster, and the
-- lmaster passes it on.
--   Dmaster.Header     the record's header, its flags and the packets (include/ctdb_protocol.h)
--   Dmaster.Node       one node, as far as one record of one database concerns it
--   Dmaster.Store      ctdb_ltdb_store_server, ctdb_ltdb_fetch (common/ctdb_ltdb.c), ltdb_initial_header
--   Dmaster.Call       ctdb_request_dmaster, ctdb_reply_dmaster, ctdb_become_dmaster, ctdb_send_dmaster_reply,
--                      ctdb_call_send_dmaster, ctdb_call_local (client/ctdb_client.c), ctdb_reply_error
--   Dmaster.Request    ctdb_request_call, with the delegation and the revoke of read-only copies
--   Dmaster.Reply      ctdb_reply_call, which stores read-only copies
--   Dmaster.Cluster    ctdb_input_pkt (server/ctdb_server.c) and the nodes with the packets between them
-- A handler takes a node, the outcome of the attempt to lock the record, and a packet, and returns the node
-- with the packets that it sent; it returns nothing where the source ends in ctdb_fatal. The file below
-- (the library tdb), the hash of the key and the registered call functions are parameters. In the cluster
-- a packet stays with its sender until it arrives, in any order, or is lost. The proofs are in Writes,
-- Ownership, Handover, Branches, Served, Copied and Exclusive for the number of owners, in Reliable,
-- Transfer, Data and Arrival for the migration of one record, in Copies for read-only copies, and in Locks and
-- Released for the locks.
--
-- PacketQueue: the queue of packets on a socket, in common/ctdb_io.c, by which the nodes and the clients talk.
--   PacketQueue.Word      the length in front of a packet
--   PacketQueue.Input     queue_io_read, queue_process, queue_process_event
--   PacketQueue.Output    ctdb_queue_send, queue_io_write, ctdb_queue_set_fd
--   PacketQueue.Loop      the event loop around the input side
--   PacketQueue.Outbound  the steps of the output side, over any number of connections
-- The socket is a list of bytes; how many of them are ready, and how many a read or a write takes, is an
-- argument, and so is the failure of a write. Four steps of the event loop for a byte of the stream are
-- enough. The proofs are in Frames, Reading, Socket and Loop for the input, in Sending and Outbound for the
-- output, and in Delivery for both.
--
-- Recovery: the recovery of one database, in server/ctdb_recoverd.c, server/ctdb_recover.c and
-- server/ctdb_freeze.c, by which the recovery master collects the records of all nodes, wipes the database on
-- all of them, and gives them the records back.
--   Recovery.Database  the tdb files, as an interface with laws, and the values in them
--   Recovery.Control   ctdb_control_pull_db, ctdb_control_push_db, ctdb_control_wipe_database
--   Recovery.Pull      pull_one_remote_database, pull_highest_seqnum_pdb, pull_remote_database
--   Recovery.Master    traverse_recdb, push_recdb_database, recover_database
-- A node stores what is pushed to it by ctdb_ltdb_store_server of Dmaster.Store. Which nodes are reached in
-- time and which calls fail is part of the nodes' state. The proofs are in Merge, Push, Agreement and Outcome
-- for the records, in Success and Completion for the success, and in Seqnum for the choice of the node that a
-- persistent database is taken from; Memory is a tdb for the examples.
--
-- Election: the election of the recovery master, in server/ctdb_recoverd.c.
--   Election.Message  the election data of a node, and ctdb_election_win
--   Election.Handler  send_election_request, election_send_request, election_handler, unban_all_nodes
-- A message is handled at a time at which the node map and the capabilities are part of the node's state.
-- Order shows that the criteria order the messages, Leader that there is a winner, Settled that the nodes
-- settle on it.
--
-- Freeze: the freeze of the databases before a recovery, in server/ctdb_freeze.c.
--   Freeze.State        the handles of the priorities, their waiters, and the controls that freeze and thaw
--   Freeze.Transaction  the transaction on all databases
--   Freeze.Steps        the runs, with the requests that were put off
-- The lock child is an event, tdb's answers are arguments. The proofs are in Invariant and Guarded for the
-- modes, in Answered for the requests, and in Abandoned for the transactions that are cancelled.
--
-- Marshall: the buffer that carries records between the nodes, in common/ctdb_util.c, byte for byte, on a
-- little-endian host.
--   Marshall.Record     ctdb_marshall_record
--   Marshall.Buffer     ctdb_marshall_add, ctdb_marshall_finish, ctdb_marshall_loop_next
--   Marshall.RoundTrip  what is read back
--
-- Lock: the locks that child processes wait for, in server/ctdb_lock.c.
--   Lock.Context    the lock contexts, and find_lock_context
--   Lock.Schedule   ctdb_lock_schedule, ctdb_lock_internal and its callers, the destructors
--   Lock.Steps      the runs of the scheduler
--   Lock.Databases  ctdb_db_iterator, ctdb_lockall_mark, ctdb_lockall_unmark, lock_helper_args
-- A context is known by its address, a request by a number; whether a child can be started is an argument of
-- each step. The loops over the priorities are on fuel, of which ctdb_lockall_mark needs four. The proofs are in
-- Scan, Orderly and Busy for the lists, in Dangling for contexts that are given up, in Order and Marking for the
-- databases, and in Helper for the arguments.
--
-- Message: the handlers of messages, in common/ctdb_message.c.
--   Message.Index     the index in a tdb file, as an interface with laws, and the headers in memory
--   Message.Handlers  registration, deregistration, the destructors, and the dispatch
--   Message.Table     the abstract view, a table of handlers
-- The headers are a heap of addresses, which the index holds. The proofs are in Indexed for the heap, in Lists
-- and Agreement for one request, and in Refinement for runs.
--
-- Persistent: transactions on persistent databases, in server/ctdb_persistent.c and server/ctdb_update_record.c.
--   Persistent.Commit   the commit, its callbacks, timeout and end, and the client that goes away
--                       (ctdb_client_destructor of server/ctdb_daemon.c); the reply at
--                       once is that of ctdb_request_control (server/ctdb_control.c)
--   Persistent.Steps    runs of these
--   Persistent.Update   the writes of a transaction on a node (server/ctdb_update_record.c)
--   Persistent.Seqnum   ctdb_control_get_db_seqnum, with the bytes of its answer
-- A control that was sent is kept in the state of its commit with what came back, and a reply to a client carries
-- these controls. A commit is the one of its database; requests are numbers. The proofs are in Controls, Invariant
-- and Acknowledged for the commit, in Stored and Atomic for the writes, and in Recovered for the sequence numbers.
--
-- Logging: the ring buffer of log messages, in common/ctdb_logging.c.
--   Logging.Buffer     the static variables, log_ringbuffer_v, ctdb_collect_log and ctdb_clear_log
-- The entries are a function on indices, and the loop of the collection is by its count. The proofs are in Ring
-- for one message, and in Collected for the messages of a run.
--
-- Not modelled: the child process that revokes read-only copies, the hot key statistics, allocation
-- failures, the merging of the address lists of the nodes, and the work on network interfaces. Of the
-- other parts of ctdb (the rest of the recovery daemon, vacuuming, monitoring, transports,
-- the tools) nothing is modelled. tdb, talloc, tevent, popt, replace and socket_wrapper under lib are
-- libraries that the source calls.
--
-- Base holds the shared notation, lists over native numbers, folds and lemmas.
pub mod Base
pub mod Takeover
pub mod Dmaster
pub mod PacketQueue
pub mod Recovery
pub mod Election
pub mod Freeze
pub mod Marshall
pub mod Lock
pub mod Message
pub mod Persistent
pub mod Logging
