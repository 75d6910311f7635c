-- ===== src/Dmaster/Node.antt =====
-- The state of one node that the dmaster protocol reads and writes, for the record under one key of
-- one database. include/ctdb_private.h.
use ctdb.Base.{ℕ, ◌+◌, ◌-◌, ◌%◌, Bool, Option, none, some, List, ◌∷◌, ◌≡◌, get_or, length}
use ctdb.Dmaster.Header.{Header, Rec, Packet}

-- The tdb file at the key, which belongs to the library tdb. `none` is a failed write; a value that is
-- shorter than a header counts as no record.
pub record Tdb : Type 1 where
  pub State : Type 0
  pub fetch : State → Option Rec
  pub store : State → Rec → Option State
  pub delete : State → Option State
  pub fetch-store : (s t : State) (r : Rec) → store s r ≡ some t → fetch t ≡ some r
  pub fetch-delete : (s t : State) → delete s ≡ some t → fetch t ≡ none

pub data CallStatus : Type 0 where
  wait done error : CallStatus

-- `struct ctdb_call_state`, as the table of request identifiers finds it.
pub record CallState : Type 0 where
  pub reqid : ℕ
  pub key : ℕ
  pub callid : ℕ
  pub vacuum_migration : Bool
  pub status : CallStatus

-- What a registered call function does to a record: it fails, or gives new data (if it changes the
-- data), the reply data and a status.
pub record CallResult : Type 0 where
  pub new_data : Option (List ℕ)
  pub reply_data : List ℕ
  pub status : ℕ

-- Updates of the statistics and of the queue of records to delete, as the handlers make them.
pub data Note : Type 0 where
  ro_revoke ro_delegation : Note
  hops : (hopcount bucket : ℕ) → Note
  schedule_for_deletion remove_from_delete_queue : Note
  start_revoke : Header → List ℕ → Note

-- `sent` holds the packets that were queued, `waiting` those that wait for the record's lock,
-- `deferred` those that wait for a revoke or for the end of a pindown.
pub record Node (T : Type 0) : Type 0 where
  pub pnn : ℕ
  pub vnn_map : List ℕ
  pub transport : Bool
  pub attached : Bool
  pub persistent : Bool
  pub sticky : Bool
  pub readonly : Bool
  pub transaction : Bool
  pub hopcount_make_sticky : ℕ
  pub store : T
  pub locks : ℕ
  pub recovery : Bool
  pub sticky_record : Option Bool
  pub tracking : List ℕ
  pub find_call : ℕ → Option CallState
  pub sent : List Packet
  pub waiting : List Packet
  pub deferred : List Packet
  pub notes : List Note

-- The outcome of `ctdb_ltdb_lock_requeue`: 0, -1 and -2.
pub data Lock : Type 0 where
  got failed contended : Lock

-- What the record's code does not decide: the file, the hash of the key, the call functions.
pub record Env : Type 1 where
  pub tdb : Tdb
  pub open tdb use *
  pub key : ℕ
  pub key_hash : ℕ
  pub call_fn : ℕ → Option (Header → List ℕ → Option CallResult)

module _ {T : Type 0} where
  unfoldable pub send : Packet → Node T → Node T
  send p n = record n { sent = p ∷ n.sent }

  unfoldable pub note : Note → Node T → Node T
  note e n = record n { notes = e ∷ n.notes }

  unfoldable pub lock : Node T → Node T
  lock n = record n { locks = n.locks + 1 }

  unfoldable pub unlock : Node T → Node T
  unlock n = record n { locks = n.locks - 1 }

-- The map is never empty after the first recovery.
unfoldable pub ctdb_lmaster : Env → List ℕ → ℕ
ctdb_lmaster e vnn_map = get_or vnn_map (e.key_hash % length vnn_map) 0
