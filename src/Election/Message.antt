-- ===== src/Election/Message.antt =====
-- server/ctdb_recoverd.c: what a node says of itself in an election, and when it wins.
use Prim.Native.Nat.{compare, Ordering}
use ctdb.Base.{
  ℕ, ◌+◌, Bool, true, false, not, none, some, Option, List, [], ◌∷◌, get_or, if◌then◌else◌,
}

-- `struct timeval`
pub record Timeval : Type 0 where
  pub tv_sec : ℕ
  pub tv_usec : ℕ

-- The flags of a node that an election looks at.
pub record NodeFlags : Type 0 where
  pub disconnected : Bool
  pub banned : Bool
  pub stopped : Bool

abbrev pub no_flags : NodeFlags
no_flags = record { disconnected = false; banned = false; stopped = false }

pub record ElectionMessage : Type 0 where
  pub num_connected : ℕ
  pub priority_time : Timeval
  pub pnn : ℕ
  pub node_flags : NodeFlags

-- A node with its recovery daemon. `nodemap` is what the control that reads the node map answers, in the
-- order of the node numbers; `capable` is CTDB_CAP_RECMASTER, `now` the time.
pub record Recoverd : Type 0 where
  pub pnn : ℕ
  pub capable : Bool
  pub nodemap : Option (List NodeFlags)
  pub now : Timeval
  pub priority_time : Timeval
  pub node_flags : NodeFlags
  pub recmaster : ℕ
  pub send_election_te : Bool
  pub election_timeout : Bool
  pub verify_recovery_lock : Bool
  pub holds_recovery_lock : Bool
  pub unbanned : List ℕ
  pub sent : List ElectionMessage

unfoldable pub connected : List NodeFlags → ℕ
connected [] = 0
connected (f ∷ fs) = (if not f.disconnected then 1 else 0) + connected fs

-- The message, and the flags of the node that are remembered.
pub record Data : Type 0 where
  pub message : ElectionMessage
  pub node_flags : NodeFlags

-- The message that a node with this answer to the control sends.
unfoldable pub data_from :
    (pnn : ℕ) (capable : Bool) (now priority_time : Timeval) (node_flags : NodeFlags)
    → Option (List NodeFlags)
    → Data
data_from pnn capable now priority_time node_flags none = record {
  message = record {
    num_connected = 0;
    priority_time = priority_time;
    pnn = pnn;
    node_flags = no_flags;
  };
  node_flags = node_flags;
}
data_from pnn capable now priority_time node_flags (some nodes) = record {
  message = record {
    num_connected = if capable then connected nodes else 0;
    priority_time = if capable then priority_time else now;
    pnn = pnn;
    node_flags = get_or nodes pnn no_flags;
  };
  node_flags = get_or nodes pnn no_flags;
}

unfoldable pub ctdb_election_data : Recoverd → Data
ctdb_election_data r = data_from r.pnn r.capable r.now r.priority_time r.node_flags r.nodemap

-- The sign of `cmp`: the next criterion counts when this one is even.
abbrev pub or_else : Ordering → Ordering → Ordering
or_else Ordering.eq next = next
or_else Ordering.lt next = Ordering.lt
or_else Ordering.gt next = Ordering.gt

abbrev pub timeval_compare : Timeval → Timeval → Ordering
timeval_compare a b = or_else (compare a.tv_sec b.tv_sec) (compare a.tv_usec b.tv_usec)

-- The most connected node, then the longest running one, then the highest pnn. The numbers are below
-- 2 ^ 31, so that their differences are signs.
unfoldable pub election_compare : ElectionMessage → ElectionMessage → Ordering
election_compare my em =
    or_else (compare my.num_connected em.num_connected)
      (or_else (timeval_compare em.priority_time my.priority_time) (compare my.pnn em.pnn))

abbrev pub is_positive : Ordering → Bool
is_positive Ordering.gt = true
is_positive Ordering.eq = false
is_positive Ordering.lt = false

unfoldable pub wins_with : Data → (capable : Bool) → ElectionMessage → Bool
wins_with my capable em =
    if not capable
    then false
    else if my.node_flags.banned
    then false
    else if my.node_flags.stopped
    then false
    else if em.node_flags.banned
    then true
    else if em.node_flags.stopped
    then true
    else is_positive (election_compare my.message em)

unfoldable pub ctdb_election_win : Recoverd → ElectionMessage → Bool
ctdb_election_win r em = wins_with (ctdb_election_data r) r.capable em
