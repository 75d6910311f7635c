-- ===== src/Takeover/Nodes.antt =====
-- server/ctdb_takeover.c: which node may host which public address.
use ctdb.Base.{
  ℕ, ◌+◌, Bool, true, false, ◌||◌, Option, none, some, List, [], ◌∷◌, ◌==◌, has_bit, get_elem?,
  if◌then◌else◌, not,
}
use ctdb.Takeover.Address.{SockAddr, ctdb_same_ip}

-- `struct ctdb_public_ip_list` and `struct ctdb_public_ip`; a pnn of -1 is `none`. The links of the
-- list are those of `List`, and a pointer into it is a position.
pub record PublicIp : Type 0 where
  pub pnn : Option ℕ
  pub addr : SockAddr

-- `struct ctdb_ipflags`
pub record IpFlags : Type 0 where
  pub noiptakeover : Bool
  pub noiphost : Bool

-- The parts of `struct ctdb_node` that the allocation reads.
pub record Node : Type 0 where
  pub flags : ℕ
  pub available_public_ips : Option (List SockAddr)

pub record Tunables : Type 0 where
  pub no_ip_failback : ℕ
  pub lcp2_public_ip_assignment : ℕ
  pub deterministic_public_ips : ℕ

-- The parts of `struct ctdb_context` that the allocation reads.
pub record Context : Type 0 where
  pub nodes : List Node
  pub tunable : Tunables

-- `ip->pnn == pnn` for a pnn that is not -1
abbrev pub on_node : Option ℕ → ℕ → Bool
on_node none n = false
on_node (some m) n = m == n

abbrev pub is_unassigned : Option ℕ → Bool
is_unassigned none = true
is_unassigned (some m) = false

unfoldable pub any_same_ip : SockAddr → List SockAddr → Bool
any_same_ip a [] = false
any_same_ip a (b ∷ bs) = ctdb_same_ip a b || any_same_ip a bs

-- `ctdb->nodes[pnn]->available_public_ips`; a pnn out of range is undefined in the source.
unfoldable pub available_on : Context → ℕ → Option (List SockAddr)
available_on ctdb pnn = elim (get_elem? ctdb.nodes pnn) [
  | none ↦ none
  | some n ↦ n.available_public_ips
]

unfoldable pub can_node_host_ip : Context → ℕ → IpFlags → PublicIp → Bool
can_node_host_ip ctdb pnn ipflags ip =
    if ipflags.noiphost
    then false
    else elim (available_on ctdb pnn) [ none ↦ false | some ips ↦ any_same_ip ip.addr ips ]

unfoldable pub can_node_takeover_ip : Context → ℕ → IpFlags → PublicIp → Bool
can_node_takeover_ip ctdb pnn ipflags ip =
    if ipflags.noiptakeover then false else can_node_host_ip ctdb pnn ipflags ip

-- `node_flags & NODE_FLAGS_INACTIVE`: deleted, disconnected, banned or stopped
abbrev pub inactive : ℕ → Bool
inactive flags = has_bit 4 flags || has_bit 0 flags || has_bit 3 flags || has_bit 5 flags

-- `node_flags & NODE_FLAGS_DISABLED`: unhealthy, or disabled by the administrator
abbrev pub disabled : ℕ → Bool
disabled flags = has_bit 1 flags || has_bit 2 flags

unfoldable pub num_healthy : List ℕ → ℕ
num_healthy [] = 0
num_healthy (flags ∷ nodemap) =
    (if inactive flags || disabled flags then 0 else 1) + num_healthy nodemap

-- Over the flags of the node map.
unfoldable pub all_nodes_are_disabled : List ℕ → Bool
unfolding num_healthy
all_nodes_are_disabled nodemap = num_healthy nodemap == 0

-- What `set_ipflags_internal` reads of one node: its flags, its two tunables, its run state.
pub record NodeStatus : Type 0 where
  pub flags : ℕ
  pub tval_noiptakeover : ℕ
  pub tval_noiphostonalldisabled : ℕ
  pub runstate : ℕ

-- CTDB_RUNSTATE_RUNNING of include/ctdb_protocol.h
abbrev pub runstate_running : ℕ
runstate_running = 5

-- The three passes over the arrays, at one index.
unfoldable pub node_ipflags : Bool → NodeStatus → IpFlags
node_ipflags all_disabled n = record {
  noiptakeover = not (n.tval_noiptakeover == 0);
  noiphost =
      (if n.runstate == runstate_running then inactive n.flags else true)
      || (if all_disabled then not (n.tval_noiphostonalldisabled == 0) else disabled n.flags);
}

unfoldable pub status_flags : List NodeStatus → List ℕ
status_flags [] = []
status_flags (n ∷ ns) = n.flags ∷ status_flags ns

unfoldable pub all_ipflags : Bool → List NodeStatus → List IpFlags
all_ipflags d [] = []
all_ipflags d (n ∷ ns) = node_ipflags d n ∷ all_ipflags d ns

unfoldable pub set_ipflags_internal : List NodeStatus → List IpFlags
unfolding status_flags all_ipflags
set_ipflags_internal nodemap = all_ipflags (all_nodes_are_disabled (status_flags nodemap)) nodemap
