-- ===== src/Takeover/Basic.antt =====
-- server/ctdb_takeover.c: the algorithms that balance the number of addresses.
use ctdb.Base.{
  ℕ, zero, suc, ◌+◌, Bool, false, Option, none, some, List, [], ◌∷◌, ◌++◌, ltb, if◌then◌else◌,
  get_elem?, ◌%◌, length,
}
use ctdb.Base.Fold.{fold_from}
use ctdb.Takeover.Nodes.{
  PublicIp, IpFlags, Context, on_node, is_unassigned, can_node_host_ip, can_node_takeover_ip,
}

unfoldable pub node_ip_coverage : ℕ → List PublicIp → ℕ
node_ip_coverage pnn [] = 0
node_ip_coverage pnn (ip ∷ ips) = (if on_node ip.pnn pnn then 1 else 0) + node_ip_coverage pnn ips

-- A node and its coverage; `none` while the source has a pnn of -1.
pub record Choice : Type 0 where
  pub node : ℕ
  pub num : ℕ

abbrev pub least : ℕ → ℕ → Option Choice → Option Choice
least i num none = some (record { node = i; num = num })
least i num (some c) = if ltb num c.num then some (record { node = i; num = num }) else some c

abbrev pub most : ℕ → ℕ → Option Choice → Option Choice
most i num none = some (record { node = i; num = num })
most i num (some c) = if ltb c.num num then some (record { node = i; num = num }) else some c

-- The body of the loop of `find_takeover_node` over `ipflags`.
unfoldable pub least_step :
    Context → PublicIp → List PublicIp → ℕ → IpFlags → Option Choice → Option Choice
least_step ctdb ip all_ips i f best =
    if can_node_takeover_ip ctdb i f ip then least i (node_ip_coverage i all_ips) best else best

unfoldable pub least_covered : Context → List IpFlags → PublicIp → List PublicIp → Option Choice
least_covered ctdb ipflags ip all_ips = fold_from (least_step ctdb ip all_ips) ipflags 0 none

-- The address with its new node, or as it was if no node can take it over.
unfoldable pub find_takeover_node : Context → List IpFlags → PublicIp → List PublicIp → PublicIp
find_takeover_node ctdb ipflags ip all_ips = elim (least_covered ctdb ipflags ip all_ips) [
  | none ↦ ip
  | some c ↦ record ip { pnn = some c.node }
]

-- The list before the current address, then the current address and the rest.
unfoldable pub allocate_from :
    Context → List IpFlags → List PublicIp → List PublicIp → List PublicIp
allocate_from ctdb ipflags front [] = front
allocate_from ctdb ipflags front (ip ∷ rest) =
    allocate_from ctdb ipflags
      (front
        ++ (if is_unassigned ip.pnn
            then find_takeover_node ctdb ipflags ip (front ++ ip ∷ rest)
            else ip)
          ∷ [])
      rest

unfoldable pub basic_allocate_unassigned : Context → List IpFlags → List PublicIp → List PublicIp
basic_allocate_unassigned ctdb ipflags all_ips = allocate_from ctdb ipflags [] all_ips

-- The nodes with the most and the fewest addresses among those that can take the address over.
pub record Spread : Type 0 where
  pub maxnode : Option Choice
  pub minnode : Option Choice

unfoldable pub spread_step : Context → PublicIp → List PublicIp → ℕ → IpFlags → Spread → Spread
spread_step ctdb ip all_ips i f s =
    if can_node_takeover_ip ctdb i f ip
    then (let num = node_ip_coverage i all_ips in
        record { maxnode = most i num s.maxnode; minnode = least i num s.minnode })
    else s

unfoldable pub spread : Context → List IpFlags → PublicIp → List PublicIp → Spread
spread ctdb ipflags ip all_ips =
    fold_from (spread_step ctdb ip all_ips) ipflags 0 (record { maxnode = none; minnode = none })

-- Reassign the first address of `maxnode` from here on; `none` if it has none.
unfoldable pub reassign_first :
    Context → List IpFlags → ℕ → List PublicIp → List PublicIp → Option (List PublicIp)
reassign_first ctdb ipflags maxnode front [] = none
reassign_first ctdb ipflags maxnode front (tmp ∷ rest) =
    let later = reassign_first ctdb ipflags maxnode (front ++ tmp ∷ []) rest in
    if on_node tmp.pnn maxnode
    then some (front ++ find_takeover_node ctdb ipflags tmp (front ++ tmp ∷ rest) ∷ rest)
    else later

-- `maxnum > minnum + 1`, and the node that gives an address away.
unfoldable pub overloaded : Spread → Option ℕ
overloaded s = elim s.maxnode [
  | none ↦ none
  | some hi ↦ elim s.minnode [
    | none ↦ none
    | some lo ↦ if ltb (lo.num + 1) hi.num then some hi.node else none
  ]
]

-- One pass over the addresses up to `goto try_again`; `none` if the pass moves none.
unfoldable pub rebalance_pass :
    Context → List IpFlags → List PublicIp → List PublicIp → Option (List PublicIp)
rebalance_pass ctdb ipflags all_ips [] = none
rebalance_pass ctdb ipflags all_ips (ip ∷ rest) =
    let later = rebalance_pass ctdb ipflags all_ips rest in
    if is_unassigned ip.pnn then later else elim (overloaded (spread ctdb ipflags ip all_ips)) [
      | none ↦ later
      | some maxnode ↦ elim (reassign_first ctdb ipflags maxnode [] all_ips) [
        | none ↦ later
        | some moved ↦ some moved
      ]
    ]

-- `left` is what remains of the `num_ips + 5` retries; with none left no pass moves an address.
unfoldable pub basic_failback : Context → List IpFlags → ℕ → List PublicIp → List PublicIp
basic_failback ctdb ipflags zero all_ips = all_ips
basic_failback ctdb ipflags (suc left) all_ips =
    elim (rebalance_pass ctdb ipflags all_ips all_ips) [
      | none ↦ all_ips
      | some moved ↦ basic_failback ctdb ipflags left moved
    ]

-- `ipflags[pnn]`; a pnn out of range is undefined in the source.
abbrev pub hosts : Context → List IpFlags → ℕ → PublicIp → Bool
hosts ctdb ipflags pnn ip = elim (get_elem? ipflags pnn) [
  | none ↦ false
  | some f ↦ can_node_host_ip ctdb pnn f ip
]

unfoldable pub unassign_unsuitable_ip : Context → List IpFlags → PublicIp → PublicIp
unassign_unsuitable_ip ctdb ipflags ip = elim ip.pnn [
  | none ↦ ip
  | some pnn ↦ if hosts ctdb ipflags pnn ip then ip else record ip { pnn = none }
]

unfoldable pub unassign_unsuitable_ips : Context → List IpFlags → List PublicIp → List PublicIp
unassign_unsuitable_ips ctdb ipflags [] = []
unassign_unsuitable_ips ctdb ipflags (ip ∷ ips) =
    unassign_unsuitable_ip ctdb ipflags ip ∷ unassign_unsuitable_ips ctdb ipflags ips

-- `tmp_ip->pnn = i % numnodes`
unfoldable pub assign_modulo : ℕ → ℕ → List PublicIp → List PublicIp
assign_modulo numnodes i [] = []
assign_modulo numnodes i (ip ∷ ips) =
    record ip { pnn = some (i % numnodes) } ∷ assign_modulo numnodes (i + 1) ips

unfoldable pub ip_alloc_deterministic_ips : Context → List IpFlags → List PublicIp → List PublicIp
ip_alloc_deterministic_ips ctdb ipflags all_ips =
    basic_allocate_unassigned ctdb ipflags
      (unassign_unsuitable_ips ctdb ipflags (assign_modulo (length ipflags) 0 all_ips))
