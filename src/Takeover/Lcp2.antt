-- ===== src/Takeover/Lcp2.antt =====
-- server/ctdb_takeover.c: the LCP2 algorithm. `lcp2_imbalances` and `rebalance_candidates` are lists
-- indexed by node, and a pointer to an address is its position in `all_ips`.
use mathlib.Core.List.{map}
use ctdb.Base.{
  ℕ, zero, suc, ◌+◌, ◌*◌, Bool, true, false, ◌&&◌, ◌||◌, not, Option, none, some, List, [], ◌∷◌,
  ltb, u32, if◌then◌else◌, get_or, set,
}
use ctdb.Base.Fold.{fold_from}
use ctdb.Takeover.Address.{SockAddr, ip_distance}
use ctdb.Takeover.Nodes.{PublicIp, IpFlags, Context, on_node, is_unassigned, can_node_takeover_ip}

-- `&(t->addr) == ip` at the head of the list, for a pointer given by its position in the list.
abbrev pub is_here : Option ℕ → Bool
is_here none = false
is_here (some zero) = true
is_here (some (suc n)) = false

abbrev pub later : Option ℕ → Option ℕ
later none = none
later (some zero) = none
later (some (suc n)) = some n

-- `self` is where the address itself stands in the list, if it does. The sum wraps, in any order.
unfoldable pub ip_distance_2_sum : Option ℕ → SockAddr → List PublicIp → ℕ → ℕ
ip_distance_2_sum self ip [] pnn = 0
ip_distance_2_sum self ip (t ∷ ts) pnn =
    let sum = ip_distance_2_sum (later self) ip ts pnn in
    if on_node t.pnn pnn && not (is_here self)
    then (let d = ip_distance ip t.addr in u32 (sum + d * d))
    else sum

unfoldable pub lcp2_imbalance : List PublicIp → ℕ → ℕ
lcp2_imbalance [] pnn = 0
lcp2_imbalance (t ∷ ts) pnn =
    let imbalance = lcp2_imbalance ts pnn in
    if on_node t.pnn pnn then u32 (imbalance + ip_distance_2_sum none t.addr ts pnn) else imbalance

unfoldable pub node_imbalances : List IpFlags → ℕ → List PublicIp → List ℕ
node_imbalances [] i all_ips = []
node_imbalances (f ∷ fs) i all_ips = lcp2_imbalance all_ips i ∷ node_imbalances fs (i + 1) all_ips

unfoldable pub drop_occupied : List PublicIp → List Bool → List Bool
drop_occupied [] candidates = candidates
drop_occupied (ip ∷ ips) candidates =
    drop_occupied ips (elim ip.pnn [ none ↦ candidates | some pnn ↦ set candidates pnn false ])

-- A node number that is out of range is skipped.
unfoldable pub force_nodes : List ℕ → List Bool → List Bool
force_nodes [] candidates = candidates
force_nodes (pnn ∷ pnns) candidates = force_nodes pnns (set candidates pnn true)

-- Both results of `lcp2_init`; no forced nodes are the empty list.
unfoldable pub lcp2_init : List IpFlags → List PublicIp → List ℕ → List ℕ × List Bool
lcp2_init ipflags all_ips force_rebalance_nodes = (
  node_imbalances ipflags 0 all_ips,
  force_nodes force_rebalance_nodes (drop_occupied all_ips (map (λ f. true) ipflags)),
)

-- The addresses and the imbalances, which the loops change together.
pub record Allocation : Type 0 where
  pub all_ips : List PublicIp
  pub lcp2_imbalances : List ℕ

-- `minnode`, `minip`, `mindsum` and `minimbl`
pub record Placement : Type 0 where
  pub node : ℕ
  pub ip : ℕ
  pub dsum : ℕ
  pub imbl : ℕ

abbrev pub cheaper : Placement → Option Placement → Option Placement
cheaper p none = some p
cheaper p (some q) = if ltb p.dsum q.dsum then some p else some q

-- The body of the loop over `dstnode`, for the address at position `k`.
unfoldable pub place_step :
    Context → ℕ → PublicIp → Allocation → ℕ → IpFlags → Option Placement → Option Placement
place_step ctdb k ip a i f best =
    if can_node_takeover_ip ctdb i f ip
    then (let dstdsum = ip_distance_2_sum (some k) ip.addr a.all_ips i in
        cheaper
          (record {
            node = i;
            ip = k;
            dsum = dstdsum;
            imbl = u32 (get_or a.lcp2_imbalances i 0 + dstdsum);
          })
          best)
    else best

-- The body of the loop over the unassigned addresses.
unfoldable pub place_ip_step :
    Context → List IpFlags → Allocation → ℕ → PublicIp → Option Placement → Option Placement
place_ip_step ctdb ipflags a k ip best =
    if is_unassigned ip.pnn then fold_from (place_step ctdb k ip a) ipflags 0 best else best

unfoldable pub best_placement : Context → List IpFlags → Allocation → Option Placement
best_placement ctdb ipflags a = fold_from (place_ip_step ctdb ipflags a) a.all_ips 0 none

-- `ip->pnn = pnn`
unfoldable pub set_pnn : List PublicIp → ℕ → ℕ → List PublicIp
set_pnn [] k pnn = []
set_pnn (ip ∷ ips) zero pnn = record ip { pnn = some pnn } ∷ ips
set_pnn (ip ∷ ips) (suc k) pnn = ip ∷ set_pnn ips k pnn

unfoldable pub place : Placement → Allocation → Allocation
place p a = record {
  all_ips = set_pnn a.all_ips p.ip p.node;
  lcp2_imbalances = set a.lcp2_imbalances p.node p.imbl;
}

unfoldable pub have_unassigned : List PublicIp → Bool
have_unassigned [] = false
have_unassigned (ip ∷ ips) = is_unassigned ip.pnn || have_unassigned ips

-- The `while` loop on fuel; `none` means that the fuel ran out.
unfoldable pub lcp2_allocate_unassigned :
    ℕ → Context → List IpFlags → Allocation → Option Allocation
lcp2_allocate_unassigned zero ctdb ipflags a = none
lcp2_allocate_unassigned (suc fuel) ctdb ipflags a = elim (best_placement ctdb ipflags a) [
  | none ↦ some a
  | some p ↦ elim (have_unassigned (place p a).all_ips) [
    | true ↦ lcp2_allocate_unassigned fuel ctdb ipflags (place p a)
    | false ↦ some (place p a)
  ]
]
