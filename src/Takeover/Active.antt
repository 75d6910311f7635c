-- ===== src/Takeover/Active.antt =====
-- `set_ipflags_internal` and the run together: which nodes may serve addresses afterwards.
use ctdb.Base.{
  ◌⊎◌, inl, inr, All, Bool-cases, ◌||◌, false, ℕ, zero, suc, ◌+◌, ◌*◌, ◌<◌, ◌≡◌, arith, Bool, true,
  some, List, [], ◌∷◌, length, get_elem?, get_of_All, ◌==◌,
}
use ctdb.Takeover.Nodes.{
  PublicIp, IpFlags, Context, NodeStatus, inactive, disabled, runstate_running, node_ipflags,
  all_ipflags, status_flags, num_healthy, all_nodes_are_disabled, set_ipflags_internal,
  can_node_host_ip,
}
use ctdb.Takeover.Basic.{hosts}
use ctdb.Takeover.Failback.{Qsort}
use ctdb.Takeover.Run.{ctdb_takeover_run_core}
use ctdb.Takeover.Placed.{IsPlaced, is_placed}
use ctdb.Takeover.Energy.{max_ips}
use ctdb.Takeover.Theorems.{takeover_run-Places}

-- A node that cannot serve while any node can: it is inactive, or is unhealthy or disabled.
abbrev pub CannotServe : NodeStatus → Type 0
CannotServe n = (inactive n.flags ≡ true) ⊎ (disabled n.flags ≡ true)

-- Fit to serve: running, active, and healthy, or allowed to serve because no node of the cluster is active and healthy.
pub record Fit (nodemap : List NodeStatus) (n : NodeStatus) : Type 0 where
  pub running : n.runstate ≡ runstate_running
  pub active : inactive n.flags ≡ false
  pub healthy :
      (disabled n.flags ≡ false) ⊎ ((n.tval_noiphostonalldisabled ≡ 0) × All CannotServe nodemap)

cannot_serve : (n : NodeStatus) → inactive n.flags || disabled n.flags ≡ true → CannotServe n
cannot_serve n h = elim (Bool-cases (inactive n.flags)) [
  | inl off ↦ inl off
  | inr on ↦ inr (ground (arith, on, h))
]

num_healthy-CannotServe :
    (nodemap : List NodeStatus) → num_healthy (status_flags nodemap) ≡ 0 → All CannotServe nodemap
unfolding num_healthy status_flags
num_healthy-CannotServe [] h = tt
num_healthy-CannotServe (n ∷ nodemap) h = elim (Bool-cases (inactive n.flags || disabled n.flags)) [
  | inl off ↦ (cannot_serve n off, num_healthy-CannotServe nodemap (omega (arith, h)))
  | inr on ↦ absurd (ground (arith, on, h))
]

all_disabled-CannotServe :
    (nodemap : List NodeStatus)
    → all_nodes_are_disabled (status_flags nodemap) ≡ true
    → All CannotServe nodemap
unfolding all_nodes_are_disabled
all_disabled-CannotServe nodemap h = num_healthy-CannotServe nodemap (ground (arith, h))

all_ipflags-get :
    (d : Bool) (nodemap : List NodeStatus) (k : ℕ) (n : NodeStatus)
    → get_elem? nodemap k ≡ some n
    → get_elem? (all_ipflags d nodemap) k ≡ some (node_ipflags d n)
unfolding all_ipflags
all_ipflags-get d [] k n e = cc
all_ipflags-get d (m ∷ nodemap) zero n e = let q : m ≡ n = cc in rw q
all_ipflags-get d (m ∷ nodemap) (suc k) n e = all_ipflags-get d nodemap k n e

-- The flags of a node that may host an address.
may_host-Fit :
    (nodemap : List NodeStatus) (n : NodeStatus)
    → (node_ipflags (all_nodes_are_disabled (status_flags nodemap)) n).noiphost ≡ false
    → Fit nodemap n
unfolding node_ipflags
may_host-Fit nodemap n h =
    let all = all_nodes_are_disabled (status_flags nodemap) in
    let running : (n.runstate == runstate_running) ≡ true = ground (arith, h) in
    record {
      running = ground (arith, running);
      active = ground (arith, h);
      healthy = elim (Bool-cases all) [
        | inl off ↦ inr (ground (arith, h, off), all_disabled-CannotServe nodemap off)
        | inr on ↦ inl (ground (arith, h, on))
      ];
    }

hosts-noiphost :
    (ctdb : Context) (ipflags : List IpFlags) (k : ℕ) (f : IpFlags) (ip : PublicIp)
    → get_elem? ipflags k ≡ some f
    → hosts ctdb ipflags k ip ≡ true
    → f.noiphost ≡ false
unfolding can_node_host_ip
hosts-noiphost ctdb ipflags k f ip e h = ground (arith, e, h)

hosts-Fit :
    (ctdb : Context) (nodemap : List NodeStatus) (k : ℕ) (n : NodeStatus) (ip : PublicIp)
    → get_elem? nodemap k ≡ some n
    → hosts ctdb (set_ipflags_internal nodemap) k ip ≡ true
    → Fit nodemap n
unfolding set_ipflags_internal
hosts-Fit ctdb nodemap k n ip e h =
    let all = all_nodes_are_disabled (status_flags nodemap) in
    may_host-Fit nodemap n (
      hosts-noiphost ctdb (all_ipflags all nodemap) k (node_ipflags all n) ip
        (all_ipflags-get all nodemap k n e) h)

-- After a run with the flags that `set_ipflags_internal` sets, a node of the node map that has an
-- address is running and active, and it is healthy, or its NoIPHostOnAllDisabled is not set and every node
-- of the node map is inactive or not healthy. The bounds are those of the run.
pub takeover_run-Fit :
    (ctdb : Context) (nodemap : List NodeStatus) (fuel : ℕ) (qsort : Qsort) (ips : List PublicIp)
    (forced : List ℕ)
    → length ips < max_ips
    → 16384 * (length ips * length ips) + length ips < fuel
    → (r : List PublicIp)
    → ctdb_takeover_run_core fuel qsort ctdb (set_ipflags_internal nodemap) ips forced ≡ some r
    → (j k : ℕ) (ip : PublicIp) (n : NodeStatus) → get_elem? r j ≡ some ip
    → ip.pnn ≡ some k
    → get_elem? nodemap k ≡ some n
    → Fit nodemap n
unfolding is_placed
takeover_run-Fit ctdb nodemap fuel qsort ips forced few enough r e j k ip n ej ek en =
    let ipflags = set_ipflags_internal nodemap in
    let (s, es, ps, same) = takeover_run-Places ctdb ipflags fuel qsort ips forced few enough in
    let q : s ≡ r = cc in
    let p = get_of_All (IsPlaced ctdb ipflags) r j ip (rw q at ps) ej in
    hosts-Fit ctdb nodemap k n ip en (ground arith)
