-- ===== src/Takeover/Run.antt =====
-- server/ctdb_takeover.c: the choice of the algorithm.
use ctdb.Base.{ℕ, ◌+◌, Option, none, some, List, ◌==◌, if◌then◌else◌, length}
use ctdb.Takeover.Nodes.{PublicIp, IpFlags, Context}
use ctdb.Takeover.Basic.{
  basic_allocate_unassigned, basic_failback, unassign_unsuitable_ips, ip_alloc_deterministic_ips,
}
use ctdb.Takeover.Lcp2.{lcp2_init, lcp2_allocate_unassigned}
use ctdb.Takeover.Failback.{Qsort, lcp2_failback}

unfoldable pub ip_alloc_nondeterministic_ips :
    Context → List IpFlags → List PublicIp → List PublicIp
ip_alloc_nondeterministic_ips ctdb ipflags all_ips =
    let allocated =
      basic_allocate_unassigned ctdb ipflags (unassign_unsuitable_ips ctdb ipflags all_ips) in
    if ctdb.tunable.no_ip_failback == 1
    then allocated
    else basic_failback ctdb ipflags (length all_ips + 5) allocated

-- `fuel` bounds the rounds of the two loops; `none` means that it ran out.
unfoldable pub ip_alloc_lcp2 :
    ℕ → Qsort → Context → List IpFlags → List PublicIp → List ℕ → Option (List PublicIp)
ip_alloc_lcp2 fuel qsort ctdb ipflags all_ips force_rebalance_nodes =
    let suitable = unassign_unsuitable_ips ctdb ipflags all_ips in
    let (imbalances, candidates) = lcp2_init ipflags suitable force_rebalance_nodes in
    elim (lcp2_allocate_unassigned fuel ctdb ipflags
      (record { all_ips = suitable; lcp2_imbalances = imbalances })) [
        | none ↦ none
        | some a ↦
            if ctdb.tunable.no_ip_failback == 1
            then some a.all_ips
            else elim (lcp2_failback fuel qsort ctdb ipflags a candidates) [
              | none ↦ none
              | some b ↦ some b.all_ips
            ]
      ]

-- From the merged list on, which is an argument here.
unfoldable pub ctdb_takeover_run_core :
    ℕ → Qsort → Context → List IpFlags → List PublicIp → List ℕ → Option (List PublicIp)
ctdb_takeover_run_core fuel qsort ctdb ipflags all_ips force_rebalance_nodes =
    if ctdb.tunable.lcp2_public_ip_assignment == 1
    then ip_alloc_lcp2 fuel qsort ctdb ipflags all_ips force_rebalance_nodes
    else if ctdb.tunable.deterministic_public_ips == 1
    then some (ip_alloc_deterministic_ips ctdb ipflags all_ips)
    else some (ip_alloc_nondeterministic_ips ctdb ipflags all_ips)
