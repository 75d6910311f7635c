-- ===== src/Takeover/Tests.antt =====
-- The theorems about server/ctdb_takeover.c at concrete clusters.
use Prim.Native.Nat.{Ordering}
use ctdb.Base.{◌<◌, ◌≤◌, ◌≡◌, refl, arith, true, false, some, List, [], ◌∷◌, All, get_elem?}
use ctdb.Takeover.Address.{
  SockAddr, inet, inet6, ctdb_canonicalize_ip, ctdb_same_ip, ip_distance, ip_key, key_distance,
  leading_zeros, word_distance,
}
use ctdb.Base.Fold.{fold_from}
use ctdb.Takeover.Nodes.{
  PublicIp, IpFlags, Context, Node, NodeStatus, all_ipflags, status_flags, set_ipflags_internal,
  node_ipflags, all_nodes_are_disabled, can_node_host_ip, can_node_takeover_ip, available_on,
  any_same_ip,
}
use ctdb.Takeover.Basic.{
  allocate_from, assign_modulo, basic_allocate_unassigned, basic_failback, find_takeover_node,
  ip_alloc_deterministic_ips, least_covered, least_step, node_ip_coverage, overloaded,
  reassign_first, rebalance_pass, spread, spread_step, unassign_unsuitable_ips,
  unassign_unsuitable_ip,
}
use ctdb.Takeover.Failback.{
  Qsort, ImbalancePnn, failback_round, first_move, imbalance_pnns, lcp2_cmp_imbalance_pnn,
  lcp2_failback, lcp2_failback_candidate, move_ip, move_step, num_rebalance_candidates,
  search_moves, search_step,
}
use ctdb.Takeover.Lcp2.{
  Allocation, best_placement, drop_occupied, force_nodes, have_unassigned, ip_distance_2_sum,
  lcp2_allocate_unassigned, lcp2_imbalance, lcp2_init, node_imbalances, place, place_ip_step,
  place_step, set_pnn,
}
use ctdb.Takeover.Run.{ip_alloc_lcp2, ip_alloc_nondeterministic_ips, ctdb_takeover_run_core}
use ctdb.Takeover.Placed.{IsPlaced, is_placed, addrs}
use ctdb.Takeover.Energy.{energy, energy-le}
use ctdb.Takeover.Moves.{lcp2_failback-total}
use ctdb.Takeover.Active.{Fit, takeover_run-Fit}
use ctdb.Takeover.Distance.{ip_distance-past_prefix}
use ctdb.Takeover.Theorems.{Places, takeover_run-Places, lcp2-keeps_hosted}

-- A line that unfolds this runs the whole allocation.
allocation_code : Unit {0}
unfolding ctdb_canonicalize_ip ctdb_same_ip ip_distance ip_key key_distance leading_zeros
    word_distance fold_from all_ipflags status_flags set_ipflags_internal node_ipflags
    all_nodes_are_disabled can_node_host_ip can_node_takeover_ip available_on any_same_ip
    allocate_from assign_modulo basic_allocate_unassigned basic_failback find_takeover_node
    ip_alloc_deterministic_ips least_covered least_step node_ip_coverage overloaded reassign_first
    rebalance_pass spread spread_step unassign_unsuitable_ips unassign_unsuitable_ip failback_round
    first_move imbalance_pnns lcp2_cmp_imbalance_pnn lcp2_failback lcp2_failback_candidate move_ip
    move_step num_rebalance_candidates search_moves search_step best_placement drop_occupied
    force_nodes have_unassigned ip_distance_2_sum lcp2_allocate_unassigned lcp2_imbalance lcp2_init
    node_imbalances place place_ip_step place_step set_pnn ip_alloc_lcp2
    ip_alloc_nondeterministic_ips ctdb_takeover_run_core
allocation_code = tt

abbrev addr_a : SockAddr
addr_a = inet 0x0a000001 0

abbrev addr_b : SockAddr
addr_b = inet 0x0a000002 0

abbrev addr_c : SockAddr
addr_c = inet 0x0a000103 0

abbrev all_known : Node
all_known = record { flags = 0; available_public_ips = some (addr_a ∷ addr_b ∷ addr_c ∷ []) }

-- Two nodes that both know three addresses; LCP2 with failback.
abbrev lcp2_cluster : Context
lcp2_cluster = record {
  nodes = all_known ∷ all_known ∷ [];
  tunable = record {
    no_ip_failback = 0;
    lcp2_public_ip_assignment = 1;
    deterministic_public_ips = 0;
  };
}

abbrev no_failback_cluster : Context
no_failback_cluster = record lcp2_cluster {
  tunable = record {
    no_ip_failback = 1;
    lcp2_public_ip_assignment = 1;
    deterministic_public_ips = 0;
  };
}

abbrev free_flags : List IpFlags
free_flags =
    record { noiptakeover = false; noiphost = false }
    ∷ record { noiptakeover = false; noiphost = false }
    ∷ []

-- All three addresses on node 0, which was alone.
abbrev on_one_node : List PublicIp
on_one_node =
    record { pnn = some 0; addr = addr_a }
    ∷ record { pnn = some 0; addr = addr_b }
    ∷ record { pnn = some 0; addr = addr_c }
    ∷ []

insert_by :
    (ImbalancePnn → ImbalancePnn → Ordering) → ImbalancePnn → List ImbalancePnn → List ImbalancePnn
insert_by cmp x [] = x ∷ []
insert_by cmp x (y ∷ ys) =
    let rest = insert_by cmp x ys in elim (cmp y x) [ Ordering.gt ↦ x ∷ y ∷ ys | _ ↦ y ∷ rest ]

insertion_sort : Qsort
insertion_sort cmp [] = []
insertion_sort cmp (x ∷ xs) = insert_by cmp x (insertion_sort cmp xs)

takeover_run-Places_example :
    Places lcp2_cluster free_flags on_one_node
      (ctdb_takeover_run_core 200000 insertion_sort lcp2_cluster free_flags on_one_node [])
takeover_run-Places_example =
    takeover_run-Places lcp2_cluster free_flags 200000 insertion_sort on_one_node [] (omega arith)
      (omega arith)

-- Node 0 gives one address to the node that has come back.
run_moves_one :
    ctdb_takeover_run_core 9 insertion_sort lcp2_cluster free_flags on_one_node []
    ≡ some (
        record { pnn = some 1; addr = addr_a }
        ∷ record { pnn = some 0; addr = addr_b }
        ∷ record { pnn = some 0; addr = addr_c }
        ∷ [])
unfolding allocation_code insertion_sort insert_by
run_moves_one = refl

abbrev on_node_0 : Allocation
on_node_0 = record { all_ips = on_one_node; lcp2_imbalances = 100 ∷ 0 ∷ [] }

lcp2_failback-total_example :
    (b : Allocation) × (lcp2_failback 200000 insertion_sort lcp2_cluster free_flags on_node_0
        (false ∷ true ∷ [])
      ≡ some b)
    × All (IsPlaced lcp2_cluster free_flags) b.all_ips
    × (addrs b.all_ips ≡ addrs on_one_node)
    × (energy b.all_ips ≤ energy on_one_node)
unfolding is_placed allocation_code
lcp2_failback-total_example =
    lcp2_failback-total lcp2_cluster free_flags 200000 insertion_sort on_node_0 (false ∷ true ∷ [])
      (omega arith) (omega (arith, energy-le on_one_node)) (refl, (refl, (refl, tt)))

lcp2-keeps_hosted_example :
    (r : List PublicIp) × (ip_alloc_lcp2 200000 insertion_sort no_failback_cluster free_flags
        on_one_node []
      ≡ some r)
    × (get_elem? r 1 ≡ some (record { pnn = some 0; addr = addr_b }))
unfolding allocation_code
lcp2-keeps_hosted_example =
    lcp2-keeps_hosted no_failback_cluster free_flags 200000 insertion_sort on_one_node []
      (omega arith) (omega arith) 1 0 (record { pnn = some 0; addr = addr_b }) refl refl refl refl

-- Node 0 is banned, node 1 is healthy and running.
abbrev one_banned : List NodeStatus
one_banned =
    record { flags = 8; tval_noiptakeover = 0; tval_noiphostonalldisabled = 0; runstate = 5 }
    ∷ record { flags = 0; tval_noiptakeover = 0; tval_noiphostonalldisabled = 0; runstate = 5 }
    ∷ []

abbrev one_address : List PublicIp
one_address = record { pnn = some 0; addr = addr_a } ∷ []

abbrev deterministic_cluster : Context
deterministic_cluster = record lcp2_cluster {
  tunable = record {
    no_ip_failback = 0;
    lcp2_public_ip_assignment = 0;
    deterministic_public_ips = 1;
  };
}

takeover_run-Fit_example :
    Fit one_banned
      (record { flags = 0; tval_noiptakeover = 0; tval_noiphostonalldisabled = 0; runstate = 5 })
unfolding allocation_code
takeover_run-Fit_example =
    takeover_run-Fit deterministic_cluster one_banned 200000 insertion_sort one_address []
      (omega arith) (omega arith) (record { pnn = some 1; addr = addr_a } ∷ []) refl 0 1
      (record { pnn = some 1; addr = addr_a })
      (record { flags = 0; tval_noiptakeover = 0; tval_noiphostonalldisabled = 0; runstate = 5 })
      refl refl refl

-- Two addresses on node 0 and one on node 1: no pass moves one.
abbrev balanced_ips : List PublicIp
balanced_ips =
    record { pnn = some 0; addr = addr_a }
    ∷ record { pnn = some 0; addr = addr_b }
    ∷ record { pnn = some 1; addr = addr_c }
    ∷ []

ip_distance-past_prefix_example :
    (96 ≤ ip_distance (inet6 1 7 7 7 0) (inet6 2 7 7 7 0)) × (word_distance 1 2 < 32)
ip_distance-past_prefix_example =
    ip_distance-past_prefix 1 2 7 7 7 0 0 (omega arith) (omega arith) (omega arith)
