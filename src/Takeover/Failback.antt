-- ===== src/Takeover/Failback.antt =====
-- server/ctdb_takeover.c: the rebalancing half of the LCP2 algorithm.
use Prim.Native.Nat.{compare, Ordering}
use ctdb.Base.{
  ℕ, zero, suc, ◌+◌, ◌-◌, Bool, true, false, ◌&&◌, Option, none, some, List, [], ◌∷◌, ltb, ◌==◌,
  u32, u32_mod, if◌then◌else◌, get_or, set,
}
use ctdb.Base.Fold.{fold_from}
use ctdb.Takeover.Nodes.{PublicIp, IpFlags, Context, on_node, can_node_takeover_ip}
use ctdb.Takeover.Lcp2.{Allocation, ip_distance_2_sum, set_pnn}

-- `minip`, `minsrcimbl`, `mindstnode` and `mindstimbl`
pub record Move : Type 0 where
  pub ip : ℕ
  pub srcimbl : ℕ
  pub dstnode : ℕ
  pub dstimbl : ℕ

-- `(srcimbl + dstimbl) < (minsrcimbl + mindstimbl)`, or the first move that is found
abbrev pub improves : Move → Option Move → Bool
improves m none = true
improves m (some n) = ltb (u32 (m.srcimbl + m.dstimbl)) (u32 (n.srcimbl + n.dstimbl))

-- The body of the loop over `dstnode`, for the address at position `k`.
unfoldable pub move_step :
    Context
    → ℕ
    → PublicIp
    → Allocation
    → List Bool
    → (candimbl srcdsum srcimbl : ℕ) → ℕ
    → IpFlags
    → Option Move
    → Option Move
move_step ctdb k ip a candidates candimbl srcdsum srcimbl i f best =
    if get_or candidates i false && can_node_takeover_ip ctdb i f ip
    then (let dstdsum = ip_distance_2_sum (some k) ip.addr a.all_ips i in
        let dstimbl = u32 (get_or a.lcp2_imbalances i 0 + dstdsum) in
        let m : Move = record { ip = k; srcimbl = srcimbl; dstnode = i; dstimbl = dstimbl } in
        if ltb dstimbl candimbl && ltb dstdsum srcdsum && improves m best then some m else best)
    else best

-- The variable `srcimbl` of the source, and the best move so far.
pub record Search : Type 0 where
  pub srcimbl : ℕ
  pub best : Option Move

-- The body of the loop over the addresses of `srcnode`.
unfoldable pub search_step :
    Context
    → List IpFlags
    → Allocation
    → List Bool
    → (srcnode candimbl : ℕ) → ℕ
    → PublicIp
    → Search
    → Search
search_step ctdb ipflags a candidates srcnode candimbl k ip s =
    if on_node ip.pnn srcnode
    then (let srcdsum = ip_distance_2_sum (some k) ip.addr a.all_ips srcnode in
        let srcimbl = u32 (candimbl + u32_mod - srcdsum) in
        record {
          srcimbl = srcimbl;
          best =
              fold_from (move_step ctdb k ip a candidates candimbl srcdsum srcimbl) ipflags 0
                s.best;
        })
    else s

unfoldable pub search_moves :
    Context → List IpFlags → Allocation → (srcnode candimbl : ℕ) → List Bool → Search
search_moves ctdb ipflags a srcnode candimbl candidates =
    fold_from (search_step ctdb ipflags a candidates srcnode candimbl) a.all_ips 0
      (record { srcimbl = 0; best = none })

-- The source stores the last `srcimbl` that the loop left, whichever address moves.
unfoldable pub move_ip : ℕ → ℕ → Move → Allocation → Allocation
move_ip srcnode srcimbl m a = record {
  all_ips = set_pnn a.all_ips m.ip m.dstnode;
  lcp2_imbalances = set (set a.lcp2_imbalances srcnode srcimbl) m.dstnode m.dstimbl;
}

-- The moved allocation where the source returns true, and `none` where it returns false.
unfoldable pub lcp2_failback_candidate :
    Context → List IpFlags → Allocation → (srcnode candimbl : ℕ) → List Bool → Option Allocation
lcp2_failback_candidate ctdb ipflags a srcnode candimbl candidates =
    let s = search_moves ctdb ipflags a srcnode candimbl candidates in
    elim s.best [ none ↦ none | some m ↦ some (move_ip srcnode s.srcimbl m a) ]

-- `struct lcp2_imbalance_pnn`
pub record ImbalancePnn : Type 0 where
  pub imbalance : ℕ
  pub pnn : ℕ

-- -1, 0 and 1 are `lt`, `eq` and `gt`: the larger imbalance comes first.
unfoldable pub lcp2_cmp_imbalance_pnn : ImbalancePnn → ImbalancePnn → Ordering
lcp2_cmp_imbalance_pnn a b = compare b.imbalance a.imbalance

unfoldable pub imbalance_pnns : List IpFlags → ℕ → List ℕ → List ImbalancePnn
imbalance_pnns [] i imbalances = []
imbalance_pnns (f ∷ fs) i imbalances =
    record { imbalance = get_or imbalances i 0; pnn = i } ∷ imbalance_pnns fs (i + 1) imbalances

unfoldable pub num_rebalance_candidates : List IpFlags → ℕ → List Bool → ℕ
num_rebalance_candidates [] i candidates = 0
num_rebalance_candidates (f ∷ fs) i candidates =
    (if get_or candidates i false then 1 else 0) + num_rebalance_candidates fs (i + 1) candidates

-- The loop over the sorted array: it stops at an imbalance of 0 and after a move.
unfoldable pub first_move :
    Context → List IpFlags → Allocation → List Bool → List ImbalancePnn → Option Allocation
first_move ctdb ipflags a candidates [] = none
first_move ctdb ipflags a candidates (l ∷ lips) =
    let next = first_move ctdb ipflags a candidates lips in
    if l.imbalance == 0
    then none
    else elim (lcp2_failback_candidate ctdb ipflags a l.pnn l.imbalance candidates) [
      | none ↦ next
      | some moved ↦ some moved
    ]

-- `qsort` of the C library, for the type of the array.
abbrev pub Qsort : Type 0
Qsort = (ImbalancePnn → ImbalancePnn → Ordering) → List ImbalancePnn → List ImbalancePnn

-- One round from `try_again`; `none` if the function returns.
unfoldable pub failback_round :
    Qsort → Context → List IpFlags → Allocation → List Bool → Option Allocation
failback_round qsort ctdb ipflags a candidates =
    if num_rebalance_candidates ipflags 0 candidates == 0
    then none
    else first_move ctdb ipflags a candidates
        (qsort lcp2_cmp_imbalance_pnn (imbalance_pnns ipflags 0 a.lcp2_imbalances))

-- The rounds on fuel; `none` means that the fuel ran out.
unfoldable pub lcp2_failback :
    ℕ → Qsort → Context → List IpFlags → Allocation → List Bool → Option Allocation
lcp2_failback zero qsort ctdb ipflags a candidates = none
lcp2_failback (suc fuel) qsort ctdb ipflags a candidates =
    elim (failback_round qsort ctdb ipflags a candidates) [
      | none ↦ some a
      | some moved ↦ lcp2_failback fuel qsort ctdb ipflags moved candidates
    ]
