-- ===== src/Takeover/Moves.antt =====
-- The rebalancing of server/ctdb_takeover.c comes to an end: each move lowers the exact imbalance.
use ctdb.Base.{
  ℕ, zero, suc, ◌+◌, ◌≤◌, ◌<◌, ◌≡◌, refl, ap, ◌∙◌, arith, if◌then◌else◌, Bool, true, false, ◌&&◌,
  ltb, Option, none, some, List, [], ◌∷◌, length, get_elem?, get_or, if-elim, split_at, All, u32,
}
use ctdb.Base.Fold.{fold_from_inv}
use ctdb.Takeover.Nodes.{PublicIp, IpFlags, Context, on_node, can_node_takeover_ip}
use ctdb.Takeover.Basic.{hosts}
use ctdb.Takeover.Lcp2.{Allocation, ip_distance_2_sum, set_pnn}
use ctdb.Takeover.Failback.{
  Move, improves, move_step, Search, search_step, search_moves, move_ip, lcp2_failback_candidate,
  ImbalancePnn, first_move, Qsort, lcp2_cmp_imbalance_pnn, imbalance_pnns, failback_round,
  lcp2_failback,
}
use ctdb.Takeover.Placed.{addrs, IsPlaced, is_placed, takeover-hosts}
use ctdb.Takeover.Assign.{set_pnn-addrs, set_pnn-All, length-addrs}
use ctdb.Takeover.Energy.{max_ips, energy, sum-others, energy-insert, set_pnn-append}

-- Moving an address from its node to one where it costs less lowers the imbalance by the difference.
energy-move :
    (ips : List PublicIp) (k src dst : ℕ) (t : PublicIp)
    → length ips < max_ips
    → get_elem? ips k ≡ some t
    → on_node t.pnn src ≡ true
    → energy (set_pnn ips k dst) + ip_distance_2_sum (some k) t.addr ips src
      ≡ energy ips + ip_distance_2_sum (some k) t.addr ips dst
energy-move ips k src dst t h e on =
    let (xs, ys, s, n) = split_at ips k e in
    rw (← n, s)
      (ground (
        arith,
        set_pnn-append xs t ys dst,
        energy-insert xs t ys,
        energy-insert xs (record t { pnn = some dst }) ys,
        sum-others t.addr xs t ys src (rw s at h),
        sum-others t.addr xs t ys dst (rw s at h),
      ))

module _ (ctdb : Context) (ipflags : List IpFlags) (a : Allocation) (src : ℕ) where
  -- A move is worth making: it is of an address of the source node, to a node that may host the
  -- address and where the address costs less.
  abbrev GoodMove : Move → Type 0
  GoodMove m =
      (t : PublicIp) × (get_elem? a.all_ips m.ip ≡ some t)
      × (on_node t.pnn src ≡ true)
      × (hosts ctdb ipflags m.dstnode (record t { pnn = some m.dstnode }) ≡ true)
      × (ltb (ip_distance_2_sum (some m.ip) t.addr a.all_ips m.dstnode)
            (ip_distance_2_sum (some m.ip) t.addr a.all_ips src)
          ≡ true)

  abbrev BestGood : Option Move → Type 0
  BestGood o = elim o [ none ↦ Unit | some m ↦ GoodMove m ]

  module _ (candidates : List Bool) (candimbl : ℕ) where
    move_step-Good :
        (k : ℕ) (ip : PublicIp) (srcimbl j : ℕ) (f : IpFlags) (best : Option Move)
        → get_elem? a.all_ips k ≡ some ip
        → on_node ip.pnn src ≡ true
        → get_elem? ipflags j ≡ some f
        → BestGood best
        → BestGood (
            move_step ctdb k ip a candidates candimbl
              (ip_distance_2_sum (some k) ip.addr a.all_ips src)
              srcimbl
              j
              f
              best)
    unfolding move_step
    move_step-Good k ip srcimbl j f best e on g h =
        let dsum = ip_distance_2_sum (some k) ip.addr a.all_ips j in
        let imbl = u32 (get_or a.lcp2_imbalances j 0 + dsum) in
        let m : Move = record { ip = k; srcimbl = srcimbl; dstnode = j; dstimbl = imbl } in
        let better : Bool =
          ltb imbl candimbl
          && ltb dsum (ip_distance_2_sum (some k) ip.addr a.all_ips src)
          && improves m best in
        if-elim BestGood (get_or candidates j false && can_node_takeover_ip ctdb j f ip)
          (if better then some m else best) best
          (λ takes.
            if-elim BestGood better (some m) best
              (λ lower. (
                ip,
                e,
                on,
                takeover-hosts ctdb ipflags j f ip (some j) g (ground arith),
                ground arith,
              ))
              (λ _. h))
          (λ _. h)

    search_step-Good :
        (k : ℕ) (ip : PublicIp) (s : Search)
        → get_elem? a.all_ips k ≡ some ip
        → BestGood s.best
        → BestGood (search_step ctdb ipflags a candidates src candimbl k ip s).best
    unfolding search_step
    search_step-Good k ip s e h =
        if-elim (λ (r : Search). BestGood r.best) (on_node ip.pnn src) _ _
          (λ on.
            fold_from_inv BestGood _ ipflags s.best
              (λ j f best g p. move_step-Good k ip _ j f best e on g p) h)
          (λ _. h)

    search_moves-Good : BestGood (search_moves ctdb ipflags a src candimbl candidates).best
    unfolding search_moves
    search_moves-Good =
        fold_from_inv (λ s. BestGood s.best) _ a.all_ips _
          (λ k ip s e h. search_step-Good k ip s e h) tt

-- What a move of the rebalancing does to the addresses.
module _ (ctdb : Context) (ipflags : List IpFlags) where
  abbrev pub Lower : Allocation → Option Allocation → Type 0
  Lower a o = elim o [
    | none ↦ Unit
    | some b ↦
        All (IsPlaced ctdb ipflags) b.all_ips
        × (addrs b.all_ips ≡ addrs a.all_ips)
        × (energy b.all_ips < energy a.all_ips)
  ]

  module _ (a : Allocation) (few : length a.all_ips < max_ips)
      (placed : All (IsPlaced ctdb ipflags) a.all_ips) (candidates : List Bool) where
    move_ip-Lower :
        (src srcimbl : ℕ) (m : Move)
        → GoodMove ctdb ipflags a src m
        → Lower a (some (move_ip src srcimbl m a))
    unfolding move_ip is_placed
    move_ip-Lower src srcimbl m (t, e, on, host, less) = (
      set_pnn-All (IsPlaced ctdb ipflags) a.all_ips m.ip m.dstnode t e host placed,
      set_pnn-addrs a.all_ips m.ip m.dstnode,
      ground (arith, energy-move a.all_ips m.ip src m.dstnode t few e on),
    )

    candidate-Lower :
        (src candimbl : ℕ)
        → Lower a (lcp2_failback_candidate ctdb ipflags a src candimbl candidates)
    unfolding lcp2_failback_candidate
    candidate-Lower src candimbl =
        go (search_moves ctdb ipflags a src candimbl candidates).best
          (search_moves-Good ctdb ipflags a src candidates candimbl)
      where
        go :
            (o : Option Move)
            → BestGood ctdb ipflags a src o
            → Lower a (elim o [
              | none ↦ none
              | some m ↦
                  some
                    (move_ip src (search_moves ctdb ipflags a src candimbl candidates).srcimbl m a)
            ])
        go none h = tt
        go (some m) h = move_ip-Lower src _ m h

    first_move-Lower :
        (lips : List ImbalancePnn) → Lower a (first_move ctdb ipflags a candidates lips)
    unfolding first_move
    first_move-Lower [] = tt
    first_move-Lower (l ∷ lips) =
        ground (arith, candidate-Lower l.pnn l.imbalance, first_move-Lower lips)

    failback_round-Lower :
        (qsort : Qsort) → Lower a (failback_round qsort ctdb ipflags a candidates)
    unfolding failback_round
    failback_round-Lower qsort = ground (
      arith,
      first_move-Lower (qsort lcp2_cmp_imbalance_pnn (imbalance_pnns ipflags 0 a.lcp2_imbalances)),
    )

  -- With more fuel than the exact imbalance the rebalancing returns, with every address placed.
  pub lcp2_failback-total :
      (fuel : ℕ) (qsort : Qsort) (a : Allocation) (candidates : List Bool)
      → length a.all_ips < max_ips
      → energy a.all_ips < fuel
      → All (IsPlaced ctdb ipflags) a.all_ips
      → (b : Allocation) × (lcp2_failback fuel qsort ctdb ipflags a candidates ≡ some b)
        × All (IsPlaced ctdb ipflags) b.all_ips
        × (addrs b.all_ips ≡ addrs a.all_ips)
        × (energy b.all_ips ≤ energy a.all_ips)
  unfolding lcp2_failback
  lcp2_failback-total zero qsort a candidates few enough placed = elim enough [ ]
  lcp2_failback-total (suc fuel) qsort a candidates few enough placed =
      go (failback_round qsort ctdb ipflags a candidates)
        (failback_round-Lower a few placed candidates qsort)
        (λ b. lcp2_failback-total fuel qsort b candidates)
    where
      go :
          (o : Option Allocation)
          → Lower a o
          → ((b : Allocation)
              → length b.all_ips < max_ips
              → energy b.all_ips < fuel
              → All (IsPlaced ctdb ipflags) b.all_ips
              → (c : Allocation) × (lcp2_failback fuel qsort ctdb ipflags b candidates ≡ some c)
                × All (IsPlaced ctdb ipflags) c.all_ips
                × (addrs c.all_ips ≡ addrs b.all_ips)
                × (energy c.all_ips ≤ energy b.all_ips))
          → (c : Allocation) × ((elim o [
            | none ↦ some a
            | some moved ↦ lcp2_failback fuel qsort ctdb ipflags moved candidates
          ])
              ≡ some c)
            × All (IsPlaced ctdb ipflags) c.all_ips
            × (addrs c.all_ips ≡ addrs a.all_ips)
            × (energy c.all_ips ≤ energy a.all_ips)
      go none h rec = (a, refl, placed, refl, omega arith)
      go (some b) (p, s, lower) rec =
          let same = length-addrs b.all_ips in
          let same' = length-addrs a.all_ips in
          let (c, e, q, t, le) = rec b (omega (arith, ap length s)) (omega arith) p in
          (c, e, q, t ∙ s, omega arith)
