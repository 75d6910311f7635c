-- ===== src/Takeover/Theorems.antt =====
-- What a run of the allocation in server/ctdb_takeover.c leaves, whichever algorithm is configured.
use ctdb.Base.{
  ℕ, ◌+◌, ◌*◌, ◌<◌, ◌≡◌, refl, ◌∙◌, ap, arith, Option, some, List, length, get_elem?, All, true,
  Bool-cases, inl, inr, ◌==◌, [], ◌∷◌, zero, suc,
}
use ctdb.Takeover.Nodes.{PublicIp, IpFlags, Context}
use ctdb.Takeover.Basic.{
  basic_allocate_unassigned, basic_failback, unassign_unsuitable_ips, unassign_unsuitable_ip, hosts,
  ip_alloc_deterministic_ips,
}
use ctdb.Takeover.Lcp2.{Allocation, lcp2_init, lcp2_allocate_unassigned}
use ctdb.Takeover.Failback.{Qsort}
use ctdb.Takeover.Run.{ip_alloc_nondeterministic_ips, ip_alloc_lcp2, ctdb_takeover_run_core}
use ctdb.Takeover.Placed.{addrs, IsPlaced}
use ctdb.Takeover.Coverage.{
  unassign_unsuitable_ips-IsSuitable, unassign_unsuitable_ips-addrs, allocate_suitable-Keeps,
  basic_failback-Keeps, ip_alloc_deterministic_ips-Keeps,
}
use ctdb.Takeover.Assign.{num_unassigned-le, length-addrs}
use ctdb.Takeover.Energy.{max_ips, energy, energy-le}
use ctdb.Takeover.Moves.{lcp2_failback-total}
use ctdb.Takeover.Places.{lcp2_allocate-total, Allocated}

-- An address on a node that may host it stays as it is.
unassign-hosted :
    (ctdb : Context) (ipflags : List IpFlags) (ips : List PublicIp) (k n : ℕ) (ip : PublicIp)
    → get_elem? ips k ≡ some ip
    → ip.pnn ≡ some n
    → hosts ctdb ipflags n ip ≡ true
    → get_elem? (unassign_unsuitable_ips ctdb ipflags ips) k ≡ some ip
unfolding unassign_unsuitable_ips unassign_unsuitable_ip
unassign-hosted ctdb ipflags [] k n ip e p h = cc
unassign-hosted ctdb ipflags (x ∷ ips) zero n ip e p h = let q : x ≡ ip = cc in rw q (ground arith)
unassign-hosted ctdb ipflags (x ∷ ips) (suc k) n ip e p h =
    unassign-hosted ctdb ipflags ips k n ip e p h

module _ (ctdb : Context) (ipflags : List IpFlags) where
  -- The run returns, with the same addresses in the same order, each placed.
  abbrev pub Places : List PublicIp → Option (List PublicIp) → Type 0
  Places ips o =
      (r : List PublicIp) × (o ≡ some r) × All (IsPlaced ctdb ipflags) r × (addrs r ≡ addrs ips)

  nondeterministic-Places :
      (ips : List PublicIp) → Places ips (some (ip_alloc_nondeterministic_ips ctdb ipflags ips))
  unfolding ip_alloc_nondeterministic_ips
  nondeterministic-Places ips =
      let allocated =
        basic_allocate_unassigned ctdb ipflags (unassign_unsuitable_ips ctdb ipflags ips) in
      let k = allocate_suitable-Keeps ctdb ipflags ips in
      let b = basic_failback-Keeps ctdb ipflags (length ips + 5) allocated k.0 in
      elim (Bool-cases (ctdb.tunable.no_ip_failback == 1)) [
        | inl keep ↦ rw keep (allocated, refl, k.0, k.1)
        | inr move ↦
            rw move (basic_failback ctdb ipflags (length ips + 5) allocated, refl, b.0, b.1 ∙ k.1)
      ]

  module _ (fuel : ℕ) (qsort : Qsort) (ips : List PublicIp) (forced : List ℕ)
      (few : length ips < max_ips)
      (enough : 16384 * (length ips * length ips) + length ips < fuel) where
    abbrev suitable : List PublicIp
    suitable = unassign_unsuitable_ips ctdb ipflags ips

    abbrev start : Allocation
    start = record { all_ips = suitable; lcp2_imbalances = (lcp2_init ipflags suitable forced).0 }

    length-same : (r : List PublicIp) → addrs r ≡ addrs suitable → length r ≡ length ips
    length-same r e = omega (
      arith,
      ap length e,
      ap length (unassign_unsuitable_ips-addrs ctdb ipflags ips),
      length-addrs r,
      length-addrs ips,
    )

    lcp2-Allocated : Allocated ctdb ipflags start (lcp2_allocate_unassigned fuel ctdb ipflags start)
    lcp2-Allocated =
        lcp2_allocate-total ctdb ipflags fuel start
          (omega (arith, num_unassigned-le suitable, length-same suitable refl))
          (unassign_unsuitable_ips-IsSuitable ctdb ipflags ips)

    energy-lt-fuel : (r : List PublicIp) → addrs r ≡ addrs suitable → energy r < fuel
    energy-lt-fuel r e =
        let same = length-same r e in omega (arith, energy-le r, ap (λ (n : ℕ). n * n) same)

    lcp2-Places : Places ips (ip_alloc_lcp2 fuel qsort ctdb ipflags ips forced)
    unfolding ip_alloc_lcp2
    lcp2-Places =
        let (a, ea, pa, sa, ka) = lcp2-Allocated in
        let (b, eb, pb, sb, lb) =
          lcp2_failback-total ctdb ipflags fuel qsort a (lcp2_init ipflags suitable forced).1
            (omega (arith, length-same a.all_ips sa)) (energy-lt-fuel a.all_ips sa) pa in
        let same = unassign_unsuitable_ips-addrs ctdb ipflags ips in
        elim (Bool-cases (ctdb.tunable.no_ip_failback == 1)) [
          | inl keep ↦ rw (ea, ip_alloc_lcp2, keep) (a.all_ips, refl, pa, sa ∙ same)
          | inr move ↦ rw (ea, ip_alloc_lcp2, move, eb) (b.all_ips, refl, pb, sb ∙ sa ∙ same)
        ]

    -- Whichever algorithm the tunables choose, and whatever order `qsort` gives to the nodes, the run
    -- ends. It leaves the same addresses, and each is on a node that may host it, unless no node may
    -- take it over. The addresses are fewer than 2 ^ 18, and the fuel exceeds the bound of the loops.
    pub takeover_run-Places : Places ips (ctdb_takeover_run_core fuel qsort ctdb ipflags ips forced)
    unfolding ctdb_takeover_run_core
    takeover_run-Places =
        let d = ip_alloc_deterministic_ips-Keeps ctdb ipflags ips in
        elim (Bool-cases (ctdb.tunable.lcp2_public_ip_assignment == 1)) [
          | inl lcp2 ↦ rw lcp2 lcp2-Places
          | inr other ↦ elim (Bool-cases (ctdb.tunable.deterministic_public_ips == 1)) [
            | inl det ↦
                rw (other, det) (ip_alloc_deterministic_ips ctdb ipflags ips, refl, d.0, d.1)
            | inr nondet ↦ rw (other, nondet) (nondeterministic-Places ips)
          ]
        ]

    -- With failback switched off the LCP2 algorithm returns and moves no address from a node that may
    -- still host it.
    pub lcp2-keeps_hosted :
        (k n : ℕ) (ip : PublicIp)
        → ctdb.tunable.no_ip_failback ≡ 1
        → get_elem? ips k ≡ some ip
        → ip.pnn ≡ some n
        → hosts ctdb ipflags n ip ≡ true
        → (r : List PublicIp) × (ip_alloc_lcp2 fuel qsort ctdb ipflags ips forced ≡ some r)
          × (get_elem? r k ≡ some ip)
    unfolding ip_alloc_lcp2
    lcp2-keeps_hosted k n ip off e p h =
        let (a, ea, pa, sa, ka) = lcp2-Allocated in
        let keep : (ctdb.tunable.no_ip_failback == 1) ≡ true = ground arith in
        rw (ea, ip_alloc_lcp2, keep)
          (a.all_ips, refl, ka k n ip (unassign-hosted ctdb ipflags ips k n ip e p h) p)
