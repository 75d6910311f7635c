-- ===== src/Takeover/Places.antt =====
-- The allocation of the unassigned addresses in server/ctdb_takeover.c by their cost.
use ctdb.Base.{
  ℕ, zero, suc, ◌+◌, ◌<◌, ◌≡◌, ◌≢◌, refl, ◌∙◌, arith, Bool, true, false, Option-cases, Bool-cases,
  inl, inr, Option, none, some, List, get_elem?, get_or, if-elim, All, All_of_get, get_of_All, u32,
}
use ctdb.Base.Fold.{fold_from, fold_from_inv, fold_from_rel, fold_from_reach}
use ctdb.Takeover.Nodes.{PublicIp, IpFlags, Context, is_unassigned, can_node_takeover_ip}
use ctdb.Takeover.Basic.{hosts}
use ctdb.Takeover.Lcp2.{
  Allocation, Placement, ip_distance_2_sum, place_step, place_ip_step, best_placement, place,
  have_unassigned, lcp2_allocate_unassigned, cheaper,
}
use ctdb.Takeover.Placed.{
  addrs, IsPlaced, IsSuitable, is_placed, is_suitable, takeover-hosts, has_taker, taker_step,
  NoneMeansFalse, IsSuitable-IsPlaced,
}
use ctdb.Takeover.Assign.{
  set_pnn-addrs, set_pnn-All, set_pnn-other, set_pnn-num_unassigned, num_unassigned,
  have_unassigned-false,
}

module _ (ctdb : Context) (ipflags : List IpFlags) (a : Allocation) where
  -- The placement is of an unassigned address on a node that may host it.
  abbrev GoodPlace : Placement → Type 0
  GoodPlace p =
      (t : PublicIp) × (get_elem? a.all_ips p.ip ≡ some t)
      × (is_unassigned t.pnn ≡ true)
      × (hosts ctdb ipflags p.node (record t { pnn = some p.node }) ≡ true)

  abbrev BestPlace : Option Placement → Type 0
  BestPlace o = elim o [ none ↦ Unit | some p ↦ GoodPlace p ]

  cheaper-Good :
      (p : Placement) (o : Option Placement) → GoodPlace p → BestPlace o → BestPlace (cheaper p o)
  cheaper-Good p none g h = g
  cheaper-Good p (some q) g h = if-elim BestPlace _ (some p) (some q) (λ _. g) (λ _. h)

  place_step-Good :
      (k : ℕ) (ip : PublicIp) (j : ℕ) (f : IpFlags) (best : Option Placement)
      → get_elem? a.all_ips k ≡ some ip
      → is_unassigned ip.pnn ≡ true
      → get_elem? ipflags j ≡ some f
      → BestPlace best
      → BestPlace (place_step ctdb k ip a j f best)
  unfolding place_step
  place_step-Good k ip j f best e u g h =
      let dsum = ip_distance_2_sum (some k) ip.addr a.all_ips j in
      let p : Placement = record {
        node = j;
        ip = k;
        dsum = dsum;
        imbl = u32 (get_or a.lcp2_imbalances j 0 + dsum);
      } in
      if-elim BestPlace (can_node_takeover_ip ctdb j f ip) (cheaper p best) best
        (λ t. cheaper-Good p best (ip, e, u, takeover-hosts ctdb ipflags j f ip (some j) g t) h)
        (λ _. h)

  best_placement-Good : BestPlace (best_placement ctdb ipflags a)
  unfolding best_placement place_ip_step
  best_placement-Good =
      fold_from_inv BestPlace _ a.all_ips none
        (λ k ip best e h.
          if-elim BestPlace (is_unassigned ip.pnn)
            (fold_from (place_step ctdb k ip a) ipflags 0 best) best
            (λ u.
              fold_from_inv BestPlace (place_step ctdb k ip a) ipflags best
                (λ j f o g q. place_step-Good k ip j f o e u g q) h)
            (λ _. h))
        tt

  abbrev Found : Option Placement → Bool → Type 0
  Found = NoneMeansFalse

  place_step-Found :
      (k : ℕ) (ip x : PublicIp) (j : ℕ) (f : IpFlags) (o : Option Placement) (b : Bool)
      → Found o b
      → Found (place_step ctdb k ip a j f o) b
  unfolding place_step
  place_step-Found k ip x j f none b h = ground arith
  place_step-Found k ip x j f (some p) b h = ground arith

  place_ip_step-Found :
      (k : ℕ) (ip : PublicIp) (o : Option Placement) (b : Bool)
      → Found o b
      → Found (place_ip_step ctdb ipflags a k ip o) b
  unfolding place_ip_step
  place_ip_step-Found k ip o b h =
      if-elim (λ r. Found r b) (is_unassigned ip.pnn)
        (fold_from (place_step ctdb k ip a) ipflags 0 o) o
        (λ u.
          fold_from_inv (λ r. Found r b) (place_step ctdb k ip a) ipflags o
            (λ j f r g q. place_step-Found k ip ip j f r b q) h)
        (λ _. h)

  place_ip_step-takers :
      (k : ℕ) (ip : PublicIp) (o : Option Placement)
      → is_unassigned ip.pnn ≡ true
      → Found (place_ip_step ctdb ipflags a k ip o) (has_taker ctdb ipflags ip)
  unfolding place_ip_step place_step has_taker taker_step
  place_ip_step-takers k ip o u =
      rw (u, place_ip_step)
        (fold_from_rel Found (place_step ctdb k ip a) (taker_step ctdb ipflags ip)
          (λ j f s t h. ground arith) ipflags 0 o false (ground arith))

  best_placement_complete :
      (k : ℕ) (ip : PublicIp)
      → get_elem? a.all_ips k ≡ some ip
      → is_unassigned ip.pnn ≡ true
      → Found (best_placement ctdb ipflags a) (has_taker ctdb ipflags ip)
  unfolding best_placement
  best_placement_complete k ip e u =
      fold_from_reach (λ o. Found o (has_taker ctdb ipflags ip)) (place_ip_step ctdb ipflags a)
        a.all_ips none e (λ o. place_ip_step-takers k ip o u)
        (λ j x o h. place_ip_step-Found j x o _ h)

module _ (ctdb : Context) (ipflags : List IpFlags) where
  -- `b` is `a` with each address that was assigned still where it was.
  abbrev pub Keeps : Allocation → Allocation → Type 0
  Keeps a b =
      (k n : ℕ) (t : PublicIp)
      → get_elem? a.all_ips k ≡ some t
      → t.pnn ≡ some n
      → get_elem? b.all_ips k ≡ some t

  record Placing (a b : Allocation) : Type 0 where
    suitable : All (IsSuitable ctdb ipflags) b.all_ips
    same : addrs b.all_ips ≡ addrs a.all_ips
    fewer : num_unassigned b.all_ips + 1 ≡ num_unassigned a.all_ips
    keeps : Keeps a b

  other_place :
      (ips : List PublicIp) (i k n : ℕ) (t x : PublicIp)
      → get_elem? ips i ≡ some t
      → is_unassigned t.pnn ≡ true
      → get_elem? ips k ≡ some x
      → x.pnn ≡ some n
      → i ≢ k
  other_place ips i k n t x e u ex ax q =
      let e' : get_elem? ips k ≡ some t = rw (← q) e in
      let same_ip : t ≡ x = cc in
      let u' : is_unassigned x.pnn ≡ true = rw (← same_ip) u in ground arith

  place-Placing :
      (a : Allocation) (p : Placement)
      → All (IsSuitable ctdb ipflags) a.all_ips
      → GoodPlace ctdb ipflags a p
      → Placing a (place p a)
  unfolding place is_suitable
  place-Placing a p suit (t, e, u, host) = record {
    suitable = set_pnn-All (IsSuitable ctdb ipflags) a.all_ips p.ip p.node t e host suit;
    same = set_pnn-addrs a.all_ips p.ip p.node;
    fewer = set_pnn-num_unassigned a.all_ips p.ip p.node t e u;
    keeps = λ k n x ex ax.
        set_pnn-other a.all_ips p.ip p.node k (other_place a.all_ips p.ip k n t x e u ex ax) ∙ ex;
  }

  All-IsPlaced :
      (a : Allocation)
      → All (IsSuitable ctdb ipflags) a.all_ips
      → ((k : ℕ) (t : PublicIp)
          → get_elem? a.all_ips k ≡ some t
          → is_unassigned t.pnn ≡ true
          → IsPlaced ctdb ipflags t)
      → All (IsPlaced ctdb ipflags) a.all_ips
  All-IsPlaced a suit open_ips = All_of_get (IsPlaced ctdb ipflags) a.all_ips λ k t e.
      elim (Bool-cases (is_unassigned t.pnn)) [
        | inl u ↦ open_ips k t e u
        | inr s ↦
            IsSuitable-IsPlaced ctdb ipflags t
              (get_of_All (IsSuitable ctdb ipflags) a.all_ips k t suit e) s
      ]

  -- What the loop returns.
  abbrev pub Allocated : Allocation → Option Allocation → Type 0
  Allocated a o =
      (b : Allocation) × (o ≡ some b)
      × All (IsPlaced ctdb ipflags) b.all_ips
      × (addrs b.all_ips ≡ addrs a.all_ips)
      × Keeps a b

  -- When no placement is left, or no unassigned address, every address is placed.
  stop_none :
      (a : Allocation)
      → All (IsSuitable ctdb ipflags) a.all_ips
      → best_placement ctdb ipflags a ≡ none
      → Allocated a (some a)
  unfolding is_placed
  stop_none a suit e = (
    a,
    refl,
    All-IsPlaced a suit (λ k t g u.
        let none_found = rw e at (best_placement_complete ctdb ipflags a k t g u) in ground arith),
    refl,
    λ k n t g h. g,
  )

  stop_full :
      (a b : Allocation) → Placing a b → have_unassigned b.all_ips ≡ false → Allocated a (some b)
  stop_full a b p h = (
    b,
    refl,
    All-IsPlaced b p.suitable (λ k t g u. let s = have_unassigned-false b.all_ips k t h g in cc),
    p.same,
    p.keeps,
  )

  later-Allocated :
      (a b : Allocation) (o : Option Allocation) → Placing a b → Allocated b o → Allocated a o
  later-Allocated a b o p (c, e, placed, same, keeps) =
      (c, e, placed, same ∙ p.same, λ k n t g h. keeps k n t (p.keeps k n t g h) h)

  -- With more fuel than unassigned addresses the loop returns: every address is placed, and those
  -- that had a node keep it.
  pub lcp2_allocate-total :
      (fuel : ℕ) (a : Allocation)
      → num_unassigned a.all_ips < fuel
      → All (IsSuitable ctdb ipflags) a.all_ips
      → Allocated a (lcp2_allocate_unassigned fuel ctdb ipflags a)
  unfolding lcp2_allocate_unassigned
  lcp2_allocate-total zero a enough suit = elim enough [ ]
  lcp2_allocate-total (suc fuel) a enough suit =
      elim (Option-cases (best_placement ctdb ipflags a)) [
        | inl e ↦ rw (e, lcp2_allocate_unassigned) (stop_none a suit e)
        | inr (p, e) ↦
            let step = place-Placing a p suit (rw e at (best_placement-Good ctdb ipflags a)) in
            elim (Bool-cases (have_unassigned (place p a).all_ips)) [
              | inl more ↦
                  rw (e, lcp2_allocate_unassigned, more)
                    (later-Allocated a (place p a) _ step (
                      lcp2_allocate-total fuel (place p a) (omega (arith, step.fewer))
                        step.suitable))
              | inr full ↦
                  rw (e, lcp2_allocate_unassigned, full) (stop_full a (place p a) step full)
            ]
      ]
