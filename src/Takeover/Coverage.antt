-- ===== src/Takeover/Coverage.antt =====
-- The algorithms of server/ctdb_takeover.c that balance the number of addresses: what they leave.
use mathlib.Core.List.{map, map-append, append_assoc}
use ctdb.Base.{
  ℕ, zero, suc, ◌+◌, Option, none, some, List, [], ◌∷◌, ◌++◌, ◌≡◌, refl, inl, inr, arith, All,
  All-append, Option-cases, if◌then◌else◌, ap, ◌∙◌, length, sym,
}
use ctdb.Takeover.Nodes.{PublicIp, IpFlags, Context, is_unassigned}
use ctdb.Takeover.Basic.{
  find_takeover_node, unassign_unsuitable_ip, unassign_unsuitable_ips, allocate_from,
  basic_allocate_unassigned, reassign_first, rebalance_pass, basic_failback, assign_modulo,
  ip_alloc_deterministic_ips, overloaded, spread,
}
use ctdb.Takeover.Placed.{
  addrs, IsPlaced, IsSuitable, find_takeover_node-IsPlaced, find_takeover_node-addr,
  unassign_unsuitable_ip-IsSuitable, IsSuitable-IsPlaced,
}

module _ (ctdb : Context) (ipflags : List IpFlags) where
  abbrev pub Placed : List PublicIp → Type 0
  Placed = All (IsPlaced ctdb ipflags)

  pub unassign_unsuitable_ips-IsSuitable :
      (ips : List PublicIp)
      → All (IsSuitable ctdb ipflags) (unassign_unsuitable_ips ctdb ipflags ips)
  unfolding unassign_unsuitable_ips
  unassign_unsuitable_ips-IsSuitable [] = tt
  unassign_unsuitable_ips-IsSuitable (ip ∷ ips) =
      (unassign_unsuitable_ip-IsSuitable ctdb ipflags ip, unassign_unsuitable_ips-IsSuitable ips)

  pub unassign_unsuitable_ips-addrs :
      (ips : List PublicIp) → addrs (unassign_unsuitable_ips ctdb ipflags ips) ≡ addrs ips
  unfolding unassign_unsuitable_ips unassign_unsuitable_ip
  unassign_unsuitable_ips-addrs [] = refl
  unassign_unsuitable_ips-addrs (ip ∷ ips) = ground (arith, unassign_unsuitable_ips-addrs ips)

  -- One round of the allocation.
  allocate_one : PublicIp → List PublicIp → PublicIp
  allocate_one ip all_ips =
      if is_unassigned ip.pnn then find_takeover_node ctdb ipflags ip all_ips else ip

  allocate_one-IsPlaced :
      (ip : PublicIp) (all_ips : List PublicIp)
      → IsSuitable ctdb ipflags ip
      → IsPlaced ctdb ipflags (allocate_one ip all_ips)
  unfolding allocate_one
  allocate_one-IsPlaced ip all_ips s = ground (
    arith,
    find_takeover_node-IsPlaced ctdb ipflags ip all_ips,
    IsSuitable-IsPlaced ctdb ipflags ip s,
  )

  allocate_one-addr :
      (ip : PublicIp) (all_ips : List PublicIp) → (allocate_one ip all_ips).addr ≡ ip.addr
  unfolding allocate_one
  allocate_one-addr ip all_ips = ground (arith, find_takeover_node-addr ctdb ipflags ip all_ips)

  allocate_from-Placed :
      (front rest : List PublicIp)
      → Placed front
      → All (IsSuitable ctdb ipflags) rest
      → Placed (allocate_from ctdb ipflags front rest)
  unfolding allocate_from allocate_one
  allocate_from-Placed front [] p s = p
  allocate_from-Placed front (ip ∷ rest) p s =
      allocate_from-Placed (front ++ allocate_one ip (front ++ ip ∷ rest) ∷ []) rest
        (All-append (IsPlaced ctdb ipflags) front _ p
          (allocate_one-IsPlaced ip (front ++ ip ∷ rest) s.0, tt))
        s.1

  allocate_from-addrs :
      (front rest : List PublicIp)
      → addrs (allocate_from ctdb ipflags front rest) ≡ addrs front ++ addrs rest
  unfolding allocate_from allocate_one
  allocate_from-addrs front [] = simp mathlib.Core.List.append-nil
  allocate_from-addrs front (ip ∷ rest) =
      let x = allocate_one ip (front ++ ip ∷ rest) in
      allocate_from-addrs (front ++ x ∷ []) rest
      ∙ ap (λ l. l ++ addrs rest) (map-append (λ ip. ip.addr) front (x ∷ []))
      ∙ append_assoc (addrs front) (x.addr ∷ []) (addrs rest)
      ∙ ap (λ a. addrs front ++ a ∷ addrs rest) (allocate_one-addr ip (front ++ ip ∷ rest))

  pub basic_allocate-Placed :
      (ips : List PublicIp)
      → All (IsSuitable ctdb ipflags) ips
      → Placed (basic_allocate_unassigned ctdb ipflags ips)
  unfolding basic_allocate_unassigned
  basic_allocate-Placed ips s = allocate_from-Placed [] ips tt s

  pub basic_allocate-addrs :
      (ips : List PublicIp) → addrs (basic_allocate_unassigned ctdb ipflags ips) ≡ addrs ips
  unfolding basic_allocate_unassigned
  basic_allocate-addrs ips = allocate_from-addrs [] ips

  -- The result of a step that may change nothing.
  abbrev pub Keeps : List PublicIp → Option (List PublicIp) → Type 0
  Keeps ips o = elim o [ none ↦ Unit | some moved ↦ Placed moved × (addrs moved ≡ addrs ips) ]

  reassign_here :
      (front rest : List PublicIp) (tmp : PublicIp) (all_ips : List PublicIp)
      → Placed front
      → Placed (tmp ∷ rest)
      → Keeps
          (front ++ tmp ∷ rest)
          (some (front ++ find_takeover_node ctdb ipflags tmp all_ips ∷ rest))
  reassign_here front rest tmp all_ips p q =
      let moved = find_takeover_node ctdb ipflags tmp all_ips in
      (
        All-append (IsPlaced ctdb ipflags) front (moved ∷ rest) p
            (find_takeover_node-IsPlaced ctdb ipflags tmp all_ips (inl q.0), q.1),
        map-append (λ ip. ip.addr) front (moved ∷ rest)
            ∙ ap (λ a. addrs front ++ a ∷ addrs rest)
                (find_takeover_node-addr ctdb ipflags tmp all_ips)
            ∙ sym (map-append (λ ip. ip.addr) front (tmp ∷ rest)),
      )

  reassign_first-Keeps :
      (maxnode : ℕ) (front rest : List PublicIp)
      → Placed front
      → Placed rest
      → Keeps (front ++ rest) (reassign_first ctdb ipflags maxnode front rest)
  unfolding reassign_first
  reassign_first-Keeps maxnode front [] p q = tt
  reassign_first-Keeps maxnode front (tmp ∷ rest) p q =
      let ih : Keeps (front ++ tmp ∷ rest)
          (reassign_first ctdb ipflags maxnode (front ++ tmp ∷ []) rest) =
        rw (← append_assoc front (tmp ∷ []) rest) (
          reassign_first-Keeps maxnode (front ++ tmp ∷ []) rest
            (All-append (IsPlaced ctdb ipflags) front (tmp ∷ []) p (q.0, tt)) q.1) in
      ground (arith, ih, reassign_here front rest tmp (front ++ tmp ∷ rest) p q)

  rebalance_pass-Keeps :
      (all_ips rest : List PublicIp)
      → Placed all_ips
      → Keeps all_ips (rebalance_pass ctdb ipflags all_ips rest)
  unfolding rebalance_pass
  rebalance_pass-Keeps all_ips [] p = tt
  rebalance_pass-Keeps all_ips (ip ∷ rest) p =
      elim (Option-cases (overloaded (spread ctdb ipflags ip all_ips))) [
        | inl e ↦ ground (arith, rebalance_pass-Keeps all_ips rest p)
        | inr (n, e) ↦
            ground
              (arith, rebalance_pass-Keeps all_ips rest p, reassign_first-Keeps n [] all_ips tt p)
      ]

  pub basic_failback-Keeps :
      (left : ℕ) (ips : List PublicIp)
      → Placed ips
      → Keeps ips (some (basic_failback ctdb ipflags left ips))
  unfolding basic_failback
  basic_failback-Keeps zero ips p = (p, refl)
  basic_failback-Keeps (suc left) ips p =
      elim (Option-cases (rebalance_pass ctdb ipflags ips ips)) [
        | inl e ↦ rw (e, basic_failback) (p, refl)
        | inr (moved, e) ↦
            rw (e, basic_failback)
              (after moved (rw e at (rebalance_pass-Keeps ips ips p))
                (basic_failback-Keeps left moved))
      ]
    where
      after :
          (moved : List PublicIp)
          → Placed moved × (addrs moved ≡ addrs ips)
          → (Placed moved → Keeps moved (some (basic_failback ctdb ipflags left moved)))
          → Keeps ips (some (basic_failback ctdb ipflags left moved))
      after moved (p', s) ih = ((ih p').0, (ih p').1 ∙ s)

  assign_modulo-addrs : (n i : ℕ) (ips : List PublicIp) → addrs (assign_modulo n i ips) ≡ addrs ips
  unfolding assign_modulo
  assign_modulo-addrs n i [] = refl
  assign_modulo-addrs n i (ip ∷ ips) = ap (◌∷◌ ip.addr) (assign_modulo-addrs n (i + 1) ips)

  -- Unassigning what is unsuitable and allocating what is unassigned places every address.
  pub allocate_suitable-Keeps :
      (ips : List PublicIp)
      → Keeps ips
          (some (basic_allocate_unassigned ctdb ipflags (unassign_unsuitable_ips ctdb ipflags ips)))
  allocate_suitable-Keeps ips = (
    basic_allocate-Placed _ (unassign_unsuitable_ips-IsSuitable ips),
    basic_allocate-addrs _ ∙ unassign_unsuitable_ips-addrs ips,
  )

  pub ip_alloc_deterministic_ips-Keeps :
      (ips : List PublicIp) → Keeps ips (some (ip_alloc_deterministic_ips ctdb ipflags ips))
  unfolding ip_alloc_deterministic_ips
  ip_alloc_deterministic_ips-Keeps ips =
      let k = allocate_suitable-Keeps (assign_modulo (length ipflags) 0 ips) in
      (k.0, k.1 ∙ assign_modulo-addrs (length ipflags) 0 ips)
