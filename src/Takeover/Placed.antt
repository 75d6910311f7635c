-- ===== src/Takeover/Placed.antt =====
-- What every algorithm of the allocation promises for one address, and that the choice of a node by
-- its coverage keeps it.
use mathlib.Core.List.{map}
use ctdb.Base.{
  ℕ, Bool, true, false, ◌||◌, not, Option, none, some, List, ◌≡◌, refl, ◌⊎◌, arith, get_elem?,
}
use ctdb.Base.Fold.{fold_from, fold_from_inv, fold_from_rel}
use ctdb.Takeover.Address.{SockAddr}
use ctdb.Takeover.Nodes.{
  PublicIp, IpFlags, Context, is_unassigned, can_node_host_ip, can_node_takeover_ip,
}
use ctdb.Takeover.Basic.{
  Choice, hosts, least_step, least_covered, find_takeover_node, unassign_unsuitable_ip,
}

abbrev pub addrs : List PublicIp → List SockAddr
addrs = map (λ ip. ip.addr)

-- A search that finds nothing had nothing to find.
abbrev pub NoneMeansFalse {ℓ} : {A : Type ℓ} → Option A → Bool → Type 0
NoneMeansFalse o b = elim o [ none ↦ b ≡ false | some c ↦ Unit ]

module _ (ctdb : Context) (ipflags : List IpFlags) where
  unfoldable pub taker_step : PublicIp → ℕ → IpFlags → Bool → Bool
  taker_step ip i f found = found || can_node_takeover_ip ctdb i f ip

  -- Some node may take the address over.
  unfoldable pub has_taker : PublicIp → Bool
  has_taker ip = fold_from (taker_step ip) ipflags 0 false

  -- The address is on a node that may host it, or no node may take it over.
  unfoldable pub is_placed : PublicIp → Bool
  is_placed ip = elim ip.pnn [ none ↦ not (has_taker ip) | some pnn ↦ hosts ctdb ipflags pnn ip ]

  abbrev pub IsPlaced : PublicIp → Type 0
  IsPlaced ip = is_placed ip ≡ true

  -- The address is unassigned, or on a node that may host it.
  unfoldable pub is_suitable : PublicIp → Bool
  is_suitable ip = elim ip.pnn [ none ↦ true | some pnn ↦ hosts ctdb ipflags pnn ip ]

  abbrev pub IsSuitable : PublicIp → Type 0
  IsSuitable ip = is_suitable ip ≡ true

  -- A node that may take an address over may host it, on whichever node it is now.
  pub takeover-hosts :
      (j : ℕ) (f : IpFlags) (ip : PublicIp) (p : Option ℕ)
      → get_elem? ipflags j ≡ some f
      → can_node_takeover_ip ctdb j f ip ≡ true
      → hosts ctdb ipflags j (record ip { pnn = p }) ≡ true
  unfolding can_node_takeover_ip can_node_host_ip
  takeover-hosts j f ip p e t = ground arith

  abbrev ChoiceHosts : PublicIp → Option Choice → Type 0
  ChoiceHosts ip o = elim o [
    | none ↦ Unit
    | some c ↦ hosts ctdb ipflags c.node (record ip { pnn = some c.node }) ≡ true
  ]

  least_covered-hosts :
      (ip : PublicIp) (all_ips : List PublicIp)
      → ChoiceHosts ip (least_covered ctdb ipflags ip all_ips)
  unfolding least_covered least_step
  least_covered-hosts ip all_ips =
      fold_from_inv (ChoiceHosts ip) (least_step ctdb ip all_ips) ipflags none
        (λ j f o e h. ground (arith, takeover-hosts j f ip (some j) e)) tt

  least_covered_complete :
      (ip : PublicIp) (all_ips : List PublicIp)
      → NoneMeansFalse (least_covered ctdb ipflags ip all_ips) (has_taker ip)
  unfolding least_covered least_step has_taker taker_step
  least_covered_complete ip all_ips =
      fold_from_rel NoneMeansFalse (least_step ctdb ip all_ips) (taker_step ip)
        (λ j f s t h. ground arith) ipflags 0 none false refl

  -- An address that is placed or unassigned is placed afterwards, and keeps its address.
  pub find_takeover_node-IsPlaced :
      (ip : PublicIp) (all_ips : List PublicIp)
      → IsPlaced ip ⊎ (ip.pnn ≡ none)
      → IsPlaced (find_takeover_node ctdb ipflags ip all_ips)
  unfolding find_takeover_node is_placed
  find_takeover_node-IsPlaced ip all_ips h =
      ground (arith, least_covered-hosts ip all_ips, least_covered_complete ip all_ips)

  pub find_takeover_node-addr :
      (ip : PublicIp) (all_ips : List PublicIp)
      → (find_takeover_node ctdb ipflags ip all_ips).addr ≡ ip.addr
  unfolding find_takeover_node
  find_takeover_node-addr ip all_ips = ground arith

  pub unassign_unsuitable_ip-IsSuitable :
      (ip : PublicIp) → IsSuitable (unassign_unsuitable_ip ctdb ipflags ip)
  unfolding unassign_unsuitable_ip is_suitable
  unassign_unsuitable_ip-IsSuitable ip = ground arith

  pub IsSuitable-IsPlaced :
      (ip : PublicIp) → IsSuitable ip → is_unassigned ip.pnn ≡ false → IsPlaced ip
  unfolding is_suitable is_placed
  IsSuitable-IsPlaced ip s a = ground arith
