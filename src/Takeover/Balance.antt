-- ===== src/Takeover/Balance.antt =====
-- When the passes of `basic_failback` in server/ctdb_takeover.c stop moving addresses.
use ctdb.Base.{
  ℕ, zero, suc, ◌+◌, ◌≤◌, true, false, Option, none, some, List, [], ◌≡◌, ◌⊎◌, get_elem?,
}
use ctdb.Takeover.Nodes.{PublicIp, IpFlags, Context, is_unassigned, can_node_takeover_ip}
use ctdb.Takeover.Basic.{
  node_ip_coverage, Choice, spread, reassign_first, overloaded, rebalance_pass,
}

module _ (ctdb : Context) (ipflags : List IpFlags) where
  -- A pass that moves nothing found every assigned address with no overloaded node, or found no
  -- address to take from it.
  abbrev Stuck : List PublicIp → PublicIp → Type 0
  Stuck all_ips ip =
      (overloaded (spread ctdb ipflags ip all_ips) ≡ none)
      ⊎ ((n : ℕ) × (overloaded (spread ctdb ipflags ip all_ips) ≡ some n)
          × (reassign_first ctdb ipflags n [] all_ips ≡ none))

  module _ (ip : PublicIp) (all_ips : List PublicIp) where
    abbrev coverage : ℕ → ℕ
    coverage n = node_ip_coverage n all_ips

    abbrev Counted : Option Choice → Type 0
    Counted o = elim o [ none ↦ Unit | some c ↦ c.num ≡ coverage c.node ]

    abbrev AtLeast : ℕ → Option Choice → Type 0
    AtLeast i o = elim o [ none ↦ ⊥ | some c ↦ coverage i ≤ c.num ]

    abbrev AtMost : ℕ → Option Choice → Type 0
    AtMost i o = elim o [ none ↦ ⊥ | some c ↦ c.num ≤ coverage i ]

  -- Of two nodes that may both take over an assigned address, neither has more than one address above the other.
  abbrev pub Balanced : List PublicIp → Type 0
  Balanced all_ips =
      (k i j : ℕ) (ip : PublicIp) (f g : IpFlags)
      → get_elem? all_ips k ≡ some ip
      → is_unassigned ip.pnn ≡ false
      → get_elem? ipflags i ≡ some f
      → get_elem? ipflags j ≡ some g
      → can_node_takeover_ip ctdb i f ip ≡ true
      → can_node_takeover_ip ctdb j g ip ≡ true
      → node_ip_coverage i all_ips ≤ node_ip_coverage j all_ips + 1

  abbrev pub GoesOn : (List PublicIp → Type 0) → Option (List PublicIp) → Type 0
  GoesOn P none = ⊥
  GoesOn P (some moved) = P moved

  -- Each of so many passes finds an overloaded node with an address, which it has placed again.
  abbrev pub Spent : ℕ → List PublicIp → Type 0
  Spent zero all_ips = Unit
  Spent (suc left) all_ips = GoesOn (Spent left) (rebalance_pass ctdb ipflags all_ips all_ips)
