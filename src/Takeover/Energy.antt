-- ===== src/Takeover/Energy.antt =====
-- The exact imbalance of an assignment: the sum of the squared distances over all pairs of addresses
-- on one node. The sums of server/ctdb_takeover.c do not wrap while there are few addresses, and a
-- move changes the imbalance by the two sums that the code compares.
use ctdb.Base.{
  ℕ, ◌+◌, ◌*◌, ◌≤◌, ◌<◌, ◌≡◌, refl, ap, arith, if◌then◌else◌, Option-cases, inl, inr, none, some,
  List, [], ◌∷◌, ◌++◌, length,
}
use ctdb.Takeover.Address.{SockAddr, ip_distance}
use ctdb.Takeover.Nodes.{PublicIp, on_node}
use ctdb.Takeover.Lcp2.{ip_distance_2_sum, set_pnn}
use ctdb.Takeover.Distance.{square-le, square_comm}

-- More addresses than this could make a sum of squares wrap.
abbrev pub max_ips : ℕ
max_ips = 262144

abbrev pub square : SockAddr → SockAddr → ℕ
square a b = ip_distance a b * ip_distance a b

-- The sum over the addresses of a node, without the limit of 32 bits.
unfoldable pub cost : SockAddr → List PublicIp → ℕ → ℕ
cost ip [] pnn = 0
cost ip (t ∷ ts) pnn = (if on_node t.pnn pnn then square ip t.addr else 0) + cost ip ts pnn

cost-le : (ip : SockAddr) (ts : List PublicIp) (pnn : ℕ) → cost ip ts pnn ≤ 16384 * length ts
unfolding cost
cost-le ip [] pnn = omega arith
cost-le ip (t ∷ ts) pnn = ground (arith, cost-le ip ts pnn, square-le ip t.addr)

cost-insert :
    (ip : SockAddr) (xs : List PublicIp) (t : PublicIp) (ys : List PublicIp) (pnn : ℕ)
    → cost ip (xs ++ t ∷ ys) pnn
      ≡ (if on_node t.pnn pnn then square ip t.addr else 0) + cost ip (xs ++ ys) pnn
unfolding cost
cost-insert ip [] t ys pnn = refl
cost-insert ip (x ∷ xs) t ys pnn = omega (arith, cost-insert ip xs t ys pnn)

-- With no place to skip the code's sum is the whole sum.
sum-cost :
    (ip : SockAddr) (ts : List PublicIp) (pnn : ℕ)
    → length ts < max_ips
    → ip_distance_2_sum none ip ts pnn ≡ cost ip ts pnn
unfolding cost ip_distance_2_sum
sum-cost ip [] pnn h = refl
sum-cost ip (t ∷ ts) pnn h =
    ground (arith, sum-cost ip ts pnn, square-le ip t.addr, cost-le ip ts pnn)

-- The code's sum at the place of an address is the sum over the other addresses.
pub sum-others :
    (ip : SockAddr) (xs : List PublicIp) (t : PublicIp) (ys : List PublicIp) (pnn : ℕ)
    → length (xs ++ t ∷ ys) < max_ips
    → ip_distance_2_sum (some (length xs)) ip (xs ++ t ∷ ys) pnn ≡ cost ip (xs ++ ys) pnn
unfolding cost ip_distance_2_sum
sum-others ip [] t ys pnn h = ground (arith, sum-cost ip ys pnn)
sum-others ip (x ∷ xs) t ys pnn h = ground (
  arith,
  sum-others ip xs t ys pnn,
  square-le ip x.addr,
  cost-le ip (xs ++ t ∷ ys) pnn,
  cost-insert ip xs t ys pnn,
)

-- What an address costs its own node.
abbrev pub own : PublicIp → List PublicIp → ℕ
own t ts = elim t.pnn [ none ↦ 0 | some pnn ↦ cost t.addr ts pnn ]

unfoldable pub energy : List PublicIp → ℕ
energy [] = 0
energy (t ∷ ts) = own t ts + energy ts

own-insert :
    (x : PublicIp) (xs : List PublicIp) (t : PublicIp) (ys : List PublicIp)
    → own x (xs ++ t ∷ ys) + own t (xs ++ ys) ≡ own x (xs ++ ys) + own t (x ∷ xs ++ ys)
unfolding cost
own-insert x xs t ys = elim (Option-cases x.pnn) [
  | inl e ↦ ground arith
  | inr (m, e) ↦ ground (arith, cost-insert x.addr xs t ys m, square_comm x.addr t.addr)
]

pub energy-insert :
    (xs : List PublicIp) (t : PublicIp) (ys : List PublicIp)
    → energy (xs ++ t ∷ ys) ≡ own t (xs ++ ys) + energy (xs ++ ys)
unfolding energy
energy-insert [] t ys = refl
energy-insert (x ∷ xs) t ys = omega (arith, energy-insert xs t ys, own-insert x xs t ys)

pub set_pnn-append :
    (xs : List PublicIp) (t : PublicIp) (ys : List PublicIp) (pnn : ℕ)
    → set_pnn (xs ++ t ∷ ys) (length xs) pnn ≡ xs ++ record t { pnn = some pnn } ∷ ys
unfolding set_pnn
set_pnn-append [] t ys pnn = refl
set_pnn-append (x ∷ xs) t ys pnn = ap (◌∷◌ x) (set_pnn-append xs t ys pnn)

own-le : (t : PublicIp) (ts : List PublicIp) → own t ts ≤ 16384 * length ts
own-le t ts = elim (Option-cases t.pnn) [
  | inl e ↦ ground arith
  | inr (n, e) ↦ ground (arith, cost-le t.addr ts n)
]

-- The exact imbalance is at most the largest squared distance for each pair.
pub energy-le : (ts : List PublicIp) → energy ts ≤ 16384 * (length ts * length ts)
unfolding energy
energy-le [] = omega arith
energy-le (t ∷ ts) = omega (arith, own-le t ts, energy-le ts)
