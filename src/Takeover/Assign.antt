-- ===== src/Takeover/Assign.antt =====
-- What setting the node of one address changes.

use ctdb.Base.{
  ℕ, zero, suc, ◌+◌, ◌≡◌, ◌≢◌, ◌≤◌, refl, ap, arith, true, false, some, List, [], ◌∷◌, get_elem?,
  All, if◌then◌else◌, length,
}
use ctdb.Takeover.Nodes.{PublicIp, is_unassigned}
use ctdb.Takeover.Lcp2.{set_pnn, have_unassigned}
use ctdb.Takeover.Placed.{addrs}

pub length-addrs : (ips : List PublicIp) → length (addrs ips) ≡ length ips
length-addrs [] = refl
length-addrs (ip ∷ ips) = ap suc (length-addrs ips)

pub set_pnn-addrs : (ips : List PublicIp) (k n : ℕ) → addrs (set_pnn ips k n) ≡ addrs ips
unfolding set_pnn
set_pnn-addrs [] k n = refl
set_pnn-addrs (ip ∷ ips) zero n = refl
set_pnn-addrs (ip ∷ ips) (suc k) n = ap (◌∷◌ ip.addr) (set_pnn-addrs ips k n)

pub set_pnn-All {κ} :
    (P : PublicIp → Type κ) (ips : List PublicIp) (k n : ℕ) (t : PublicIp)
    → get_elem? ips k ≡ some t
    → P (record t { pnn = some n })
    → All P ips
    → All P (set_pnn ips k n)
unfolding set_pnn
set_pnn-All P [] k n t e p h = h
set_pnn-All P (ip ∷ ips) zero n t e p h = let q : ip ≡ t = cc in rw q (p, h.1)
set_pnn-All P (ip ∷ ips) (suc k) n t e p h = (h.0, set_pnn-All P ips k n t e p h.1)

-- Other addresses stay where they are.
pub set_pnn-other :
    (ips : List PublicIp) (k n j : ℕ) → k ≢ j → get_elem? (set_pnn ips k n) j ≡ get_elem? ips j
unfolding set_pnn
set_pnn-other [] k n j h = refl
set_pnn-other (ip ∷ ips) zero n zero h = absurd (h refl)
set_pnn-other (ip ∷ ips) zero n (suc j) h = refl
set_pnn-other (ip ∷ ips) (suc k) n zero h = refl
set_pnn-other (ip ∷ ips) (suc k) n (suc j) h = set_pnn-other ips k n j (λ e. h (ap suc e))

pub num_unassigned : List PublicIp → ℕ
num_unassigned [] = 0
num_unassigned (ip ∷ ips) = (if is_unassigned ip.pnn then 1 else 0) + num_unassigned ips

-- Assigning an unassigned address leaves one fewer.
pub set_pnn-num_unassigned :
    (ips : List PublicIp) (k n : ℕ) (t : PublicIp)
    → get_elem? ips k ≡ some t
    → is_unassigned t.pnn ≡ true
    → num_unassigned (set_pnn ips k n) + 1 ≡ num_unassigned ips
unfolding set_pnn num_unassigned
set_pnn-num_unassigned [] k n t e u = cc
set_pnn-num_unassigned (ip ∷ ips) zero n t e u =
    let q : ip ≡ t = cc in let u' : is_unassigned ip.pnn ≡ true = rw q u in ground arith
set_pnn-num_unassigned (ip ∷ ips) (suc k) n t e u =
    ground (arith, set_pnn-num_unassigned ips k n t e u)

pub num_unassigned-le : (ips : List PublicIp) → num_unassigned ips ≤ length ips
unfolding num_unassigned
num_unassigned-le [] = omega arith
num_unassigned-le (ip ∷ ips) = ground (arith, num_unassigned-le ips)

pub have_unassigned-false :
    (ips : List PublicIp) (k : ℕ) (t : PublicIp)
    → have_unassigned ips ≡ false
    → get_elem? ips k ≡ some t
    → is_unassigned t.pnn ≡ false
unfolding have_unassigned
have_unassigned-false [] k t h e = cc
have_unassigned-false (ip ∷ ips) zero t h e = let q : ip ≡ t = cc in rw (← q) (ground arith)
have_unassigned-false (ip ∷ ips) (suc k) t h e = have_unassigned-false ips k t (ground arith) e
