-- ===== src/Election/Order.antt =====
-- server/ctdb_recoverd.c: the criteria of an election are a total order on the messages.

use ctdb.Base.{◌≡◌, ◌≢◌, arith, Bool, true, false, not}
use ctdb.Election.Message.{ElectionMessage, election_compare, is_positive}

abbrev pub beats : ElectionMessage → ElectionMessage → Bool
beats a b = is_positive (election_compare a b)

pub beats_total : (a b : ElectionMessage) → a.pnn ≢ b.pnn → beats a b ≡ not (beats b a)
unfolding election_compare
beats_total a b n = ground (arith, n)

-- Being beaten by no other is transitive.
pub beats_trans :
    (a b c : ElectionMessage) → beats a b ≡ false → beats b c ≡ false → beats a c ≡ false
unfolding election_compare
beats_trans a b c x y = ground (arith, x, y)

pub beats_self : (a : ElectionMessage) → beats a a ≡ false
unfolding election_compare
beats_self a = ground arith

pub beats_asym : (a b : ElectionMessage) → beats a b ≡ true → beats b a ≡ false
unfolding election_compare
beats_asym a b x = ground (arith, x)
