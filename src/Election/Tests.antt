-- ===== src/Election/Tests.antt =====
-- Elections of three nodes, and the theorems at them.
use ctdb.Base.{Bool, ℕ, ◌≡◌, ◌⊎◌, refl, true, false, some, List, [], ◌∷◌, ◌++◌, All}
use ctdb.Election.Message.{
  NodeFlags, no_flags, ElectionMessage, Recoverd, data_from, wins_with, connected, election_compare,
  ctdb_election_data, ctdb_election_win,
}
use ctdb.Election.Leader.{message, Eligible, IsAmong, WinsOver, election-elects}
use ctdb.Election.Settled.{Yields, receive, election-settles}

abbrev three : List NodeFlags
three = no_flags ∷ no_flags ∷ no_flags ∷ []

abbrev node : (pnn started : ℕ) → Recoverd
node pnn started = record {
  pnn = pnn;
  capable = true;
  nodemap = some three;
  now = record { tv_sec = 900; tv_usec = 0 };
  priority_time = record { tv_sec = started; tv_usec = 5 };
  node_flags = no_flags;
  recmaster = pnn;
  send_election_te = false;
  election_timeout = false;
  verify_recovery_lock = true;
  holds_recovery_lock = true;
  unbanned = [];
  sent = [];
}

old-Eligible : Eligible (node 1 100)
unfolding ctdb_election_data data_from
old-Eligible = record { capable = refl; banned = refl; stopped = refl }

young-Eligible : Eligible (node 0 200)
unfolding ctdb_election_data data_from
young-Eligible = record { capable = refl; banned = refl; stopped = refl }

election-elects_example :
    (z : Recoverd) × IsAmong z (node 1 100 ∷ node 0 200 ∷ [])
    × All (λ y. (y.pnn ≡ z.pnn) ⊎ WinsOver z y) (node 1 100 ∷ node 0 200 ∷ [])
election-elects_example =
    election-elects (node 1 100) (node 0 200 ∷ []) (old-Eligible, (young-Eligible, tt))

old-WinsOver : WinsOver (node 1 100) (node 0 200)
unfolding ctdb_election_data data_from ctdb_election_win wins_with connected election_compare
old-WinsOver = (refl, refl)

young-Yields : (set : Bool) → Yields (node 1 100) (set, message (node 0 200))
unfolding ctdb_election_data data_from connected election_compare
young-Yields set = λ c. refl

-- The control that sets the recovery master fails once.
abbrev others : List (Bool × ElectionMessage)
others = (false, message (node 0 200)) ∷ (true, message (node 0 200)) ∷ []

election-settles_example :
    ((receive others (node 1 100)).recmaster ≡ 1)
    × ((receive (others ++ (true, message (node 1 100)) ∷ []) (node 0 200)).recmaster ≡ 1)
    × ((receive (others ++ (true, message (node 1 100)) ∷ []) (node 0 200)).send_election_te
        ≡ false)
election-settles_example =
    election-settles (node 1 100) (node 0 200) others others old-Eligible old-WinsOver
      (young-Yields false, (young-Yields true, tt)) refl
