-- ===== src/Election/Leader.antt =====
-- server/ctdb_recoverd.c: an election has one winner, and all nodes settle on it.
use ctdb.Base.{
  ℕ, zero, suc, ◌≡◌, ◌≢◌, ◌⊎◌, inl, inr, refl, sym, ◌∙◌, ap, arith, Bool, true, false, not, none,
  some, Option, List, [], ◌∷◌, ◌==◌, All, get_elem?, get_of_All, if◌then◌else◌, if-elim, Bool-cases,
}
use ctdb.Election.Message.{
  NodeFlags, ElectionMessage, Recoverd, Timeval, data_from, ctdb_election_data, wins_with,
  ctdb_election_win,
}
use ctdb.Election.Order.{beats, beats_total, beats_trans, beats_self, beats_asym}

abbrev pub message : Recoverd → ElectionMessage
message r = (ctdb_election_data r).message

-- A node that may become the recovery master.
pub record Eligible (r : Recoverd) : Type 0 where
  pub capable : r.capable ≡ true
  pub banned : (ctdb_election_data r).node_flags.banned ≡ false
  pub stopped : (ctdb_election_data r).node_flags.stopped ≡ false

-- A message of which the flags do not decide.
pub record Clean (em : ElectionMessage) : Type 0 where
  pub banned : em.node_flags.banned ≡ false
  pub stopped : em.node_flags.stopped ≡ false

Data-Clean :
    (pnn : ℕ) (capable : Bool) (now time : Timeval) (f : NodeFlags) (o : Option (List NodeFlags))
    → (data_from pnn capable now time f o).node_flags.banned ≡ false
    → (data_from pnn capable now time f o).node_flags.stopped ≡ false
    → Clean (data_from pnn capable now time f o).message
unfolding data_from
Data-Clean pnn capable now time f none b s = record { banned = refl; stopped = refl }
Data-Clean pnn capable now time f (some nodes) b s = record { banned = b; stopped = s }

pub message-Clean : (r : Recoverd) → Eligible r → Clean (message r)
unfolding ctdb_election_data
message-Clean r e =
    Data-Clean r.pnn r.capable r.now r.priority_time r.node_flags r.nodemap e.banned e.stopped

data-pnn :
    (pnn : ℕ) (capable : Bool) (now time : Timeval) (f : NodeFlags) (o : Option (List NodeFlags))
    → (data_from pnn capable now time f o).message.pnn ≡ pnn
unfolding data_from
data-pnn pnn capable now time f none = refl
data-pnn pnn capable now time f (some nodes) = refl

pub message-pnn : (r : Recoverd) → (message r).pnn ≡ r.pnn
unfolding ctdb_election_data
message-pnn r = data-pnn r.pnn r.capable r.now r.priority_time r.node_flags r.nodemap

pub win-beats :
    (r : Recoverd) (em : ElectionMessage)
    → Eligible r
    → Clean em
    → ctdb_election_win r em ≡ beats (message r) em
unfolding ctdb_election_win wins_with
win-beats r em e c =
    let d = ctdb_election_data r in
    let P : Bool → Type 0 = λ b. b ≡ beats (message r) em in
    if-elim P (not r.capable) _ _ (λ h. absurd (let q = e.capable in ground (arith, h, q)))
      (λ _.
        if-elim P d.node_flags.banned _ _
          (λ h. absurd (let no : false ≡ true = sym e.banned ∙ h in cc))
          (λ _.
            if-elim P d.node_flags.stopped _ _
              (λ h. absurd (let no : false ≡ true = sym e.stopped ∙ h in cc))
              (λ _.
                if-elim P em.node_flags.banned _ _
                  (λ h. absurd (let no : false ≡ true = sym c.banned ∙ h in cc))
                  (λ _.
                    if-elim P em.node_flags.stopped _ _
                      (λ h. absurd (let no : false ≡ true = sym c.stopped ∙ h in cc))
                      (λ _. refl)))))

-- Of two nodes that may become the recovery master, with different numbers, just one wins against the other.
election_win-one :
    (a b : Recoverd)
    → Eligible a
    → Eligible b
    → a.pnn ≢ b.pnn
    → ctdb_election_win a (message b) ≡ not (ctdb_election_win b (message a))
election_win-one a b e f n =
    win-beats a (message b) e (message-Clean b f)
    ∙ beats_total (message a) (message b) (λ q. n (sym (message-pnn a) ∙ q ∙ message-pnn b))
    ∙ ap not (sym (win-beats b (message a) f (message-Clean a e)))

-- No node of the list beats this one.
abbrev pub Leads : Recoverd → List Recoverd → Type 0
Leads x = All (λ y. beats (message y) (message x) ≡ false)

-- The node that comes out, when each node of the list is compared with the best so far.
unfoldable pub leader : Recoverd → List Recoverd → Recoverd
leader x [] = x
leader x (y ∷ ys) =
    let a = leader y ys in let b = leader x ys in if beats (message y) (message x) then a else b

abbrev pub IsAmong : Recoverd → List Recoverd → Type 0
IsAmong x nodes = (i : ℕ) × (get_elem? nodes i ≡ some x)

pub record Leading (x : Recoverd) (nodes : List Recoverd) (z : Recoverd) : Type 0 where
  pub among : IsAmong z (x ∷ nodes)
  pub first : beats (message x) (message z) ≡ false
  pub leads : Leads z nodes

skip-IsAmong :
    (x y z : Recoverd) (ys : List Recoverd) (i : ℕ)
    → get_elem? (x ∷ ys) i ≡ some z
    → IsAmong z (x ∷ y ∷ ys)
skip-IsAmong x y z ys zero e = (0, e)
skip-IsAmong x y z ys (suc i) e = (suc (suc i), e)

leader-Leading : (x : Recoverd) (nodes : List Recoverd) → Leading x nodes (leader x nodes)
unfolding leader
leader-Leading x [] = record { among = (0, refl); first = beats_self (message x); leads = tt }
leader-Leading x (y ∷ ys) =
    let old = leader-Leading x ys in
    let new = leader-Leading y ys in
    if-elim (λ z. Leading x (y ∷ ys) z) (beats (message y) (message x)) _ _
      (λ more. record {
        among = (suc new.among.0, new.among.1);
        first =
            beats_trans (message x) (message y) (message (leader y ys))
              (beats_asym (message y) (message x) more) new.first;
        leads = (new.first, new.leads);
      })
      (λ less. record {
        among = skip-IsAmong x y (leader x ys) ys old.among.0 old.among.1;
        first = old.first;
        leads =
            (beats_trans (message y) (message x) (message (leader x ys)) less old.first, old.leads);
      })

-- The node wins against the other, and the other gives up against it.
abbrev pub WinsOver : Recoverd → Recoverd → Type 0
WinsOver z y = (ctdb_election_win z (message y) ≡ true) × (ctdb_election_win y (message z) ≡ false)

Leads-WinsOver :
    (z : Recoverd) (ys : List Recoverd)
    → Eligible z
    → All Eligible ys
    → Leads z ys
    → All (λ y. (y.pnn ≡ z.pnn) ⊎ WinsOver z y) ys
Leads-WinsOver z [] e a l = tt
Leads-WinsOver z (y ∷ ys) e a l = (
  (elim (Bool-cases (y.pnn == z.pnn)) [
    | inl same ↦ inl (ground (arith, same))
    | inr other ↦
        let gives_up : ctdb_election_win y (message z) ≡ false =
          win-beats y (message z) a.0 (message-Clean z e) ∙ l.0 in
        inr (election_win-one z y e a.0 (λ q. ground (arith, other, q)) ∙ ap not gives_up, gives_up)
  ]),
  Leads-WinsOver z ys e a.1 l.1,
)

-- Of nodes that may become the recovery master, one wins against all that have another number, and they
-- give up against it.
pub election-elects :
    (x : Recoverd) (nodes : List Recoverd)
    → All Eligible (x ∷ nodes)
    → (z : Recoverd) × IsAmong z (x ∷ nodes) × All (λ y. (y.pnn ≡ z.pnn) ⊎ WinsOver z y) (x ∷ nodes)
election-elects x nodes a =
    let l = leader-Leading x nodes in
    let z = leader x nodes in
    let e = get_of_All Eligible (x ∷ nodes) l.among.0 z a l.among.1 in
    (z, l.among, Leads-WinsOver z (x ∷ nodes) e a (l.first, l.leads))
