-- ===== src/Election/Settled.antt =====
-- server/ctdb_recoverd.c: the nodes settle on the winner of an election.
use ctdb.Base.{
  ℕ, ◌≡◌, inl, inr, refl, sym, ◌∙◌, ap, subst, arith, Bool, true, false, not, ◌&&◌, none, some,
  Option, List, [], ◌∷◌, ◌++◌, ◌==◌, All, if◌then◌else◌, if-elim, Bool-cases,
}
use ctdb.Election.Message.{
  NodeFlags, ElectionMessage, Recoverd, Timeval, data_from, wins_with, ctdb_election_data,
  ctdb_election_win,
}
use ctdb.Election.Handler.{remember, unban_all_nodes, release_lock, election_handler}
use ctdb.Election.Order.{beats, beats_total}
use ctdb.Election.Leader.{message, Eligible, Clean, message-pnn, win-beats, WinsOver}

-- The messages that a node receives, one after the other, each with the success of the control that sets the recovery
-- master, if it is sent.
unfoldable pub receive : List (Bool × ElectionMessage) → Recoverd → Recoverd
receive [] r = r
receive ((set, em) ∷ ems) r = receive ems (election_handler set em r)

-- The election leaves alone what a node says of itself.
record Same (r m : Recoverd) : Type 0 where
  data_lem : ctdb_election_data m ≡ ctdb_election_data r
  capable : m.capable ≡ r.capable
  pnn : m.pnn ≡ r.pnn

data-again :
    (pnn : ℕ) (capable : Bool) (now time : Timeval) (f : NodeFlags) (o : Option (List NodeFlags))
    → data_from pnn capable now time (data_from pnn capable now time f o).node_flags o
      ≡ data_from pnn capable now time f o
unfolding data_from
data-again pnn capable now time f none = refl
data-again pnn capable now time f (some nodes) = refl

remember-Same : (r : Recoverd) → ctdb_election_data (remember r) ≡ ctdb_election_data r
unfolding ctdb_election_data remember
remember-Same r = data-again r.pnn r.capable r.now r.priority_time r.node_flags r.nodemap

handler-Same :
    (set : Bool) (em : ElectionMessage) (r : Recoverd) → Same r (election_handler set em r)
unfolding election_handler release_lock unban_all_nodes remember ctdb_election_data
handler-Same set em r =
    let again = remember-Same r in
    if-elim (Same r) (ctdb_election_win r em) _ _
      (λ _. record { data_lem = again; capable = refl; pnn = refl })
      (λ _.
        if-elim (λ (x : Recoverd). Same r (if set then record x { recmaster = em.pnn } else x))
          (r.verify_recovery_lock && not (em.pnn == r.pnn) && r.holds_recovery_lock) _ _
          (λ _.
            if-elim (Same r) set _ _ (λ _. record { data_lem = again; capable = refl; pnn = refl })
              (λ _. record { data_lem = again; capable = refl; pnn = refl }))
          (λ _.
            if-elim (Same r) set _ _ (λ _. record { data_lem = again; capable = refl; pnn = refl })
              (λ _. record { data_lem = again; capable = refl; pnn = refl })))

win-Same :
    (r m : Recoverd) (em : ElectionMessage)
    → Same r m
    → ctdb_election_win m em ≡ ctdb_election_win r em
unfolding ctdb_election_win
win-Same r m em s =
    ap (λ d. wins_with d m.capable em) s.data_lem
    ∙ ap (λ c. wins_with (ctdb_election_data r) c em) s.capable

handler-wins :
    (set : Bool) (em : ElectionMessage) (r : Recoverd)
    → ctdb_election_win r em ≡ true
    → (election_handler set em r).recmaster ≡ r.recmaster
unfolding election_handler remember
handler-wins set em r w =
    if-elim (λ (m : Recoverd). m.recmaster ≡ r.recmaster) (ctdb_election_win r em) _ _ (λ _. refl)
      (λ l. absurd (let no : false ≡ true = sym l ∙ w in cc))

-- The node gives up: it takes the sender for the recovery master, and does not answer.
abbrev GivesUp : ℕ → Recoverd → Type 0
GivesUp pnn m = (m.recmaster ≡ pnn) × (m.send_election_te ≡ false)

release-silent :
    (em : ElectionMessage) (r : Recoverd)
    → (release_lock em r).send_election_te ≡ r.send_election_te
unfolding release_lock unban_all_nodes
release-silent em r =
    if-elim (λ (x : Recoverd). x.send_election_te ≡ r.send_election_te)
      (r.verify_recovery_lock && not (em.pnn == r.pnn) && r.holds_recovery_lock) _ _ (λ _. refl)
      (λ _. refl)

handler-loses :
    (em : ElectionMessage) (r : Recoverd)
    → ctdb_election_win r em ≡ false
    → GivesUp em.pnn (election_handler true em r)
unfolding election_handler
handler-loses em r l =
    if-elim (GivesUp em.pnn) (ctdb_election_win r em) _ _
      (λ w. absurd (let no : false ≡ true = sym l ∙ w in cc))
      (λ _. (
        refl,
        release-silent em
            (record (remember r) { election_timeout = true; send_election_te = false }),
      ))

-- When the control fails, the recovery master stays.
handler-fails :
    (em : ElectionMessage) (r : Recoverd)
    → ctdb_election_win r em ≡ false
    → (election_handler false em r).recmaster ≡ r.recmaster
unfolding election_handler release_lock unban_all_nodes remember
handler-fails em r l =
    if-elim (λ (m : Recoverd). m.recmaster ≡ r.recmaster) (ctdb_election_win r em) _ _ (λ _. refl)
      (λ _.
        if-elim (λ (m : Recoverd). m.recmaster ≡ r.recmaster)
          (r.verify_recovery_lock && not (em.pnn == r.pnn) && r.holds_recovery_lock) _ _ (λ _. refl)
          (λ _. refl))

Same-trans : (a b c : Recoverd) → Same a b → Same b c → Same a c
Same-trans a b c s t = record {
  data_lem = t.data_lem ∙ s.data_lem;
  capable = t.capable ∙ s.capable;
  pnn = t.pnn ∙ s.pnn;
}

-- The recovery master that a node has after a message that it does not win against.
handler-recmaster :
    (set : Bool) (em : ElectionMessage) (r : Recoverd) (pnn : ℕ)
    → ctdb_election_win r em ≡ false
    → em.pnn ≡ pnn
    → r.recmaster ≡ pnn
    → (election_handler set em r).recmaster ≡ pnn
handler-recmaster true em r pnn l e m = (handler-loses em r l).0 ∙ e
handler-recmaster false em r pnn l e m = handler-fails em r l ∙ m

-- A message that does not beat the node, unless its flags decide: a banned or stopped node never wins.
abbrev pub Yields : Recoverd → Bool × ElectionMessage → Type 0
Yields z (set, em) = Clean em → beats em (message z) ≡ false

-- A node that may become the recovery master gives way to no banned or stopped one.
lost-Clean :
    (z : Recoverd) (em : ElectionMessage) → Eligible z → ctdb_election_win z em ≡ false → Clean em
unfolding ctdb_election_win wins_with
lost-Clean z em e =
    let d = ctdb_election_data z in
    let P : Bool → Type 0 = λ b. b ≡ false → Clean em in
    if-elim P (not z.capable) _ _ (λ h. absurd (let q = e.capable in ground (arith, h, q)))
      (λ _.
        if-elim P d.node_flags.banned _ _
          (λ h. absurd (let no : false ≡ true = sym e.banned ∙ h in cc))
          (λ _.
            if-elim P d.node_flags.stopped _ _
              (λ h. absurd (let no : false ≡ true = sym e.stopped ∙ h in cc))
              (λ _.
                if-elim P em.node_flags.banned _ _ (λ _ w. cc)
                  (λ clean.
                    if-elim P em.node_flags.stopped _ _ (λ _ w. cc)
                      (λ going _. record { banned = clean; stopped = going })))))

-- A message that neither beats the node nor is beaten by it is its own.
own_message :
    (z : Recoverd) (em : ElectionMessage)
    → Eligible z
    → (Clean em → beats em (message z) ≡ false)
    → ctdb_election_win z em ≡ false
    → em.pnn ≡ z.pnn
own_message z em e y l = elim (Bool-cases (em.pnn == z.pnn)) [
  | inl same ↦ ground (arith, same)
  | inr other ↦
      let total =
        beats_total em (message z) (λ q. let p = q ∙ message-pnn z in ground (arith, other, p)) in
      let c = lost-Clean z em e l in
      let even : beats (message z) em ≡ false = sym (win-beats z em e c) ∙ l in
      let no : false ≡ true = sym (y c) ∙ total ∙ ap not even in cc
]

leader-stays :
    (z r : Recoverd) (ms : List (Bool × ElectionMessage))
    → Eligible z
    → Same z r
    → All (Yields z) ms
    → r.recmaster ≡ z.pnn
    → (receive ms r).recmaster ≡ z.pnn
unfolding receive
leader-stays z r [] e s a m = m
leader-stays z r ((set, em) ∷ ms) e s a m =
    let next = election_handler set em r in
    let t = Same-trans z r next s (handler-Same set em r) in
    leader-stays z next ms e t a.1 (elim (Bool-cases (ctdb_election_win r em)) [
      | inl w ↦ handler-wins set em r w ∙ m
      | inr l ↦
          handler-recmaster set em r z.pnn l (own_message z em e a.0 (sym (win-Same z r em s) ∙ l))
            m
    ])

receive-Same :
    (r m : Recoverd) (ms : List (Bool × ElectionMessage)) → Same r m → Same r (receive ms m)
unfolding receive
receive-Same r m [] s = s
receive-Same r m ((set, em) ∷ ms) s =
    let next = election_handler set em m in
    receive-Same r next ms (Same-trans r m next s (handler-Same set em m))

receive-append :
    (ms : List (Bool × ElectionMessage)) (em : ElectionMessage) (r : Recoverd)
    → receive (ms ++ (true, em) ∷ []) r ≡ election_handler true em (receive ms r)
unfolding receive
receive-append [] em r = refl
receive-append ((set, m) ∷ ms) em r = receive-append ms em (election_handler set m r)

-- The winner, which may become the recovery master, stays its own recovery master, whatever messages it receives that do
-- not beat it or come from banned or stopped nodes; and a node that it wins over takes it for the recovery master and
-- stays silent after its message, whatever messages came before, when the control that sets the recovery master then
-- succeeds. Earlier controls may fail.
pub election-settles :
    (z y : Recoverd) (ms ns : List (Bool × ElectionMessage))
    → Eligible z
    → WinsOver z y
    → All (Yields z) ms
    → z.recmaster ≡ z.pnn
    → ((receive ms z).recmaster ≡ z.pnn)
      × ((receive (ns ++ (true, message z) ∷ []) y).recmaster ≡ z.pnn)
      × ((receive (ns ++ (true, message z) ∷ []) y).send_election_te ≡ false)
election-settles z y ms ns e w a m =
    let own : Same z z = record { data_lem = refl; capable = refl; pnn = refl } in
    let own_y : Same y y = record { data_lem = refl; capable = refl; pnn = refl } in
    let last = receive ns y in
    let s = receive-Same y y ns own_y in
    let up : GivesUp z.pnn (receive (ns ++ (true, message z) ∷ []) y) =
      subst (GivesUp z.pnn) (sym (receive-append ns (message z) y)) (
        subst (λ i. GivesUp i (election_handler true (message z) last)) (message-pnn z)
          (handler-loses (message z) last (win-Same y last (message z) s ∙ w.1))) in
    (leader-stays z z ms e own a m, up.0, up.1)
