-- ===== src/Recovery/Outcome.antt =====
-- server/ctdb_recoverd.c: what a successful recover_database makes of the database, on every active node.
use ctdb.Base.{
  ℕ, ◌≡◌, inl, inr, refl, sym, ◌∙◌, ap, subst, arith, Bool, true, false, not, ◌||◌, none, Option,
  List, [], ◌∷◌, ◌==◌, All, map, Option-cases, if-elim,
}
use ctdb.Dmaster.Node.{Node}
use ctdb.Recovery.Database.{Value, values_at, Dbs}
use ctdb.Recovery.Control.{
  Member, Answer, push_records, clear_tracking, ctdb_control_push_db, ctdb_control_wipe_database,
}
use ctdb.Recovery.Pull.{Remote, pull_all, pull_remote_database}
use ctdb.Recovery.Merge.{Best, pull_all-Best}
use ctdb.Recovery.Master.{
  Participant, traverse_recdb, remote, answered, succeeded, all_succeeded, push, wipe, Recovered,
  push_recdb_database, recover_database,
}
use ctdb.Recovery.Push.{
  received, pushed_at, HasData, traverse_recdb-HasData, Pushed, push_records-Pushed,
}
use ctdb.Recovery.Agreement.{recovered, received-recovered, held_at, sent-held}

-- What an active node that is reached makes of a control that succeeds.
active_answer :
    (d : Dbs) (f : Participant d.State → Answer d.State) (p : Participant d.State)
    → p.inactive ≡ false
    → succeeded d f p ≡ true
    → ((f p).ok ≡ true) × ((answered d f p).member ≡ (f p).member)
active_answer d f p active s = (
  ground (arith, active, s),
  if-elim (λ (x : Participant d.State). x.member ≡ (f p).member) (p.inactive || not p.reachable) _ _
      (λ no. absurd (ground (arith, active, s, no))) (λ yes. refl),
)

module _ (d : Dbs) where
  pub record Wiped (n m : Node d.State) : Type 0 where
    pub empty : (k : ℕ) → d.fetch m.store k ≡ none
    pub pnn : m.pnn ≡ n.pnn
    pub persistent : m.persistent ≡ n.persistent

  wipe-Wiped :
      (transaction_id : ℕ) (m : Member d.State)
      → (ctdb_control_wipe_database d transaction_id m).ok ≡ true
      → Wiped m.node (ctdb_control_wipe_database d transaction_id m).member.node
  unfolding ctdb_control_wipe_database
  wipe-Wiped transaction_id m =
      let P : Answer d.State → Type 0 = λ a. a.ok ≡ true → Wiped m.node a.member.node in
      if-elim P (not m.node.attached) _ _ (λ h e. cc)
        (λ a.
          if-elim P (not m.frozen) _ _ (λ h e. cc)
            (λ b.
              if-elim P (not m.freeze_transaction_started) _ _ (λ h e. cc)
                (λ c.
                  if-elim P (not (transaction_id == m.freeze_transaction_id)) _ _ (λ h e. cc)
                    (λ f. elim (Option-cases (d.wipe m.node.store)) [
                      | inl fails ↦ rw (fails, ctdb_control_wipe_database) (λ e. cc)
                      | inr (t, wiped) ↦
                          rw (wiped, ctdb_control_wipe_database)
                            (λ e. record {
                              empty = λ k. d.fetch-wipe m.node.store t k wiped;
                              pnn = refl;
                              persistent = refl;
                            })
                    ]))))

  clear-Pushed :
      (k : ℕ) (rs : List (ℕ × Value)) (wiped : Bool) (n m : Node d.State)
      → Pushed d k rs n m
      → Pushed d k rs n (clear_tracking d wiped m)
  unfolding clear_tracking
  clear-Pushed k rs wiped n m p =
      if-elim (Pushed d k rs n) (not m.readonly) _ _ (λ h. p)
        (λ h.
          if-elim (Pushed d k rs n) wiped _ _
            (λ ok. record { has = p.has; pnn = p.pnn; persistent = p.persistent })
            (λ fails. record { has = p.has; pnn = p.pnn; persistent = p.persistent }))

  push-Pushed :
      (k : ℕ) (rs : List (ℕ × Value)) (locked wiped : Bool) (m : Member d.State)
      → All HasData rs
      → (ctdb_control_push_db d locked wiped rs m).ok ≡ true
      → Pushed d k rs m.node (ctdb_control_push_db d locked wiped rs m).member.node
  unfolding ctdb_control_push_db
  push-Pushed k rs locked wiped m a =
      let P : Answer d.State → Type 0 = λ x. x.ok ≡ true → Pushed d k rs m.node x.member.node in
      if-elim P (not m.node.attached) _ _ (λ h e. cc)
        (λ b.
          if-elim P (not m.frozen) _ _ (λ h e. cc)
            (λ c.
              if-elim P (not locked) _ _ (λ h e. cc)
                (λ f.
                  if-elim P (not (push_records d rs m.node).0) _ _ (λ h e. cc)
                    (λ done e.
                      clear-Pushed k rs wiped m.node (push_records d rs m.node).1
                        (push_records-Pushed d k rs m.node a (ground (arith, done)))))))

  -- The node, if it is active, has for the key what is recovered from the best of the records.
  abbrev pub Holds : (k pnn : ℕ) → Option Value → Participant d.State → Type 0
  Holds k pnn chosen p =
      p.inactive ≡ false → d.fetch p.member.node.store k ≡ recovered pnn p.member.node.pnn chosen

  answered-inactive :
      (f : Participant d.State → Answer d.State) (p : Participant d.State)
      → (answered d f p).inactive ≡ p.inactive
  answered-inactive f p =
      if-elim (λ (x : Participant d.State). x.inactive ≡ p.inactive) (p.inactive || not p.reachable)
        _ _ (λ h. refl) (λ h. refl)

  member-Holds :
      (k pnn transaction_id : ℕ) (recdb : d.State) (p : Participant d.State)
      → p.member.node.persistent ≡ false
      → succeeded d (wipe d transaction_id) p ≡ true
      → succeeded d
          (push d (traverse_recdb pnn false (d.traverse recdb)))
          (answered d (wipe d transaction_id) p)
        ≡ true
      → Holds k pnn (d.fetch recdb k) (
          answered d
            (push d (traverse_recdb pnn false (d.traverse recdb)))
            (answered d (wipe d transaction_id) p))
  member-Holds k pnn transaction_id recdb p volatile wipes pushes active =
      let rs = traverse_recdb pnn false (d.traverse recdb) in
      let chosen = d.fetch recdb k in
      let q = answered d (wipe d transaction_id) p in
      let q-active = sym (answered-inactive (push d rs) q) ∙ active in
      let p-active = sym (answered-inactive (wipe d transaction_id) p) ∙ q-active in
      let (wipe_ok, wipe_member) = active_answer d (wipe d transaction_id) p p-active wipes in
      let (push_ok, push_member) = active_answer d (push d rs) q q-active pushes in
      let w : Wiped p.member.node q.member.node =
        subst (λ m. Wiped p.member.node m.node) (sym wipe_member)
          (wipe-Wiped transaction_id p.member wipe_ok) in
      let b =
        push-Pushed k rs q.locked q.wiped q.member (traverse_recdb-HasData pnn (d.traverse recdb))
          push_ok in
      let n = q.member.node in
      subst (λ m. d.fetch m.node.store k ≡ recovered pnn m.node.pnn chosen) (sym push_member)
        (b.has
          ∙ ap (λ x. received n.persistent n.pnn (values_at k rs) x) (w.empty k)
          ∙ ap (λ x. received x n.pnn (values_at k rs) none) (w.persistent ∙ volatile)
          ∙ ap (λ x. received false n.pnn x none) (pushed_at d pnn false k recdb)
          ∙ received-recovered pnn n.pnn chosen
          ∙ ap (λ i. recovered pnn i chosen) (sym b.pnn))

  members-Holds :
      (k pnn transaction_id : ℕ) (recdb : d.State) (ps : List (Participant d.State))
      → All (λ p. p.member.node.persistent ≡ false) ps
      → all_succeeded d (wipe d transaction_id) ps ≡ true
      → (push_recdb_database d pnn false recdb (map (answered d (wipe d transaction_id)) ps)).ok
        ≡ true
      → All
          (Holds k pnn (d.fetch recdb k))
          (push_recdb_database d pnn false recdb
            (map (answered d (wipe d transaction_id)) ps)).nodes
  unfolding push_recdb_database all_succeeded
  members-Holds k pnn transaction_id recdb [] a wipes pushes = tt
  members-Holds k pnn transaction_id recdb (p ∷ ps) a wipes pushes = (
    member-Holds k pnn transaction_id recdb p a.0 (ground (arith, wipes)) (ground (arith, pushes)),
    members-Holds k pnn transaction_id recdb ps a.1 (ground (arith, wipes))
        (ground (arith, pushes)),
  )

  -- Of a database that is not persistent: when the recovery succeeds, every active node has for each key the
  -- best of the records that the active nodes had, with the node that recovers as dmaster, or nothing if the
  -- best record is empty or none had one.
  pub recover_database-merges :
      (by_seqnum : Bool) (arrive : List Remote → List Remote)
      (recovery_master pnn transaction_id k : ℕ) (nodes : List (Participant d.State))
      → All (λ p. p.member.node.persistent ≡ false) nodes
      → (recover_database d by_seqnum arrive recovery_master pnn false transaction_id nodes).ok
        ≡ true
      → (chosen : Option Value) × Best recovery_master (held_at d k nodes) chosen
        × All
            (Holds k pnn chosen)
            (recover_database d by_seqnum arrive recovery_master pnn false transaction_id
              nodes).nodes
  unfolding recover_database pull_remote_database
  recover_database-merges by_seqnum arrive recovery_master pnn transaction_id k nodes a =
      let pulled = pull_all d recovery_master (map (remote d) nodes) d.empty in
      let chosen = d.fetch pulled.recdb k in
      let P : Recovered d → Type 0 = λ r.
        r.ok ≡ true
        → (chosen : Option Value) × Best recovery_master (held_at d k nodes) chosen
          × All (Holds k pnn chosen) r.nodes in
      if-elim P (not pulled.ok) _ _ (λ h e. cc)
        (λ good.
          if-elim P (not (all_succeeded d (wipe d transaction_id) nodes)) _ _ (λ h e. cc)
            (λ wipes e.
              let ok : pulled.ok ≡ true = ground (arith, good) in
              (
                chosen,
                subst (λ x. Best recovery_master x chosen)
                    (sent-held d recovery_master k nodes d.empty ok)
                    (pull_all-Best d recovery_master k (map (remote d) nodes) ok),
                members-Holds k pnn transaction_id pulled.recdb nodes a (ground (arith, wipes)) e,
              )))
