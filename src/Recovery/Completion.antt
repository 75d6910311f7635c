-- ===== src/Recovery/Completion.antt =====
-- server/ctdb_recoverd.c: recover_database returns 0 when all active nodes take part.
use ctdb.Base.{
  ℕ, ◌≡◌, inl, inr, refl, sym, subst, arith, Bool, true, false, not, ◌&&◌, ◌||◌, List, [], ◌∷◌,
  ◌==◌, All, map, if-elim,
}
use ctdb.Recovery.Database.{Value, to_list, Dbs}
use ctdb.Recovery.Control.{
  Member, Answer, push_records, ctdb_control_push_db, ctdb_control_wipe_database,
}
use ctdb.Recovery.Pull.{Remote, pull_all, pull_remote_database}
use ctdb.Recovery.Master.{
  Participant, traverse_recdb, remote, answered, succeeded, all_succeeded, push, wipe, Recovered,
  push_recdb_database, recover_database,
}
use ctdb.Recovery.Push.{HasData, traverse_recdb-HasData}
use ctdb.Recovery.Success.{IsFull, Reliable, Willing, push-succeeds, pull_all-succeeds}

excused : (inactive other : Bool) → inactive ≡ true → (inactive || other) ≡ true
excused inactive other e = ground (arith, e)

done :
    (inactive reachable ok : Bool)
    → reachable ≡ true
    → ok ≡ true
    → (inactive || reachable && ok) ≡ true
done inactive reachable ok r e = ground (arith, r, e)

module _ (d : Dbs) (rel : Reliable d) where
  -- The database can be wiped, and afterwards still is what a push asks for.
  record Open (m : Member d.State) : Type 0 where
    attached : m.node.attached ≡ true
    frozen : m.frozen ≡ true

  wipe-succeeds :
      (transaction_id : ℕ) (m : Member d.State)
      → Open m
      → m.freeze_transaction_started ≡ true
      → transaction_id ≡ m.freeze_transaction_id
      → ((ctdb_control_wipe_database d transaction_id m).ok ≡ true)
        × Open (ctdb_control_wipe_database d transaction_id m).member
  unfolding ctdb_control_wipe_database
  wipe-succeeds transaction_id m o s i =
      let P : Answer d.State → Type 0 = λ a. (a.ok ≡ true) × Open a.member in
      if-elim P (not m.node.attached) _ _ (λ h. absurd (let a = o.attached in ground (arith, h, a)))
        (λ _.
          if-elim P (not m.frozen) _ _ (λ h. absurd (let f = o.frozen in ground (arith, h, f)))
            (λ _.
              if-elim P (not m.freeze_transaction_started) _ _ (λ h. absurd (ground (arith, h, s)))
                (λ _.
                  if-elim P (not (transaction_id == m.freeze_transaction_id)) _ _
                    (λ h. absurd (ground (arith, h, i)))
                    (λ _.
                      let (t, e) = rel.wipes m.node.store in
                      rw (e, ctdb_control_wipe_database)
                        (refl, record { attached = o.attached; frozen = o.frozen })))))

  pushed-succeeds :
      (locked wiped : Bool) (rs : List (ℕ × Value)) (m : Member d.State)
      → Open m
      → locked ≡ true
      → All HasData rs
      → (ctdb_control_push_db d locked wiped rs m).ok ≡ true
  unfolding ctdb_control_push_db
  pushed-succeeds locked wiped rs m o l a =
      let P : Answer d.State → Type 0 = λ a. a.ok ≡ true in
      let done = push-succeeds d rel rs m.node a in
      if-elim P (not m.node.attached) _ _ (λ h. absurd (let a = o.attached in ground (arith, h, a)))
        (λ _.
          if-elim P (not m.frozen) _ _ (λ h. absurd (let f = o.frozen in ground (arith, h, f)))
            (λ _.
              if-elim P (not locked) _ _ (λ h. absurd (ground (arith, h, l)))
                (λ _.
                  if-elim P (not (push_records d rs m.node).0) _ _
                    (λ h. absurd (ground (arith, h, done))) (λ _. refl))))

  member-succeeds :
      (transaction_id : ℕ) (rs : List (ℕ × Value)) (p : Participant d.State)
      → All HasData rs
      → Willing d rel transaction_id p
      → (succeeded d (wipe d transaction_id) p ≡ true)
        × (succeeded d (push d rs) (answered d (wipe d transaction_id) p) ≡ true)
  member-succeeds transaction_id rs p a (inl off) =
      let q = record p { member = (wipe d transaction_id p).member } in
      (
        excused p.inactive _ off,
        if-elim (λ x. succeeded d (push d rs) x ≡ true) (p.inactive || not p.reachable) p q
            (λ _. excused p.inactive _ off) (λ _. excused p.inactive _ off),
      )
  member-succeeds transaction_id rs p a (inr r) =
      let (wiped, o) =
        wipe-succeeds transaction_id p.member (record { attached = r.attached; frozen = r.frozen })
          r.started r.transaction in
      let after = (ctdb_control_wipe_database d transaction_id p.member).member in
      (
        done p.inactive p.reachable _ r.reachable wiped,
        if-elim (λ x. succeeded d (push d rs) x ≡ true) (p.inactive || not p.reachable) p
            (record p { member = after })
            (λ h. excused p.inactive _ (let e = r.reachable in ground (arith, h, e)))
            (λ _.
              done p.inactive p.reachable _ r.reachable
                (pushed-succeeds p.locked p.wiped rs after o r.locked a)),
      )

  members-succeed :
      (transaction_id : ℕ) (rs : List (ℕ × Value)) (ps : List (Participant d.State))
      → All HasData rs
      → All (Willing d rel transaction_id) ps
      → (all_succeeded d (wipe d transaction_id) ps ≡ true)
        × (all_succeeded d (push d rs) (map (answered d (wipe d transaction_id)) ps) ≡ true)
  unfolding all_succeeded
  members-succeed transaction_id rs [] a w = (refl, refl)
  members-succeed transaction_id rs (p ∷ ps) a w =
      let (x, y) = member-succeeds transaction_id rs p a w.0 in
      let (xs, ys) = members-succeed transaction_id rs ps a w.1 in
      (ground (arith, x, xs), ground (arith, y, ys))

  -- A database that is not persistent is recovered: the function returns 0 when no write fails and every
  -- active node takes part.
  pub recover_database-succeeds :
      (by_seqnum : Bool) (arrive : List Remote → List Remote)
      (recovery_master pnn transaction_id : ℕ) (nodes : List (Participant d.State))
      → All (Willing d rel transaction_id) nodes
      → (recover_database d by_seqnum arrive recovery_master pnn false transaction_id nodes).ok
        ≡ true
  unfolding recover_database pull_remote_database push_recdb_database
  recover_database-succeeds by_seqnum arrive recovery_master pnn transaction_id nodes w =
      let P : Recovered d → Type 0 = λ r. r.ok ≡ true in
      let pulled = pull_all d recovery_master (map (remote d) nodes) d.empty in
      let rs = traverse_recdb pnn false (d.traverse pulled.recdb) in
      let good =
        pull_all-succeeds d rel recovery_master transaction_id nodes d.empty w
          (λ k. subst (λ x. All IsFull (to_list x)) (sym (d.fetch-empty k)) tt) in
      let (wipes, pushes) =
        members-succeed transaction_id rs nodes
          (traverse_recdb-HasData pnn (d.traverse pulled.recdb)) w in
      if-elim P (not pulled.ok) _ _ (λ h. absurd (ground (arith, h, good)))
        (λ _.
          if-elim P (not (all_succeeded d (wipe d transaction_id) nodes)) _ _
            (λ h. absurd (ground (arith, h, wipes))) (λ _. pushes))
