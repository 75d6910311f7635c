-- ===== src/Recovery/Agreement.antt =====
-- server/ctdb_recoverd.c: recover_database leaves all active nodes with the same records, the best ones.
use ctdb.Base.{
  ℕ, ◌≡◌, inl, inr, refl, ◌∙◌, ap, arith, Bool, true, false, not, none, some, Option, List, [], ◌∷◌,
  ◌++◌, if◌then◌else◌, map, Bool-cases, if-elim,
}
use ctdb.Dmaster.Header.{Rec}
use ctdb.Dmaster.Store.{is_empty}
use ctdb.Recovery.Database.{Value, short, full, values_at, to_list, Dbs}
use ctdb.Recovery.Control.{Member, ctdb_control_pull_db}
use ctdb.Recovery.Pull.{Pulled, pull_answer, pull_one_remote_database, pull_all}
use ctdb.Recovery.Merge.{recs, answer_at, sent_at}
use ctdb.Recovery.Master.{Participant, claim, traverse_value, remote}
use ctdb.Recovery.Push.{published, stored, received}

-- What a node has for a key after the recovery, when this was the best of the records: nothing if that is
-- empty, and else its data, with the recovery master as dmaster, whose own copy has the next rsn.
unfoldable pub recovered : (pnn node_pnn : ℕ) → Option Value → Option Value
recovered pnn node_pnn none = none
recovered pnn node_pnn (some (short bytes)) = none
recovered pnn node_pnn (some (full r)) =
    if is_empty r.body then none else some (full (stored false node_pnn (claim pnn r)))

pub received-recovered :
    (pnn node_pnn : ℕ) (o : Option Value)
    → received false node_pnn (to_list (published pnn false o)) none ≡ recovered pnn node_pnn o
unfolding recovered received traverse_value
received-recovered pnn node_pnn none = refl
received-recovered pnn node_pnn (some (short bytes)) = refl
received-recovered pnn node_pnn (some (full r)) = elim (Bool-cases (is_empty r.body)) [
  | inl empty ↦ rw (empty, traverse_value) refl
  | inr some_data ↦ rw (some_data, traverse_value) refl
]

module _ (d : Dbs) where
  -- The records that the active nodes have for a key.
  abbrev pub held_at : ℕ → List (Participant d.State) → List Rec
  held_at k [] = []
  held_at k (p ∷ ps) =
      if p.inactive
      then held_at k ps
      else recs (to_list (d.fetch p.member.node.store k)) ++ held_at k ps

  pull_db-some :
      (locked traversed : Bool) (m : Member d.State) (records : List (ℕ × Value))
      → ctdb_control_pull_db d locked traversed m ≡ some records
      → records ≡ d.traverse m.node.store
  unfolding ctdb_control_pull_db
  pull_db-some locked traversed m records =
      let P : Option (List (ℕ × Value)) → Type 0 =
        λ o. o ≡ some records → records ≡ d.traverse m.node.store in
      if-elim P (not m.node.attached) _ _ (λ h e. cc)
        (λ a.
          if-elim P (not m.frozen) _ _ (λ h e. cc)
            (λ b.
              if-elim P (not locked) _ _ (λ h e. cc)
                (λ c. if-elim P (not traversed) _ _ (λ h e. cc) (λ h e. cc))))

  answer-held :
      (rm k : ℕ) (o : Option (List (ℕ × Value))) (s t : d.State)
      → ((records : List (ℕ × Value)) → o ≡ some records → records ≡ d.traverse t)
      → (pull_answer d rm o s).ok ≡ true
      → answer_at d rm k o ≡ recs (to_list (d.fetch t k))
  unfolding pull_answer
  answer-held rm k none s t h = λ no. cc
  answer-held rm k (some records) s t h =
      λ ok. ap recs (ap (values_at k) (h records refl) ∙ d.traverse_lem t k)

  remote-held :
      (rm k : ℕ) (p : Participant d.State) (s : d.State)
      → (pull_one_remote_database d rm (remote d p) s).ok ≡ true
      → answer_at d rm k (remote d p).pulldb ≡ recs (to_list (d.fetch p.member.node.store k))
  unfolding pull_one_remote_database
  remote-held rm k p s =
      let m = p.member in
      answer-held rm k (remote d p).pulldb s m.node.store (λ records.
        if-elim (λ o. o ≡ some records → records ≡ d.traverse m.node.store) p.reachable _ _
          (λ h. pull_db-some p.locked p.traversed m records) (λ h e. cc))

  -- When the records of all nodes were pulled, these are the records that the active nodes have.
  node-held :
      (inactive : Bool) (skip p rest : Pulled d) (here others others' : List Rec) (there : List Rec)
      → (skip.ok ≡ true → others ≡ others')
      → (p.ok ≡ true → there ≡ here)
      → (rest.ok ≡ true → others ≡ others')
      → (if inactive then skip else if not p.ok then p else rest).ok ≡ true
      → (if inactive then others else there ++ others)
        ≡ (if inactive then others' else here ++ others')
  node-held true skip p rest here others others' there f g h = f
  node-held false skip p rest here others others' there f g h =
      if-elim (λ (m : Pulled d). m.ok ≡ true → there ++ others ≡ here ++ others') (not p.ok) p rest
        (λ bad ok. absurd (ground (arith, bad, ok)))
        (λ good ok. let a = g (ground (arith, good)) in let b = h ok in cc)

  pub sent-held :
      (rm k : ℕ) (ps : List (Participant d.State)) (s : d.State)
      → (pull_all d rm (map (remote d) ps) s).ok ≡ true
      → sent_at d rm k (map (remote d) ps) ≡ held_at k ps
  unfolding pull_all
  sent-held rm k [] s ok = refl
  sent-held rm k (p ∷ ps) s ok =
      let r = remote d p in
      let one = pull_one_remote_database d rm r s in
      node-held p.inactive (pull_all d rm (map (remote d) ps) s) one
        (pull_all d rm (map (remote d) ps) one.recdb)
        (recs (to_list (d.fetch p.member.node.store k))) (sent_at d rm k (map (remote d) ps))
        (held_at k ps) (answer_at d rm k r.pulldb) (sent-held rm k ps s) (remote-held rm k p s)
        (sent-held rm k ps one.recdb) ok
