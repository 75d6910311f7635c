-- ===== src/Recovery/Success.antt =====
-- server/ctdb_recoverd.c: recover_database succeeds when every active node answers and no write fails.
use ctdb.Base.{
  ℕ, ◌≡◌, ◌⊎◌, inl, inr, refl, sym, ◌∙◌, ap, subst, arith, Bool, true, false, not, none, some,
  Option, List, [], ◌∷◌, ◌==◌, if◌then◌else◌, All, map, Bool-cases, if-elim,
}
use ctdb.Dmaster.Header.{Header, Rec}
use ctdb.Dmaster.Node.{Node}
use ctdb.Dmaster.Store.{
  is_empty, keep_record, stored_header, write, schedules, keep, ctdb_ltdb_store_server,
}
use ctdb.Recovery.Database.{Value, short, full, values_at, to_list, Dbs, at_key}
use ctdb.Recovery.Control.{Member, revoked, push_records, ctdb_control_pull_db}
use ctdb.Recovery.Pull.{
  replaces, Pulled, merge_record, pull_record, pull_records, pull_answer, pull_one_remote_database,
  pull_all,
}
use ctdb.Recovery.Master.{Participant, remote}
use ctdb.Recovery.Push.{HasData}

abbrev pub IsFull : Value → Type 0
IsFull (short bytes) = ⊥
IsFull (full r) = Unit

abbrev FullAt : ℕ × Value → Type 0
FullAt (k, v) = IsFull v

-- No write and no wipe fails.
pub record Reliable (d : Dbs) : Type 0 where
  pub stores : (s : d.State) (k : ℕ) (r : Rec) → (t : d.State) × (d.store s k r ≡ some t)
  pub wipes : (s : d.State) → (t : d.State) × (d.wipe s ≡ some t)

head-IsFull :
    (b : Bool) (v : Value) (vs : List Value)
    → b ≡ true
    → All IsFull (if b then v ∷ vs else vs)
    → IsFull v
head-IsFull true v vs e a = a.0
head-IsFull false v vs e a = cc

tail-IsFull :
    (b : Bool) (v : Value) (vs : List Value) → All IsFull (if b then v ∷ vs else vs) → All IsFull vs
tail-IsFull true v vs a = a.1
tail-IsFull false v vs a = a

-- A list of which each key has full values has full values.
values_at-IsFull : (rs : List (ℕ × Value)) → ((k : ℕ) → All IsFull (values_at k rs)) → All FullAt rs
unfolding values_at
values_at-IsFull [] h = tt
values_at-IsFull ((j, v) ∷ rs) h = (
  head-IsFull (j == j) v (values_at j rs) (ground arith) (h j),
  values_at-IsFull rs (λ k. tail-IsFull (j == k) v (values_at k rs) (h k)),
)

module _ (d : Dbs) (rel : Reliable d) where
  abbrev pub NoShort : d.State → Type 0
  NoShort s = (k : ℕ) → All IsFull (to_list (d.fetch s k))

  store-NoShort : (s t : d.State) (k : ℕ) (r : Rec) → NoShort s → d.store s k r ≡ some t → NoShort t
  store-NoShort s t k r h e j = elim (Bool-cases (j == k)) [
    | inl same ↦
        let q : j ≡ k = ground (arith, same) in
        subst (λ x. All IsFull (to_list x)) (sym (ap (d.fetch t) q ∙ d.fetch-store s t k r e))
          (tt, tt)
    | inr other ↦
        subst (λ x. All IsFull (to_list x))
          (sym (d.fetch-store_other s t k j r e (λ q. ground (arith, other, q)))) (h j)
  ]

  -- A record is merged without a failure.
  merge-succeeds :
      (rm k : ℕ) (r : Rec) (s : d.State) (o : Option Value)
      → All IsFull (to_list o)
      → NoShort s
      → (t : d.State) × (merge_record d rm k r s o ≡ some t) × NoShort t
  unfolding merge_record
  merge-succeeds rm k r s none a h =
      let (t, e) = rel.stores s k r in (t, e, store-NoShort s t k r h e)
  merge-succeeds rm k r s (some (short bytes)) a h = elim a.0 [ ]
  merge-succeeds rm k r s (some (full c)) a h =
      if-elim (λ m. (t : d.State) × (m ≡ some t) × NoShort t) (not (replaces rm c.header r.header))
        _ _ (λ old. (s, refl, h))
        (λ new. let (t, e) = rel.stores s k r in (t, e, store-NoShort s t k r h e))

  pull-succeeds :
      (rm : ℕ) (rs : List (ℕ × Value)) (s : d.State)
      → All FullAt rs
      → NoShort s
      → ((pull_records d rm rs s).ok ≡ true) × NoShort (pull_records d rm rs s).recdb
  unfolding pull_records pull_record
  pull-succeeds rm [] s a h = (refl, h)
  pull-succeeds rm ((k, short bytes) ∷ rs) s a h = elim a.0 [ ]
  pull-succeeds rm ((k, full r) ∷ rs) s a h =
      let (t, e, h') = merge-succeeds rm k r s (d.fetch s k) (h k) h in
      rw (e, pull_records, pull_record) (pull-succeeds rm rs t a.1 h')

  write-succeeds :
      (k : ℕ) (n : Node d.State) (h : Header) (body : List ℕ) (schedule : Bool)
      → (write (at_key d k) n h body schedule).ok ≡ true
  unfolding write
  write-succeeds k n h body schedule =
      let (t, e) =
        rel.stores n.store k (record { header = stored_header (at_key d k) n h; body = body }) in
      rw (e, write) refl

  store-succeeds :
      (k : ℕ) (n : Node d.State) (h : Header) (body : List ℕ)
      → is_empty body ≡ false
      → (ctdb_ltdb_store_server (at_key d k) n h body).ok ≡ true
  unfolding ctdb_ltdb_store_server keep_record
  store-succeeds k n h body e =
      rw (e, ctdb_ltdb_store_server, keep_record)
        (write-succeeds k n h body (schedules (at_key d k) n h body keep))

  pub push-succeeds :
      (rs : List (ℕ × Value)) (n : Node d.State) → All HasData rs → (push_records d rs n).0 ≡ true
  unfolding push_records
  push-succeeds [] n a = refl
  push-succeeds ((k, short bytes) ∷ rs) n a = elim a.0 [ ]
  push-succeeds ((k, full r) ∷ rs) n a =
      let s = ctdb_ltdb_store_server (at_key d k) n (revoked r.header) r.body in
      if-elim (λ (x : Bool × Node d.State). x.0 ≡ true) s.ok _ _
        (λ good. push-succeeds rs s.node a.1)
        (λ bad. sym bad ∙ store-succeeds k n (revoked r.header) r.body a.0)

  -- An active node that takes part: it has this database, which is frozen in this transaction, the controls
  -- reach it, its locks can be marked, and it has no value that is shorter than a header.
  pub record Ready (transaction_id : ℕ) (p : Participant d.State) : Type 0 where
    pub reachable : p.reachable ≡ true
    pub locked : p.locked ≡ true
    pub traversed : p.traversed ≡ true
    pub attached : p.member.node.attached ≡ true
    pub frozen : p.member.frozen ≡ true
    pub started : p.member.freeze_transaction_started ≡ true
    pub transaction : transaction_id ≡ p.member.freeze_transaction_id
    pub full : NoShort p.member.node.store

  abbrev pub Willing : ℕ → Participant d.State → Type 0
  Willing transaction_id p = (p.inactive ≡ true) ⊎ Ready transaction_id p

  pull_db-succeeds :
      (locked traversed : Bool) (m : Member d.State)
      → m.node.attached ≡ true
      → m.frozen ≡ true
      → locked ≡ true
      → traversed ≡ true
      → ctdb_control_pull_db d locked traversed m ≡ some (d.traverse m.node.store)
  unfolding ctdb_control_pull_db
  pull_db-succeeds locked traversed m a f l t =
      let P : Option (List (ℕ × Value)) → Type 0 = λ o. o ≡ some (d.traverse m.node.store) in
      if-elim P (not m.node.attached) _ _ (λ h. absurd (ground (arith, h, a)))
        (λ _.
          if-elim P (not m.frozen) _ _ (λ h. absurd (ground (arith, h, f)))
            (λ _.
              if-elim P (not locked) _ _ (λ h. absurd (ground (arith, h, l)))
                (λ _.
                  if-elim P (not traversed) _ _ (λ h. absurd (ground (arith, h, t))) (λ _. refl))))

  node-succeeds :
      (rm transaction_id : ℕ) (p : Participant d.State) (s : d.State)
      → Ready transaction_id p
      → NoShort s
      → ((pull_one_remote_database d rm (remote d p) s).ok ≡ true)
        × NoShort (pull_one_remote_database d rm (remote d p) s).recdb
  unfolding pull_one_remote_database pull_answer
  node-succeeds rm transaction_id p s r h =
      let store = p.member.node.store in
      let answer : (remote d p).pulldb ≡ some (d.traverse store) =
        rw (r.reachable) (
          pull_db-succeeds p.locked p.traversed p.member r.attached r.frozen r.locked
            r.traversed) in
      let full_list : All FullAt (d.traverse store) =
        values_at-IsFull (d.traverse store)
          (λ k. subst (All IsFull) (sym (d.traverse_lem store k)) (r.full k)) in
      subst (λ o. ((pull_answer d rm o s).ok ≡ true) × NoShort (pull_answer d rm o s).recdb)
        (sym answer) (pull-succeeds rm (d.traverse store) s full_list h)

  pub pull_all-succeeds :
      (rm transaction_id : ℕ) (ps : List (Participant d.State)) (s : d.State)
      → All (Willing transaction_id) ps
      → NoShort s
      → (pull_all d rm (map (remote d) ps) s).ok ≡ true
  unfolding pull_all
  pull_all-succeeds rm transaction_id [] s a h = refl
  pull_all-succeeds rm transaction_id (p ∷ ps) s a h =
      let P : Pulled d → Type 0 = λ m. m.ok ≡ true in
      let one = pull_one_remote_database d rm (remote d p) s in
      if-elim P p.inactive _ _ (λ skip. pull_all-succeeds rm transaction_id ps s a.1 h)
        (λ active. elim a.0 [
          | inl off ↦ absurd (let no : false ≡ true = sym active ∙ off in cc)
          | inr r ↦
              let (good, h') = node-succeeds rm transaction_id p s r h in
              if-elim P (not one.ok) _ _ (λ bad. absurd (ground (arith, bad, good)))
                (λ _. pull_all-succeeds rm transaction_id ps one.recdb a.1 h')
        ])
