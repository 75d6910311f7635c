-- ===== src/Recovery/Push.antt =====
-- server/ctdb_recover.c: what a node has for a key after the records of the recovery database were pushed
-- to it.
use ctdb.Base.{
  ℕ, ◌+◌, ◌≡◌, ◌≢◌, inl, inr, refl, sym, ◌∙◌, ap, arith, Bool, true, false, not, ◌&&◌, none, some,
  Option, List, [], ◌∷◌, ◌++◌, ◌==◌, if◌then◌else◌, All, Option-cases, if-elim,
}
use mathlib.Core.List.{append-nil}
use ctdb.Dmaster.Header.{Rec, u64}
use ctdb.Dmaster.Node.{Node, note}
use ctdb.Dmaster.Store.{
  is_empty, keep_record, stored_header, write, schedules, keep, ctdb_ltdb_store_server,
}
use ctdb.Recovery.Database.{Value, short, full, values_at, to_list, Dbs, at_key}
use ctdb.Recovery.Control.{revoked, push_records}
use ctdb.Recovery.Master.{claim, traverse_value, traverse_recdb}

abbrev pub published : ℕ → Bool → Option Value → Option Value
published pnn persistent none = none
published pnn persistent (some v) = traverse_value pnn persistent v

mapped : ℕ → Bool → List Value → List Value
mapped pnn persistent [] = []
mapped pnn persistent (v ∷ vs) =
    to_list (traverse_value pnn persistent v) ++ mapped pnn persistent vs

traverse-if :
    (pnn : ℕ) (persistent b : Bool) (v : Value) (rest : List Value)
    → mapped pnn persistent (if b then v ∷ rest else rest)
      ≡ (if b then to_list (traverse_value pnn persistent v) else []) ++ mapped pnn persistent rest
unfolding mapped
traverse-if pnn persistent true v rest = refl
traverse-if pnn persistent false v rest = refl

cons-if :
    (b : Bool) (w : Value) (rest : List Value)
    → (if b then w ∷ rest else rest) ≡ (if b then w ∷ [] else []) ++ rest
cons-if true w rest = refl
cons-if false w rest = refl

nothing-if : (b : Bool) (rest : List Value) → rest ≡ (if b then [] else []) ++ rest
nothing-if true rest = refl
nothing-if false rest = refl

values_at-option :
    (k j : ℕ) (o : Option Value) (rest : List (ℕ × Value))
    → values_at k (elim o [ none ↦ rest | some w ↦ (j, w) ∷ rest ])
      ≡ (if j == k then to_list o else []) ++ values_at k rest
unfolding values_at
values_at-option k j none rest = nothing-if (j == k) (values_at k rest)
values_at-option k j (some w) rest = cons-if (j == k) w (values_at k rest)

values_at-traverse :
    (pnn : ℕ) (persistent : Bool) (k : ℕ) (rs : List (ℕ × Value))
    → values_at k (traverse_recdb pnn persistent rs) ≡ mapped pnn persistent (values_at k rs)
unfolding values_at traverse_recdb mapped
values_at-traverse pnn persistent k [] = refl
values_at-traverse pnn persistent k ((j, v) ∷ rs) =
    values_at-option k j (traverse_value pnn persistent v) (traverse_recdb pnn persistent rs)
    ∙ ap (λ x. (if j == k then to_list (traverse_value pnn persistent v) else []) ++ x)
        (values_at-traverse pnn persistent k rs)
    ∙ sym (traverse-if pnn persistent (j == k) v (values_at k rs))

mapped-to_list :
    (pnn : ℕ) (persistent : Bool) (o : Option Value)
    → mapped pnn persistent (to_list o) ≡ to_list (published pnn persistent o)
unfolding mapped
mapped-to_list pnn persistent none = refl
mapped-to_list pnn persistent (some v) = append-nil (to_list (traverse_value pnn persistent v))

-- Each record of the recovery database is pushed once, unless it is skipped.
pub pushed_at :
    (d : Dbs) (pnn : ℕ) (persistent : Bool) (k : ℕ) (recdb : d.State)
    → values_at k (traverse_recdb pnn persistent (d.traverse recdb))
      ≡ to_list (published pnn persistent (d.fetch recdb k))
pushed_at d pnn persistent k recdb =
    values_at-traverse pnn persistent k (d.traverse recdb)
    ∙ ap (mapped pnn persistent) (d.traverse_lem recdb k)
    ∙ mapped-to_list pnn persistent (d.fetch recdb k)

-- No empty record is pushed to a database that is not persistent.
abbrev pub HasData : ℕ × Value → Type 0
HasData (k, short bytes) = ⊥
HasData (k, full r) = is_empty r.body ≡ false

option-HasData :
    (k : ℕ) (b : Bool) (r : Rec) (o : Option Value) (rest : List (ℕ × Value))
    → is_empty r.body ≡ b
    → o ≡ (if b then none else some (full r))
    → All HasData rest
    → All HasData (elim o [ none ↦ rest | some w ↦ (k, w) ∷ rest ])
option-HasData k true r o rest e q a = rw q a
option-HasData k false r o rest e q a = rw q (e, a)

pub traverse_recdb-HasData :
    (pnn : ℕ) (rs : List (ℕ × Value)) → All HasData (traverse_recdb pnn false rs)
unfolding traverse_recdb traverse_value
traverse_recdb-HasData pnn [] = tt
traverse_recdb-HasData pnn ((k, short bytes) ∷ rs) = traverse_recdb-HasData pnn rs
traverse_recdb-HasData pnn ((k, full r) ∷ rs) =
    option-HasData k (is_empty r.body) (claim pnn r) (traverse_value pnn false (full r))
      (traverse_recdb pnn false rs) (unfold claim in refl) refl (traverse_recdb-HasData pnn rs)

-- The header and the data that a node stores for a record that is pushed to it.
abbrev pub stored : (persistent : Bool) (pnn : ℕ) → Rec → Rec
stored persistent pnn r = record {
  header = record r.header {
    rsn =
        if not persistent && (pnn == r.header.dmaster)
        then u64 (r.header.rsn + 1)
        else r.header.rsn;
    flags = record (revoked r.header).flags { vacuum_migrated = false; automatic = false };
  };
  body = r.body;
}

-- What the database has for a key after these values came.
unfoldable pub received : (persistent : Bool) (pnn : ℕ) → List Value → Option Value → Option Value
received persistent pnn [] o = o
received persistent pnn (short bytes ∷ vs) o = received persistent pnn vs o
received persistent pnn (full r ∷ vs) o =
    received persistent pnn vs (some (full (stored persistent pnn r)))

and_true : (b : Bool) → (b && true) ≡ b
and_true true = refl
and_true false = refl

module _ (d : Dbs) where
  -- The node that stored a record: the record is there, and nothing else changed.
  record Wrote (k : ℕ) (r : Rec) (n m : Node d.State) : Type 0 where
    here : d.fetch m.store k ≡ some (full (stored n.persistent n.pnn r))
    elsewhere : (j : ℕ) → j ≢ k → d.fetch m.store j ≡ d.fetch n.store j
    pnn : m.pnn ≡ n.pnn
    persistent : m.persistent ≡ n.persistent

  written-stored :
      (k : ℕ) (r : Rec) (n : Node d.State)
      → record { header = stored_header (at_key d k) n (revoked r.header); body = r.body }
        ≡ stored n.persistent n.pnn r
  unfolding stored_header
  written-stored k r n =
      ap
        (λ b. record (stored n.persistent n.pnn r) {
          header = record (stored n.persistent n.pnn r).header {
            rsn = if b then u64 (r.header.rsn + 1) else r.header.rsn;
          };
        })
        (and_true (not n.persistent && (n.pnn == r.header.dmaster)))

  write-Wrote :
      (k : ℕ) (r : Rec) (n : Node d.State) (schedule : Bool)
      → (write (at_key d k) n (revoked r.header) r.body schedule).ok ≡ true
      → Wrote k r n (write (at_key d k) n (revoked r.header) r.body schedule).node
  unfolding write note
  write-Wrote k r n schedule =
      let w : Rec = record {
        header = stored_header (at_key d k) n (revoked r.header);
        body = r.body;
      } in
      elim (Option-cases (d.store n.store k w)) [
        | inl fails ↦ rw (fails, write) (λ no. cc)
        | inr (t, stores) ↦
            rw (stores, write)
              (λ ok. record {
                here =
                    d.fetch-store n.store t k w stores
                    ∙ ap (λ x. some (full x)) (written-stored k r n);
                elsewhere = λ j e. d.fetch-store_other n.store t k j w stores e;
                pnn = refl;
                persistent = refl;
              })
      ]

  -- A record with data is never deleted.
  store-Wrote :
      (k : ℕ) (r : Rec) (n : Node d.State)
      → is_empty r.body ≡ false
      → (ctdb_ltdb_store_server (at_key d k) n (revoked r.header) r.body).ok ≡ true
      → Wrote k r n (ctdb_ltdb_store_server (at_key d k) n (revoked r.header) r.body).node
  unfolding ctdb_ltdb_store_server keep_record
  store-Wrote k r n e =
      let h = revoked r.header in
      rw (e, ctdb_ltdb_store_server, keep_record)
        (write-Wrote k r n (schedules (at_key d k) n h r.body keep))

  pub record Pushed (k : ℕ) (rs : List (ℕ × Value)) (n m : Node d.State) : Type 0 where
    pub has : d.fetch m.store k ≡ received n.persistent n.pnn (values_at k rs) (d.fetch n.store k)
    pub pnn : m.pnn ≡ n.pnn
    pub persistent : m.persistent ≡ n.persistent

  received-step :
      (k j : ℕ) (r : Rec) (n m : Node d.State) (vs : List Value)
      → Wrote j r n m
      → received m.persistent m.pnn vs (d.fetch m.store k)
        ≡ received n.persistent n.pnn (if j == k then full r ∷ vs else vs) (d.fetch n.store k)
  unfolding received
  received-step k j r n m vs w =
      let before = d.fetch m.store k in
      ap (λ p. received p m.pnn vs before) w.persistent
      ∙ ap (λ p. received n.persistent p vs before) w.pnn
      ∙ if-elim
          (λ us.
            received n.persistent n.pnn vs before
            ≡ received n.persistent n.pnn us (d.fetch n.store k))
          (j == k) (full r ∷ vs) vs
          (λ same.
            let e : j ≡ k = ground (arith, same) in
            ap (received n.persistent n.pnn vs) (ap (d.fetch m.store) (sym e) ∙ w.here))
          (λ other.
            ap (received n.persistent n.pnn vs) (w.elsewhere k (λ e. ground (arith, other, e))))

  pub push_records-Pushed :
      (k : ℕ) (rs : List (ℕ × Value)) (n : Node d.State)
      → All HasData rs
      → (push_records d rs n).0 ≡ true
      → Pushed k rs n (push_records d rs n).1
  unfolding push_records values_at received
  push_records-Pushed k [] n a = λ ok. record { has = refl; pnn = refl; persistent = refl }
  push_records-Pushed k ((j, short bytes) ∷ rs) n a = elim a.0 [ ]
  push_records-Pushed k ((j, full r) ∷ rs) n a =
      let s = ctdb_ltdb_store_server (at_key d j) n (revoked r.header) r.body in
      if-elim (λ (x : Bool × Node d.State). x.0 ≡ true → Pushed k ((j, full r) ∷ rs) n x.1) s.ok _ _
        (λ good ok.
          let w = store-Wrote j r n a.0 good in
          let rest = push_records-Pushed k rs s.node a.1 ok in
          record {
            has = rest.has ∙ received-step k j r n s.node (values_at k rs) w;
            pnn = rest.pnn ∙ w.pnn;
            persistent = rest.persistent ∙ w.persistent;
          })
        (λ bad no. cc)
