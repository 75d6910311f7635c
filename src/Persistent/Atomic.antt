-- ===== src/Persistent/Atomic.antt =====
-- server/ctdb_update_record.c: all records of a transaction are written on a node, or none.
use ctdb.Base.{
  subst, ℕ, ◌≡◌, ◌≢◌, ◌⊎◌, inl, inr, refl, sym, arith, Bool, true, false, not, none, some, Option,
  List, if◌then◌else◌, if-elim,
}
use ctdb.Dmaster.Node.{Node}
use ctdb.Recovery.Database.{Value, values_at, Dbs}
use ctdb.Persistent.Update.{
  Child, write_all, ctdb_persistent_store, childwrite_handler, ctdb_control_update_record,
}
use ctdb.Persistent.Stored.{Written, WrittenOr, write_all-WrittenOr, body_of, latest}

module _ (d : Dbs) where
  -- What the child reports, and the file that it leaves.
  Reported : List (ℕ × Value) → Node d.State → Bool × d.State → Type 0
  Reported rs n (true, s) = Written d rs n (record n { store = s })
  Reported rs n (false, s) = s ≡ n.store

  committed-Reported :
      (c : Child) (rs : List (ℕ × Value)) (n : Node d.State) (o : Option (Node d.State))
      → WrittenOr d rs n o
      → Reported rs n (elim o [
        | none ↦ (false, n.store)
        | some m ↦ if not c.commits then (false, n.store) else (true, m.store)
      ])
  unfolding Reported
  committed-Reported c rs n none h = refl
  committed-Reported c rs n (some m) h =
      if-elim (Reported rs n) (not c.commits) _ _ (λ _. refl) (λ _. h)

  store-Reported :
      (c : Child) (rs : List (ℕ × Value)) (n : Node d.State)
      → n.persistent ≡ true
      → Reported rs n (ctdb_persistent_store d c false rs n)
  unfolding ctdb_persistent_store Reported
  store-Reported c rs n p =
      if-elim (Reported rs n) (not c.starts) _ _ (λ _. refl)
        (λ _. committed-Reported c rs n (write_all d false rs n) (write_all-WrittenOr d rs n p))

  abbrev Atomic : Child → List (ℕ × Value) → Node d.State → Option ℕ × Node d.State → Type 0
  Atomic c rs n (status, m) =
      ((status ≡ some 0)
        × ((k : ℕ)
            → body_of (d.fetch m.store k) ≡ latest (values_at k rs) (body_of (d.fetch n.store k))))
      ⊎ ((status ≢ some 0) × (m.store ≡ n.store))

  Reported-Atomic :
      (c : Child) (rs : List (ℕ × Value)) (n : Node d.State) (q : Bool × d.State)
      → c.reads ≡ true
      → Reported rs n q
      → Atomic c rs n (some (childwrite_handler c q.0), record n { store = q.1 })
  unfolding Reported
  Reported-Atomic c rs n (true, s) reads h = inl (ground (arith, reads), h)
  Reported-Atomic c rs n (false, s) reads h = inr (λ e. ground (arith, reads, e), h)

  refused-Atomic : (c : Child) (rs : List (ℕ × Value)) (n : Node d.State) → Atomic c rs n (none, n)
  refused-Atomic c rs n = inr (λ e. cc, refl)

  -- Of a persistent database, when the answer of the child is read: either the reply has the status 0, and the data of each
  -- key is that of its last record in the transaction, or what it was when the transaction has no record of the key; or
  -- there is another status or an error at once, and the database is as it was.
  pub update_record-Atomic :
      (c : Child) (recovery_normal healthy : Bool) (rs : List (ℕ × Value)) (n : Node d.State)
      → n.persistent ≡ true
      → c.reads ≡ true
      → Atomic c rs n (ctdb_control_update_record d c recovery_normal healthy rs n)
  unfolding ctdb_control_update_record
  update_record-Atomic c recovery_normal healthy rs n p reads =
      let q = ctdb_persistent_store d c (not n.persistent) rs n in
      let refused = refused-Atomic c rs n in
      let outcome : Reported rs n q =
        subst (λ b. Reported rs n (ctdb_persistent_store d c (not b) rs n)) (sym p)
          (store-Reported c rs n p) in
      if-elim (Atomic c rs n) (not recovery_normal) _ _ (λ _. refused)
        (λ _.
          if-elim (Atomic c rs n) (not n.attached) _ _ (λ _. refused)
            (λ _.
              if-elim (Atomic c rs n) (not healthy) _ _ (λ _. refused)
                (λ _.
                  if-elim (Atomic c rs n) (not c.forked) _ _ (λ _. refused)
                    (λ _. Reported-Atomic c rs n q reads outcome))))
