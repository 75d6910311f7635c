-- ===== src/Persistent/Stored.antt =====
-- server/ctdb_update_record.c: what is stored when the records of a transaction were written, and what is not.
use ctdb.Base.{
  ℕ, ◌≡◌, ◌≢◌, inl, inr, refl, sym, ap, ◌∙◌, arith, Bool, true, false, not, ◌&&◌, ◌||◌, none, some,
  Option, List, [], ◌∷◌, ◌==◌, if◌then◌else◌, if-elim, Option-cases, leb,
}
use ctdb.Dmaster.Header.{Header, Rec, ro_flags}
use ctdb.Dmaster.Node.{Node, note}
use ctdb.Dmaster.Store.{
  is_empty, keep_record, keep, stored_header, write, ctdb_ltdb_store_server, Stored, Fetched,
  fetch_missing, ltdb_initial_header, ctdb_ltdb_fetch,
}
use ctdb.Recovery.Database.{rec_of, Value, short, full, values_at, Dbs, at_key}
use ctdb.Persistent.Controls.{was_true}
use ctdb.Persistent.Update.{same_bytes, write_one, write_all}

abbrev pub body_of : Option Value → Option (List ℕ)
body_of none = none
body_of (some (short bytes)) = none
body_of (some (full r)) = some r.body

-- The data of a key after these values were written.
abbrev pub latest : List Value → Option (List ℕ) → Option (List ℕ)
latest [] o = o
latest (short bytes ∷ vs) o = latest vs o
latest (full r ∷ vs) o = latest vs (some r.body)

module _ (d : Dbs) where
  -- Only the file at one key is written.
  record Kept (k : ℕ) (n m : Node d.State) : Type 0 where
    elsewhere : (j : ℕ) → j ≢ k → d.fetch m.store j ≡ d.fetch n.store j
    persistent : m.persistent ≡ n.persistent

  record Wrote (k : ℕ) (body : List ℕ) (n m : Node d.State) : Type 0 where
    here : body_of (d.fetch m.store k) ≡ some body
    kept : Kept k n m

  keep_record-persistent :
      (k : ℕ) (n : Node d.State) (h : Header) (body : List ℕ)
      → n.persistent ≡ true
      → keep_record (at_key d k) n h body ≡ keep
  unfolding keep_record
  keep_record-persistent k n h body p =
      if-elim (λ x. x ≡ keep) (not (is_empty body)) _ _ (λ _. refl)
        (λ _. if-elim (λ x. x ≡ keep) (ro_flags h.flags) _ _ (λ _. refl) (λ _. rw p refl))

  StoredOr : (k : ℕ) → List ℕ → Node d.State → Stored (at_key d k) → Type 0
  StoredOr k body n s = if s.ok then Wrote k body n s.node else Kept k n s.node

  write-Stored :
      (k : ℕ) (n : Node d.State) (h : Header) (body : List ℕ) (schedule : Bool)
      → StoredOr k body n (write (at_key d k) n h body schedule)
  unfolding write note StoredOr
  write-Stored k n h body schedule =
      let r : Rec = record { header = stored_header (at_key d k) n h; body = body } in
      elim (Option-cases (d.store n.store k r)) [
        | inl fails ↦ rw fails (record { elsewhere = λ j e. refl; persistent = refl })
        | inr (t, stores) ↦ rw stores (record {
          here = ap body_of (d.fetch-store n.store t k r stores);
          kept = record {
            elsewhere = λ j e. d.fetch-store_other n.store t k j r stores e;
            persistent = refl;
          };
        })
      ]

  store-Stored :
      (k : ℕ) (n : Node d.State) (h : Header) (body : List ℕ)
      → n.persistent ≡ true
      → StoredOr k body n (ctdb_ltdb_store_server (at_key d k) n h body)
  unfolding ctdb_ltdb_store_server
  store-Stored k n h body p =
      rw (keep_record-persistent k n h body p, ctdb_ltdb_store_server) (write-Stored k n h body _)

  was_ok :
      (k : ℕ) (body : List ℕ) (n : Node d.State) (s : Stored (at_key d k))
      → s.ok ≡ true
      → StoredOr k body n s
      → Wrote k body n s.node
  unfolding StoredOr
  was_ok k body n s =
      if-elim (λ (x : Type 0). s.ok ≡ true → x → Wrote k body n s.node) s.ok _ _ (λ _ _ w. w)
        (λ bad good. cc)

  StoredOr-Kept :
      (k : ℕ) (body : List ℕ) (n : Node d.State) (s : Stored (at_key d k))
      → StoredOr k body n s
      → Kept k n s.node
  unfolding StoredOr
  StoredOr-Kept k body n s =
      if-elim (λ (x : Type 0). x → Kept k n s.node) s.ok _ _ (λ _ w. w.kept) (λ _ w. w)

  fetch_missing-Kept :
      (k : ℕ) (n : Node d.State)
      → n.persistent ≡ true
      → Kept k n (fetch_missing (at_key d k) n).node
  unfolding fetch_missing
  fetch_missing-Kept k n p =
      let h = ltdb_initial_header (at_key d k) n in
      if-elim (λ (f : Fetched (at_key d k)). Kept k n f.node) (n.persistent || (h.dmaster == n.pnn))
        _ _ (λ _. StoredOr-Kept k [] n _ (store-Stored k n h [] p))
        (λ _. record { elsewhere = λ j e. refl; persistent = refl })

  fetch-Kept :
      (k : ℕ) (n : Node d.State)
      → n.persistent ≡ true
      → Kept k n (ctdb_ltdb_fetch (at_key d k) n).node
  unfolding ctdb_ltdb_fetch
  fetch-Kept k n p = elim (Option-cases (rec_of (d.fetch n.store k))) [
    | inl gone ↦ rw (gone, ctdb_ltdb_fetch) (fetch_missing-Kept k n p)
    | inr (r, there) ↦
        rw (there, ctdb_ltdb_fetch) (record { elsewhere = λ j e. refl; persistent = refl })
  ]

  after-Kept :
      (k : ℕ) (body : List ℕ) (n m o : Node d.State)
      → Kept k n m
      → Wrote k body m o
      → Wrote k body n o
  after-Kept k body n m o a w = record {
    here = w.here;
    kept = record {
      elsewhere = λ j e. w.kept.elsewhere j e ∙ a.elsewhere j e;
      persistent = w.kept.persistent ∙ a.persistent;
    };
  }

  abbrev WroteOr : ℕ → Rec → Node d.State → Option (Node d.State) → Type 0
  WroteOr k r n none = Unit
  WroteOr k r n (some m) = Wrote k r.body n m

  write_one-WroteOr :
      (k : ℕ) (r : Rec) (n : Node d.State)
      → n.persistent ≡ true
      → WroteOr k r n (write_one d false k r n)
  unfolding write_one
  write_one-WroteOr k r n p =
      let old = ctdb_ltdb_fetch (at_key d k) n in
      let s = ctdb_ltdb_store_server (at_key d k) old.node r.header r.body in
      let a = fetch-Kept k n p in
      if-elim (WroteOr k r n) (leb r.header.rsn old.header.rsn && not (same_bytes old.body r.body))
        _ _ (λ _. tt)
        (λ _.
          if-elim (WroteOr k r n) (not s.ok) _ _ (λ _. tt)
            (λ ok. after-Kept k r.body n old.node s.node a (
              was_ok k r.body old.node s (was_true s.ok ok)
                (store-Stored k old.node r.header r.body (a.persistent ∙ p)))))

  abbrev pub Written : List (ℕ × Value) → Node d.State → Node d.State → Type 0
  Written rs n m =
      (k : ℕ) → body_of (d.fetch m.store k) ≡ latest (values_at k rs) (body_of (d.fetch n.store k))

  abbrev pub WrittenOr : List (ℕ × Value) → Node d.State → Option (Node d.State) → Type 0
  WrittenOr rs n none = Unit
  WrittenOr rs n (some m) = Written rs n m

  latest-step :
      (k j : ℕ) (r : Rec) (vs : List Value) (n m : Node d.State)
      → Wrote j r.body n m
      → latest vs (body_of (d.fetch m.store k))
        ≡ latest (if j == k then full r ∷ vs else vs) (body_of (d.fetch n.store k))
  latest-step k j r vs n m w =
      if-elim
        (λ us. latest vs (body_of (d.fetch m.store k)) ≡ latest us (body_of (d.fetch n.store k)))
        (j == k) (full r ∷ vs) vs
        (λ same.
          let e : j ≡ k = ground (arith, same) in
          ap (latest vs) (ap (λ i. body_of (d.fetch m.store i)) (sym e) ∙ w.here))
        (λ other.
          ap (λ v. latest vs (body_of v)) (w.kept.elsewhere k (λ e. ground (arith, other, e))))

  next-WrittenOr :
      (j : ℕ) (r : Rec) (rs : List (ℕ × Value)) (n : Node d.State) (o : Option (Node d.State))
      → ((m : Node d.State) → m.persistent ≡ true → WrittenOr rs m (write_all d false rs m))
      → n.persistent ≡ true
      → WroteOr j r n o
      → WrittenOr ((j, full r) ∷ rs) n (elim o [ none ↦ none | some m ↦ write_all d false rs m ])
  unfolding values_at
  next-WrittenOr j r rs n none ih p w = tt
  next-WrittenOr j r rs n (some m) ih p w =
      both_written (write_all d false rs m) (ih m (w.kept.persistent ∙ p))
    where
      both_written :
          (o : Option (Node d.State)) → WrittenOr rs m o → WrittenOr ((j, full r) ∷ rs) n o
      both_written none h = tt
      both_written (some z) h = λ k. h k ∙ latest-step k j r (values_at k rs) n m w

  pub write_all-WrittenOr :
      (rs : List (ℕ × Value)) (n : Node d.State)
      → n.persistent ≡ true
      → WrittenOr rs n (write_all d false rs n)
  unfolding write_all values_at
  write_all-WrittenOr [] n p = λ k. refl
  write_all-WrittenOr ((j, short bytes) ∷ rs) n p = tt
  write_all-WrittenOr ((j, full r) ∷ rs) n p =
      next-WrittenOr j r rs n (write_one d false j r n) (λ m q. write_all-WrittenOr rs m q) p
        (write_one-WroteOr j r n p)
