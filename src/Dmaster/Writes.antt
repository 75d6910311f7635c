-- ===== src/Dmaster/Writes.antt =====
-- What reading and writing the record (server/ctdb_ltdb_server.c) does to the ownership of it.
use ctdb.Base.{
  ℕ, ◌≡◌, refl, ap, inl, inr, arith, Bool, true, ◌||◌, none, some, List, [], ◌==◌, if◌then◌else◌,
  Option-cases, Bool-cases,
}
use ctdb.Dmaster.Header.{Header}
use ctdb.Dmaster.Node.{Env, note}
use ctdb.Dmaster.Store.{
  lmaster, drop, keep, keep_and_schedule, keep_record, stored_header, dropped_header, Stored,
  ctdb_ltdb_store_server, ltdb_initial_header, Fetched, fetch_missing, ctdb_ltdb_fetch, write,
  remove, schedules,
}
use ctdb.Dmaster.Call.{N}

module _ (e : Env) where
  -- The node is the dmaster of the record; a missing record is its lmaster's.
  unfoldable pub owns : N e → Bool
  owns n = elim (e.fetch n.store) [
    | none ↦ lmaster e n == n.pnn
    | some r ↦ r.header.dmaster == n.pnn
  ]

  -- Everything of the node but the stored record and the notes.
  pub record Same (n m : N e) : Type 0 where
    pub pnn : m.pnn ≡ n.pnn
    pub vnn_map : m.vnn_map ≡ n.vnn_map
    pub transport : m.transport ≡ n.transport
    pub attached : m.attached ≡ n.attached
    pub persistent : m.persistent ≡ n.persistent
    pub sticky : m.sticky ≡ n.sticky
    pub readonly : m.readonly ≡ n.readonly
    pub transaction : m.transaction ≡ n.transaction
    pub hopcount_make_sticky : m.hopcount_make_sticky ≡ n.hopcount_make_sticky
    pub locks : m.locks ≡ n.locks
    pub recovery : m.recovery ≡ n.recovery
    pub sticky_record : m.sticky_record ≡ n.sticky_record
    pub tracking : m.tracking ≡ n.tracking
    pub find_call : m.find_call ≡ n.find_call
    pub sent : m.sent ≡ n.sent
    pub waiting : m.waiting ≡ n.waiting
    pub deferred : m.deferred ≡ n.deferred

  stored-Same : (n m : N e) → m ≡ record n { store = m.store; notes = m.notes } → Same n m
  stored-Same n m q = record {
    pnn = ap (λ (x : N e). x.pnn) q;
    vnn_map = ap (λ (x : N e). x.vnn_map) q;
    transport = ap (λ (x : N e). x.transport) q;
    attached = ap (λ (x : N e). x.attached) q;
    persistent = ap (λ (x : N e). x.persistent) q;
    sticky = ap (λ (x : N e). x.sticky) q;
    readonly = ap (λ (x : N e). x.readonly) q;
    transaction = ap (λ (x : N e). x.transaction) q;
    hopcount_make_sticky = ap (λ (x : N e). x.hopcount_make_sticky) q;
    locks = ap (λ (x : N e). x.locks) q;
    recovery = ap (λ (x : N e). x.recovery) q;
    sticky_record = ap (λ (x : N e). x.sticky_record) q;
    tracking = ap (λ (x : N e). x.tracking) q;
    find_call = ap (λ (x : N e). x.find_call) q;
    sent = ap (λ (x : N e). x.sent) q;
    waiting = ap (λ (x : N e). x.waiting) q;
    deferred = ap (λ (x : N e). x.deferred) q;
  }

  -- What a write leaves as it was, and who has the record after it.
  pub record Stores (n : N e) (h : Header) (s : Stored e) : Type 0 where
    pub same : Same n s.node
    pub dmaster : s.header.dmaster ≡ h.dmaster
    pub owned : owns s.node ≡ (if s.ok then h.dmaster == n.pnn else owns n)

  drop-dmaster :
      (n : N e) (h : Header) (body : List ℕ)
      → keep_record e n h body ≡ drop
      → (lmaster e n == n.pnn) ≡ (h.dmaster == n.pnn)
  unfolding keep_record
  drop-dmaster n h body q = ground arith

  write-Stores : (n : N e) (h : Header) (body : List ℕ) (b : Bool) → Stores n h (write e n h body b)
  unfolding write owns stored_header note
  write-Stores n h body b =
      elim (Option-cases (e.store n.store (record { header = stored_header e n h; body = body }))) [
        | inl q ↦ record {
          same = stored-Same n _ (ground arith);
          dmaster = ground arith;
          owned = ground arith;
        }
        | inr (t, q) ↦ record {
          same = stored-Same n _ (ground arith);
          dmaster = ground arith;
          owned = ground (
            arith,
            e.fetch-store n.store t (record { header = stored_header e n h; body = body }) q,
          );
        }
      ]

  remove-Stores :
      (n : N e) (h : Header) (body : List ℕ)
      → (lmaster e n == n.pnn) ≡ (h.dmaster == n.pnn)
      → Stores n h (remove e n h)
  unfolding remove owns dropped_header
  remove-Stores n h body same = elim (Option-cases (e.delete n.store)) [
    | inl q ↦ record {
      same = stored-Same n _ (ground arith);
      dmaster = ground arith;
      owned = ground arith;
    }
    | inr (t, q) ↦ record {
      same = stored-Same n _ (ground arith);
      dmaster = ground arith;
      owned = ground (arith, e.fetch-delete n.store t q);
    }
  ]

  -- A write changes nothing but the stored record and the notes of the node, keeps the dmaster of the header
  -- that the caller passed, and leaves the node as the dmaster exactly if it fails where the node was, or
  -- succeeds with a header that names the node; so too where an empty record is deleted instead.
  pub store-Stores :
      (n : N e) (h : Header) (body : List ℕ) → Stores n h (ctdb_ltdb_store_server e n h body)
  unfolding ctdb_ltdb_store_server
  store-Stores n h body =
      elim (keep_record e n h body)
          as (λ k.
            keep_record e n h body ≡ k
            → Stores n h (elim k [
              | drop ↦ remove e n h
              | keep ↦ write e n h body (schedules e n h body keep)
              | keep_and_schedule ↦ write e n h body true
            ])) [
              | drop ↦ λ q. remove-Stores n h body (drop-dmaster n h body q)
              | keep ↦ λ q. write-Stores n h body (schedules e n h body keep)
              | keep_and_schedule ↦ λ q. write-Stores n h body true
            ]
        refl

  pub record Fetches (n : N e) (f : Fetched e) : Type 0 where
    pub same : Same n f.node
    pub owned : owns f.node ≡ owns n
    pub dmaster : (f.header.dmaster == n.pnn) ≡ owns n

  pub Same-refl : (n : N e) → Same n n
  Same-refl n = stored-Same n n refl

  missing-Fetches : (n : N e) → e.fetch n.store ≡ none → Fetches n (fetch_missing e n)
  unfolding fetch_missing owns ltdb_initial_header
  missing-Fetches n q =
      let s = store-Stores n (ltdb_initial_header e n) [] in
      let t = Same-refl n in
      elim (Bool-cases (n.persistent || (lmaster e n == n.pnn))) [
        | inl y ↦ rw y (record {
          same = s.same;
          owned = ground (arith, s.owned, q);
          dmaster = ground (arith, s.dmaster, q);
        })
        | inr y ↦ rw y (record { same = t; owned = refl; dmaster = rw (q, owns) refl })
      ]

  pub fetch-Fetches : (n : N e) → Fetches n (ctdb_ltdb_fetch e n)
  unfolding ctdb_ltdb_fetch owns
  fetch-Fetches n = elim (Option-cases (e.fetch n.store)) [
    | inl q ↦ rw (q, ctdb_ltdb_fetch) (missing-Fetches n q)
    | inr (r, q) ↦
        rw (q, ctdb_ltdb_fetch)
          (record { same = Same-refl n; owned = refl; dmaster = rw (q, owns) refl })
  ]
