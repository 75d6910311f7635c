-- ===== src/Dmaster/Released.antt =====
-- server/ctdb_call.c: `ctdb_request_call` and `ctdb_input_pkt` release the lock on the record.
use ctdb.Base.{
  ℕ, ◌+◌, ◌-◌, ◌≡◌, refl, subst, ◌∙◌, ap, inl, inr, Bool, true, false, ◌&&◌, ◌||◌, not, Option,
  none, some, ◌∷◌, ◌==◌, if◌then◌else◌, Option-cases, Bool-cases, leb,
}
use ctdb.Dmaster.Header.{
  Header, u64, Packet, ReqCall, ReplyError, req_call, req_dmaster, reply_dmaster, reply_call,
  reply_error,
}
use ctdb.Dmaster.Node.{Env, Lock, note, send, lock, unlock}
use ctdb.Dmaster.Store.{ctdb_ltdb_store_server, Fetched, ctdb_ltdb_fetch}
use ctdb.Dmaster.Call.{
  N, fetch_with_header_func, ctdb_send_error, ctdb_call_send_redirect, ctdb_make_record_sticky,
  ctdb_reply_error,
}
use ctdb.Dmaster.Request.{
  is_pinned_down, defer, clear_ro, clear_revoked, revoke, send_delegation, delegate, count_hops,
  answer_locally, migrate_or_answer, serve_call, locked_call, ctdb_request_call,
}
use ctdb.Dmaster.Writes.{store-Stores, fetch-Fetches}
use ctdb.Dmaster.Copies.{reply_call-Keeps}
use ctdb.Dmaster.Cluster.{ctdb_input_pkt}
use ctdb.Dmaster.Locks.{
  Locks, if-Locks, store-locks, call_local-locks, send_dmaster-Locks, unlock-Locks, fetch-locks,
  error-locks, lock-released, request_dmaster-Locks, reply_dmaster-Locks,
}

module _ (e : Env) where
  revoke-Locks : (f : Fetched e) (c : ReqCall) → Locks e (f.node.locks - 1) (revoke e f c)
  unfolding revoke defer note unlock
  revoke-Locks f c =
      let h : Header = record f.header {
        flags = record f.header.flags { ro_revoking_readonly = true };
      } in
      if-Locks e _ (ctdb_ltdb_store_server e f.node h f.body).ok _ _
        (λ y. ap (λ (k : ℕ). k - 1) (store-locks e f.node h f.body)) (λ y. tt)

  delegate-Locks : (f : Fetched e) (c : ReqCall) → Locks e (f.node.locks - 1) (delegate e f c)
  unfolding delegate send_delegation note send unlock
  delegate-Locks f c =
      let h : Header = record f.header {
        rsn = u64 (f.header.rsn + 3);
        flags = record f.header.flags { ro_have_delegations = true };
      } in
      if-Locks e _ f.header.flags.ro_have_delegations _ _ (λ y. refl)
        (λ y.
          if-Locks e _ (ctdb_ltdb_store_server e f.node h f.body).ok _ _
            (λ k. ap (λ (j : ℕ). j - 1) (store-locks e f.node h f.body)) (λ k. tt))

  count_hops-same :
      (n : N e) (c : ReqCall)
      → ((count_hops e n c).locks ≡ n.locks) × ((count_hops e n c).transaction ≡ n.transaction)
  unfolding count_hops ctdb_make_record_sticky note
  count_hops-same n c = elim (Bool-cases (n.sticky && leb n.hopcount_make_sticky c.hopcount)) [
    | inl y ↦ elim (Option-cases n.sticky_record) [
      | inl q ↦ rw (y, q, ctdb_make_record_sticky) (refl, refl)
      | inr (p, q) ↦ rw (y, q, ctdb_make_record_sticky) (refl, refl)
    ]
    | inr y ↦ rw y (refl, refl)
  ]

  migrate_or_answer-Locks :
      (f : Fetched e) (c : ReqCall)
      → f.node.transaction ≡ false
      → Locks e (f.node.locks - 1) (migrate_or_answer e f c)
  unfolding migrate_or_answer answer_locally send unlock
  migrate_or_answer-Locks f c trans =
      if-Locks e _ (not (c.srcnode == f.node.pnn)) _ _
        (λ other.
          if-Locks e _ f.node.transaction _ _ (λ t. cc)
            (λ t. unlock-Locks e _ _ (send_dmaster-Locks e f.node c f.header f.body)))
        (λ me. ap (λ (k : ℕ). k - 1) (call_local-locks e f.node c.callid f.header f.body))

  serve_call-Locks :
      (f : Fetched e) (c : ReqCall)
      → f.node.transaction ≡ false
      → Locks e (f.node.locks - 1) (serve_call e f c)
  unfolding serve_call defer unlock ctdb_call_send_redirect send
  serve_call-Locks f c trans =
      let (locks, keeps) = count_hops-same f.node c in
      let g : Fetched e = record f { node = count_hops e f.node c } in
      if-Locks e _ f.header.flags.ro_revoking_readonly _ _ (λ r. refl)
        (λ r.
          if-Locks e _
            (not (f.header.dmaster == f.node.pnn) && not f.header.flags.ro_have_delegations) _ _
            (λ a. refl)
            (λ a.
              if-Locks e _
                (not c.want_readonly
                  && (f.header.flags.ro_have_delegations || f.header.flags.ro_have_readonly))
                _ _ (λ b. revoke-Locks f c)
                (λ b.
                  if-Locks e _ (c.want_readonly && (c.callid == fetch_with_header_func)) _ _
                    (λ d. delegate-Locks f c)
                    (λ d.
                      subst (λ (k : ℕ). Locks e (k - 1) (migrate_or_answer e g c)) locks
                        (migrate_or_answer-Locks g c (keeps ∙ trans))))))

  -- Clearing the marks of a revoke changes no lock and no transaction.
  abbrev Unchanged : N e → Option (Fetched e) → Type 0
  Unchanged n none = Unit
  Unchanged n (some g) = (g.node.locks ≡ n.locks) × (g.node.transaction ≡ n.transaction)

  if-Unchanged :
      (n : N e) (b : Bool) (x y : Option (Fetched e))
      → Unchanged n x
      → Unchanged n y
      → Unchanged n (if b then x else y)
  if-Unchanged n true x y f g = f
  if-Unchanged n false x y f g = g

  clear_revoked-Unchanged : (f : Fetched e) → Unchanged f.node (clear_revoked e f)
  unfolding clear_revoked note
  clear_revoked-Unchanged f =
      let h = clear_ro e f.header in
      let s = store-Stores e f.node h f.body in
      if-Unchanged f.node f.header.flags.ro_revoke_complete _ _
        (if-Unchanged f.node (ctdb_ltdb_store_server e f.node h f.body).ok _ _
          (s.same.locks, s.same.transaction) tt)
        (refl, refl)

  fetch-transaction : (n : N e) → (ctdb_ltdb_fetch e (lock n)).node.transaction ≡ n.transaction
  unfolding lock
  fetch-transaction n = let f = fetch-Fetches e (lock n) in f.same.transaction

  locked_call-Locks :
      (f : Fetched e) (c : ReqCall)
      → f.node.transaction ≡ false
      → Locks e (f.node.locks - 1) (locked_call e f c)
  unfolding locked_call
  locked_call-Locks f c trans = elim (Option-cases (clear_revoked e f)) [
    | inl q ↦ rw (q, locked_call) tt
    | inr (g, q) ↦
        let (locks, keeps) = subst (Unchanged f.node) q (clear_revoked-Unchanged f) in
        let d : ReqCall = record c { want_readonly = c.want_readonly && g.node.readonly } in
        rw (q, locked_call)
          (subst (λ (k : ℕ). Locks e (k - 1) (serve_call e g d)) locks
            (serve_call-Locks g d (keeps ∙ trans)))
  ]

  request_call-Locks :
      (n : N e) (l : Lock) (c : ReqCall)
      → n.transaction ≡ false
      → Locks e n.locks (ctdb_request_call e n l c)
  unfolding ctdb_request_call defer
  request_call-Locks n l c trans =
      if-Locks e _ (not n.transport) _ _ (λ t. refl)
        (λ t.
          if-Locks e _ (not n.attached) _ _ (λ a. error-locks e c.srcnode c.reqid n)
            (λ a. if-Locks e _ (n.sticky && is_pinned_down e n) _ _ (λ p. refl) (λ p. locked l)))
    where
      locked :
          (l : Lock)
          → Locks e n.locks (elim l [
            | Lock.failed ↦ some (ctdb_send_error e c.srcnode c.reqid n)
            | Lock.contended ↦ some (record n { waiting = req_call c ∷ n.waiting })
            | Lock.got ↦ locked_call e (ctdb_ltdb_fetch e (lock n)) c
          ])
      locked Lock.failed = error-locks e c.srcnode c.reqid n
      locked Lock.contended = refl
      locked Lock.got =
          lock-released e _ n _ (fetch-locks e n)
            (locked_call-Locks (ctdb_ltdb_fetch e (lock n)) c (fetch-transaction n ∙ trans))

  reply_error-Locks : (n : N e) (c : ReplyError) → (ctdb_reply_error e n c).locks ≡ n.locks
  unfolding ctdb_reply_error
  reply_error-Locks n c = elim (Option-cases (n.find_call c.reqid)) [
    | inl q ↦ rw (q, ctdb_reply_error) refl
    | inr (s, q) ↦ elim (Bool-cases (c.reqid == s.reqid)) [
      | inl y ↦ rw (q, ctdb_reply_error, y) refl
      | inr y ↦ rw (q, ctdb_reply_error, y) refl
    ]
  ]

  -- A node with no transaction on the database that handles a packet of the protocol has as many locks on records afterwards as before, whatever the packet, the outcome of the
  -- attempt to lock, and the record.
  pub input_pkt-Locks :
      (n m : N e) (l : Lock) (p : Packet)
      → n.transaction ≡ false
      → ctdb_input_pkt e n l p ≡ some m
      → m.locks ≡ n.locks
  unfolding ctdb_input_pkt
  input_pkt-Locks n m l (req_call c) t q = subst (Locks e n.locks) q (request_call-Locks n l c t)
  input_pkt-Locks n m l (req_dmaster c) t q =
      subst (Locks e n.locks) q (request_dmaster-Locks e n l c)
  input_pkt-Locks n m l (reply_dmaster c) t q =
      subst (Locks e n.locks) q (reply_dmaster-Locks e n l c)
  input_pkt-Locks n m l (reply_call c) t q = subst (Locks e n.locks) q (reply_call-Keeps e n l c).0
  input_pkt-Locks n m l (reply_error c) t q = subst (Locks e n.locks) q (reply_error-Locks n c)
