-- ===== src/Dmaster/Transfer.antt =====
-- server/ctdb_call.c: the migration of a record from its dmaster, by way of the lmaster, to the node
-- that asks for it.
use ctdb.Base.{
  ◌+◌, ◌≡◌, refl, ◌∙◌, ap, arith, true, false, ◌&&◌, ◌||◌, not, Option, none, some, ◌∷◌, ◌==◌, leb,
}
use ctdb.Dmaster.Header.{Rec, Packet, ReqCall, ReqDmaster, req_dmaster, ro_flags}
use ctdb.Dmaster.Node.{Env, Lock, note, hops, send, lock, unlock}
use ctdb.Dmaster.Store.{lmaster, ctdb_ltdb_store_server, Fetched, ctdb_ltdb_fetch}
use ctdb.Dmaster.Call.{
  N, hop_count_bucket, fetch_with_header_func, mark_migrated, ctdb_call_send_dmaster,
}
use ctdb.Dmaster.Request.{
  is_pinned_down, clear_revoked, count_hops, migrate_or_answer, serve_call, locked_call,
  ctdb_request_call,
}
use ctdb.Dmaster.Writes.{owns, store-Stores}
use ctdb.Dmaster.Reliable.{Reliable, store-ok, if-true, if-false}

module _ (e : Env) where
  -- The request with which the dmaster gives the record up.
  abbrev pub handed : N e → ReqCall → Rec → ReqDmaster
  handed n c r = record {
    destnode = lmaster e n;
    srcnode = n.pnn;
    reqid = c.reqid;
    key = e.key;
    rsn = (mark_migrated e r.header r.body).rsn;
    dmaster = c.srcnode;
    record_flags = (mark_migrated e r.header r.body).flags;
    body = r.body;
  }

  pub record GaveUp (n m : N e) (p : Packet) : Type 0 where
    pub sent : m.sent ≡ p ∷ n.sent
    pub gone : owns e m ≡ false
    pub locks : m.locks ≡ n.locks

  pub send-owns : (p : Packet) (n : N e) → owns e (send p n) ≡ owns e n
  unfolding send owns
  send-owns p n = refl

  send_dmaster-handed :
      (n : N e) (c : ReqCall) (r : Rec)
      → Reliable e
      → n.transport ≡ true
      → (lmaster e n == n.pnn) ≡ false
      → (c.srcnode == n.pnn) ≡ false
      → (m : N e) × (ctdb_call_send_dmaster e n c r.header r.body ≡ some m)
        × GaveUp n m (req_dmaster (handed n c r))
  unfolding ctdb_call_send_dmaster send
  send_dmaster-handed n c r sure t away other =
      let h = record (mark_migrated e r.header r.body) { dmaster = c.srcnode } in
      let s = ctdb_ltdb_store_server e n h r.body in
      let w = store-Stores e n h r.body in
      let ok = store-ok e n h r.body sure in
      (
        send (req_dmaster (handed n c r)) s.node,
        if-false (not n.transport) _ _ (ap not t)
            ∙ if-false (lmaster e n == n.pnn) _ _ away
            ∙ if-true s.ok _ _ ok,
        record {
          sent = ap (◌∷◌ (req_dmaster (handed n c r))) w.same.sent;
          gone = send-owns (req_dmaster (handed n c r)) s.node ∙ ground (arith, w.owned, ok, other);
          locks = w.same.locks;
        },
      )

  -- What the request call does up to the hand-over, for a record with no read-only copies.
  abbrev asked_node : N e → ReqCall → N e
  asked_node n c = note (hops c.hopcount (hop_count_bucket c.hopcount)) (lock n)

  abbrev asked_record : N e → ReqCall → Rec → Fetched e
  asked_record n c r = record { node = asked_node n c; header = r.header; body = r.body }

  serve_call-answers :
      (n : N e) (c : ReqCall) (r : Rec)
      → n.sticky ≡ false
      → ro_flags r.header.flags ≡ false
      → (r.header.dmaster == n.pnn) ≡ true
      → c.want_readonly ≡ false
      → serve_call e (record { node = lock n; header = r.header; body = r.body }) c
        ≡ migrate_or_answer e (asked_record n c r) c
  unfolding serve_call count_hops lock note
  serve_call-answers n c r sticky ro mine want =
      let has = r.header.flags.ro_have_delegations || r.header.flags.ro_have_readonly in
      if-false r.header.flags.ro_revoking_readonly _ _ (ground (arith, ro))
      ∙ if-false (not (r.header.dmaster == n.pnn) && not r.header.flags.ro_have_delegations) _ _
          (ground (arith, mine))
      ∙ if-false (not c.want_readonly && has) _ _ (ground (arith, ro))
      ∙ if-false (c.want_readonly && (c.callid == fetch_with_header_func)) _ _
          (ground (arith, want))
      ∙ ap
          (λ (k : N e).
            migrate_or_answer e (record { node = k; header = r.header; body = r.body }) c)
          (if-false (n.sticky && leb n.hopcount_make_sticky c.hopcount) _ _
            (ground (arith, sticky)))

  clear_revoked-kept :
      (f : Fetched e) → ro_flags f.header.flags ≡ false → clear_revoked e f ≡ some f
  unfolding clear_revoked
  clear_revoked-kept f ro = if-false f.header.flags.ro_revoke_complete _ _ (ground (arith, ro))

  locked_call-serves :
      (f : Fetched e) (c : ReqCall)
      → ro_flags f.header.flags ≡ false
      → locked_call e f c
        ≡ serve_call e f (record c { want_readonly = c.want_readonly && f.node.readonly })
  unfolding locked_call
  locked_call-serves f c ro =
      ap
        (λ (o : Option (Fetched e)). (elim o as (λ x. Option (N e)) [
          | none ↦ none
          | some g ↦
              serve_call e g (record c { want_readonly = c.want_readonly && g.node.readonly })
        ]))
        (clear_revoked-kept f ro)

  pub fetch-stored :
      (n : N e) (r : Rec)
      → e.fetch n.store ≡ some r
      → ctdb_ltdb_fetch e (lock n) ≡ record { node = lock n; header = r.header; body = r.body }
  unfolding ctdb_ltdb_fetch lock
  fetch-stored n r q = rw (q, ctdb_ltdb_fetch) refl

  -- What the dmaster needs to answer a request: no transport failure, no pindown, no read-only copies.
  pub record Answers (n : N e) (c : ReqCall) (r : Rec) : Type 0 where
    pub transport : n.transport ≡ true
    pub attached : n.attached ≡ true
    pub sticky : n.sticky ≡ false
    pub stored : e.fetch n.store ≡ some r
    pub no_copies : ro_flags r.header.flags ≡ false
    pub dmaster : (r.header.dmaster == n.pnn) ≡ true
    pub elsewhere : (c.srcnode == n.pnn) ≡ false
    pub want : c.want_readonly ≡ false

  abbrev cleared : N e → ReqCall → ReqCall
  cleared n c = record c { want_readonly = c.want_readonly && n.readonly }

  request_call-Answers :
      (n : N e) (c : ReqCall) (r : Rec)
      → Answers n c r
      → ctdb_request_call e n Lock.got c ≡ migrate_or_answer e (asked_record n c r) (cleared n c)
  unfolding ctdb_request_call lock
  request_call-Answers n c r h =
      let want = h.want in
      let sticky = h.sticky in
      if-false (not n.transport) _ _ (ap not h.transport)
      ∙ if-false (not n.attached) _ _ (ap not h.attached)
      ∙ if-false (n.sticky && is_pinned_down e n) _ _ (ground (arith, sticky))
      ∙ ap (λ (k : Fetched e). locked_call e k c) (fetch-stored n r h.stored)
      ∙ locked_call-serves (record { node = lock n; header = r.header; body = r.body }) c
          h.no_copies
      ∙ serve_call-answers n (cleared n c) r h.sticky h.no_copies h.dmaster (ground (arith, want))

  -- A dmaster that answers, is not the lmaster and is in no transaction gives the record up, if no write
  -- fails: it sends the record to the lmaster in the name of the node that asks, and nothing else, is no
  -- longer the dmaster, and releases the lock.
  pub request_call-hands_over :
      (n : N e) (c : ReqCall) (r : Rec)
      → Reliable e
      → Answers n c r
      → n.transaction ≡ false
      → (lmaster e n == n.pnn) ≡ false
      → (m : N e) × (ctdb_request_call e n Lock.got c ≡ some m)
        × GaveUp n m (req_dmaster (handed n c r))
  unfolding migrate_or_answer note lock unlock owns
  request_call-hands_over n c r sure h trans away =
      let (m, q, g) =
        send_dmaster-handed (asked_node n c) (cleared n c) r sure h.transport away h.elsewhere in
      let locks = g.locks in
      let other = h.elsewhere in
      (
        unlock m,
        request_call-Answers n c r h
            ∙ if-true (not (c.srcnode == n.pnn)) _ _ (ground (arith, other))
            ∙ if-false n.transaction _ _ trans
            ∙ ap
                (λ (o : Option (N e)). (elim o as (λ x. Option (N e)) [
                  | none ↦ none
                  | some k ↦ some (unlock k)
                ]))
                q,
        record { sent = g.sent; gone = g.gone; locks = omega (arith, locks) },
      )

  -- While a transaction is active on the database, a request of another node that the dmaster would answer
  -- is dropped: nothing is sent, nothing is kept for later, and the lock on the record is not released.
  pub request_call-keeps_lock :
      (n : N e) (c : ReqCall) (r : Rec)
      → Answers n c r
      → n.transaction ≡ true
      → (m : N e) × (ctdb_request_call e n Lock.got c ≡ some m)
        × (m.locks ≡ n.locks + 1)
        × (m.sent ≡ n.sent)
        × (m.waiting ≡ n.waiting)
        × (m.deferred ≡ n.deferred)
  unfolding migrate_or_answer note lock
  request_call-keeps_lock n c r h trans =
      let other = h.elsewhere in
      (
        asked_node n c,
        request_call-Answers n c r h
            ∙ if-true (not (c.srcnode == n.pnn)) _ _ (ground (arith, other))
            ∙ if-true n.transaction _ _ trans,
        refl,
        refl,
        refl,
        refl,
      )
