-- ===== src/Dmaster/Arrival.antt =====
-- server/ctdb_call.c: a record that its dmaster has given up arrives, by way of the lmaster, at the
-- node that asked for it.
use ctdb.Base.{
  ℕ, ◌≡◌, refl, ◌∙◌, ap, inl, inr, arith, true, false, ◌&&◌, ◌||◌, not, Option, none, some, List,
  ◌∷◌, ◌==◌, Option-cases, Bool-cases,
}
use ctdb.Dmaster.Header.{Header, Rec, ReqCall, ReqDmaster, ReplyDmaster, req_dmaster, reply_dmaster}
use ctdb.Dmaster.Node.{Env, Lock, CallState, send, lock, unlock}
use ctdb.Dmaster.Store.{lmaster, ctdb_ltdb_store_server, Fetched}
use ctdb.Dmaster.Call.{
  N, new_body, ctdb_call_local, finish_call, run_waiting_call, ctdb_send_dmaster_reply,
  ctdb_become_dmaster, accept_dmaster, ctdb_request_dmaster, ctdb_reply_dmaster, owned_header,
}
use ctdb.Dmaster.Request.{ctdb_request_call}
use ctdb.Dmaster.Data.{Has, run_waiting_call-data, pinned_down-data, store-data}
use ctdb.Dmaster.Writes.{owns, store-Stores}
use ctdb.Dmaster.Ownership.{pinned_down, pinned_down-owner}
use ctdb.Dmaster.Transfer.{GaveUp, fetch-stored, send-owns}
use ctdb.Dmaster.Reliable.{Reliable, store-ok, if-true, if-false}

module _ (e : Env) where
  -- The reply with which the lmaster passes the record on.
  passed_on : N e → Header → ReqDmaster → ReplyDmaster
  passed_on n h d = record {
    destnode = d.dmaster;
    reqid = d.reqid;
    key = e.key;
    rsn = h.rsn;
    record_flags = h.flags;
    body = d.body;
  }

  -- The lmaster can take the request: it has the sender on record as the dmaster.
  pub record Accepts (n : N e) (d : ReqDmaster) (r : Rec) : Type 0 where
    pub transport : n.transport ≡ true
    pub attached : n.attached ≡ true
    pub is_lmaster : (lmaster e n == n.pnn) ≡ true
    pub stored : e.fetch n.store ≡ some r
    pub sender : (r.header.dmaster == d.srcnode) ≡ true
    pub elsewhere : (d.dmaster == n.pnn) ≡ false

  dmaster_reply-passed_on :
      (n : N e) (h : Header) (d : ReqDmaster)
      → Reliable e
      → n.transport ≡ true
      → (lmaster e n == n.pnn) ≡ true
      → (d.dmaster == n.pnn) ≡ false
      → (m : N e) × (p : ReplyDmaster) × (ctdb_send_dmaster_reply e n h d.body d.dmaster d.reqid
          ≡ some m)
        × GaveUp e n m (reply_dmaster p)
        × (p.destnode ≡ d.dmaster)
        × (p.reqid ≡ d.reqid)
        × (p.body ≡ d.body)
  unfolding ctdb_send_dmaster_reply passed_on send
  dmaster_reply-passed_on n h d sure t here other =
      let s = ctdb_ltdb_store_server e n (record h { dmaster = d.dmaster }) d.body in
      let w = store-Stores e n (record h { dmaster = d.dmaster }) d.body in
      let ok = store-ok e n (record h { dmaster = d.dmaster }) d.body sure in
      let p = passed_on n s.header d in
      (
        send (reply_dmaster p) s.node,
        p,
        if-false (not (n.pnn == lmaster e n)) _ _ (ground (arith, here))
            ∙ if-true (s.ok && n.transport) _ _ (ground (arith, ok, t)),
        record {
          sent = ap (◌∷◌ (reply_dmaster p)) w.same.sent;
          gone = send-owns e (reply_dmaster p) s.node ∙ ground (arith, w.owned, ok, other);
          locks = w.same.locks;
        },
        refl,
        refl,
        refl,
      )

  -- The lmaster passes the record on to the node that it was given up for.
  pub request_dmaster-passes_on :
      (n : N e) (d : ReqDmaster) (r : Rec)
      → Reliable e
      → Accepts n d r
      → (m : N e) × (p : ReplyDmaster) × (ctdb_request_dmaster e n Lock.got d ≡ some m)
        × GaveUp e n m (reply_dmaster p)
        × (p.destnode ≡ d.dmaster)
        × (p.reqid ≡ d.reqid)
        × (p.body ≡ d.body)
  unfolding ctdb_request_dmaster accept_dmaster lock unlock owns
  request_dmaster-passes_on n d r sure a =
      let h : Header = record { rsn = d.rsn; dmaster = r.header.dmaster; flags = d.record_flags } in
      let (m, p, q, g, to, id, body) =
        dmaster_reply-passed_on (lock n) h d sure a.transport a.is_lmaster a.elsewhere in
      let locks = g.locks in
      let sender = a.sender in
      let here = a.is_lmaster in
      (
        unlock m,
        p,
        if-false (not n.attached) _ _ (ap not a.attached)
            ∙ if-false (not (lmaster e n == n.pnn)) _ _ (ground (arith, here))
            ∙ ap (λ (f : Fetched e). accept_dmaster e f d) (fetch-stored e n r a.stored)
            ∙ if-false
                (not (r.header.dmaster == d.srcnode)
                  && (not (r.header.rsn == 0) || not (r.header.dmaster == n.pnn)))
                _ _ (ground (arith, sender))
            ∙ if-false (d.dmaster == n.pnn) _ _ a.elsewhere
            ∙ ap
                (λ (o : Option (N e)). (elim o as (λ x. Option (N e)) [
                  | none ↦ none
                  | some k ↦ some (unlock k)
                ]))
                q,
        record { sent = g.sent; gone = g.gone; locks = omega (arith, locks) },
        to,
        id,
        body,
      )

  own-owns :
      (n : N e) (h : Header) (body : List ℕ)
      → (h.dmaster == n.pnn) ≡ owns e n
      → owns e (ctdb_ltdb_store_server e n h body).node ≡ owns e n
  own-owns n h body own =
      let s = store-Stores e n h body in
      elim (Bool-cases (ctdb_ltdb_store_server e n h body).ok) [
        | inl y ↦ ground (arith, s.owned, y)
        | inr y ↦ ground (arith, s.owned, y)
      ]

  call_local-owns :
      (n : N e) (callid : ℕ) (h : Header) (body : List ℕ)
      → (h.dmaster == n.pnn) ≡ owns e n
      → owns e (ctdb_call_local e n callid h body).node ≡ owns e n
  unfolding ctdb_call_local
  call_local-owns n callid h body own = elim (Option-cases (e.call_fn callid)) [
    | inl q ↦ rw (q, ctdb_call_local) refl
    | inr (fn, q) ↦ elim (Option-cases (fn h body)) [
      | inl k ↦ rw (q, ctdb_call_local, k) refl
      | inr (r, k) ↦ elim (Bool-cases (ctdb_ltdb_store_server e n h (new_body e r body)).ok) [
        | inl y ↦ rw (q, ctdb_call_local, k, y) (own-owns n h (new_body e r body) own)
        | inr y ↦ rw (q, ctdb_call_local, k, y) (own-owns n h (new_body e r body) own)
      ]
    ]
  ]

  run_waiting_call-owns :
      (n : N e) (reqid key : ℕ) (state : Option CallState) (h : Header) (body : List ℕ)
      → (h.dmaster == n.pnn) ≡ owns e n
      → owns e (run_waiting_call e n reqid key state h body) ≡ owns e n
  unfolding run_waiting_call finish_call unlock owns
  run_waiting_call-owns n reqid key none h body own = refl
  run_waiting_call-owns n reqid key (some state) h body own =
      elim (Bool-cases ((key == state.key) && (reqid == state.reqid))) [
        | inl y ↦ rw y (call_local-owns n state.callid h body own)
        | inr y ↦ rw y refl
      ]

  -- The node that is given the record is its dmaster.
  pub reply_dmaster-takes_over :
      (n : N e) (p : ReplyDmaster)
      → Reliable e
      → n.attached ≡ true
      → (m : N e) × (ctdb_reply_dmaster e n Lock.got p ≡ some m)
        × (owns e m ≡ true)
        × Has e n m p p.body
  unfolding ctdb_reply_dmaster ctdb_become_dmaster owned_header lock
  reply_dmaster-takes_over n p sure a =
      let h = owned_header e (lock n) p.reqid p.rsn p.record_flags in
      let s = ctdb_ltdb_store_server e (lock n) h p.body in
      let w = store-Stores e (lock n) h p.body in
      let ok = store-ok e (lock n) h p.body sure in
      let m = pinned_down e (lock n) s.node in
      let (same, keeps, pnn) = pinned_down-owner e (lock n) s.node in
      let own : (s.header.dmaster == m.pnn) ≡ owns e m =
        ground (arith, keeps, pnn, w.owned, w.dmaster, w.same.pnn, ok) in
      (
        run_waiting_call e m p.reqid p.key (n.find_call p.reqid) s.header p.body,
        if-false (not n.attached) _ _ (ap not a) ∙ if-true s.ok _ _ ok,
        run_waiting_call-owns m p.reqid p.key (n.find_call p.reqid) s.header p.body own
            ∙ keeps
            ∙ ground (arith, w.owned, ok),
        (
          s.header,
          w.dmaster,
          run_waiting_call-data e m p.reqid p.key (n.find_call p.reqid) s.header p.body sure
              (pinned_down-data e (lock n) s.node ∙ store-data e (lock n) h p.body sure),
        ),
      )

  -- The three steps of a migration: the dmaster's node `o`, the lmaster's `l` and the asking node `n`
  -- handle one packet each.
  abbrev pub Migrates : (o l n : N e) → ReqCall → Rec → Type 0
  Migrates o l n c r =
      (o' : N e) × (d : ReqDmaster) × (l' : N e) × (p : ReplyDmaster) × (n' : N e)
      × (ctdb_request_call e o Lock.got c ≡ some o')
      × GaveUp e o o' (req_dmaster d)
      × (d.destnode ≡ lmaster e o)
      × (ctdb_request_dmaster e l Lock.got d ≡ some l')
      × GaveUp e l l' (reply_dmaster p)
      × (p.destnode ≡ n.pnn)
      × (p.body ≡ r.body)
      × (ctdb_reply_dmaster e n Lock.got p ≡ some n')
      × (owns e n' ≡ true)
      × Has e n n' p r.body
