-- ===== src/Dmaster/Ownership.antt =====
-- server/ctdb_call.c: how many times the record is owned, at a node or on its way.
use ctdb.Base.{
  ℕ, ◌+◌, ◌≤◌, ◌≡◌, refl, ◌∙◌, ap, inl, inr, arith, Bool, true, false, ◌&&◌, not, Option, none,
  some, List, [], ◌∷◌, ◌==◌, if◌then◌else◌, Option-cases, Bool-cases,
}
use ctdb.Dmaster.Header.{
  RecFlags, Header, Packet, ReqCall, req_call, req_dmaster, reply_dmaster, reply_call, reply_error,
}
use ctdb.Dmaster.Node.{Env, CallState, send, unlock}
use ctdb.Dmaster.Store.{lmaster, Stored, ctdb_ltdb_store_server}
use ctdb.Dmaster.Call.{
  N, new_body, ctdb_call_local, ctdb_send_dmaster_reply, mark_migrated, ctdb_call_send_dmaster,
  ctdb_set_sticky_pindown, finish_call, run_waiting_call, owned_header, ctdb_become_dmaster,
}
use ctdb.Dmaster.Writes.{owns, Same, Stores, store-Stores}

-- A packet that hands the record over. A request for a read-only copy counts as well, and so does the
-- copy: its receiver takes the dmaster of its header on record.
unfoldable pub token : Packet → ℕ
token (req_call c) = if c.want_readonly then 1 else 0
token (req_dmaster c) = 1
token (reply_dmaster c) = 1
token (reply_call c) = elim c.delegation [ none ↦ 0 | some h ↦ 1 ]
token (reply_error c) = 0

unfoldable pub tokens : List Packet → ℕ
tokens [] = 0
tokens (p ∷ ps) = token p + tokens ps

module _ (e : Env) where
  unfoldable pub carried : N e → ℕ
  carried n = tokens n.sent + tokens n.waiting + tokens n.deferred

  unfoldable pub owned_here : N e → ℕ
  owned_here n = if owns e n then 1 else 0

  -- The number of times that the node has the record, or hands it over.
  unfoldable pub weight : N e → ℕ
  weight n = owned_here n + carried n

  pub Same-carried : (n m : N e) → Same e n m → carried m ≡ carried n
  unfolding carried
  Same-carried n m s = ground (arith, ap tokens s.sent, ap tokens s.waiting, ap tokens s.deferred)

  -- What a write leaves: the node has the record exactly if the header names it.
  pub store-weight :
      (n : N e) (h : Header) (body : List ℕ) (s : Stored e)
      → ctdb_ltdb_store_server e n h body ≡ s
      → weight s.node
        ≡ (if s.ok then (if h.dmaster == n.pnn then 1 else 0) else owned_here n) + carried n
  unfolding weight owned_here
  store-weight n h body s q =
      let t : Stores e n h s = rw (← q) (store-Stores e n h body) in
      ground (arith, Same-carried n s.node t.same, t.owned)

  pub send-weight : (p : Packet) (n : N e) → weight (send p n) ≡ token p + weight n
  unfolding send weight carried tokens owned_here owns
  send-weight p n = omega arith

  pub unlock-weight : (n : N e) → weight (unlock n) ≡ weight n
  unfolding unlock weight carried owned_here owns
  unlock-weight n = refl

  pub own-weight :
      (n : N e) (h : Header) (body : List ℕ)
      → (h.dmaster == n.pnn) ≡ owns e n
      → weight (ctdb_ltdb_store_server e n h body).node ≡ weight n
  unfolding weight owned_here
  own-weight n h body own =
      let s = ctdb_ltdb_store_server e n h body in
      elim (Bool-cases s.ok) [
        | inl y ↦ ground (arith, store-weight n h body s refl)
        | inr y ↦ ground (arith, store-weight n h body s refl)
      ]

  -- A node that has the record still has it after a call of its own.
  pub call_local-weight :
      (n : N e) (callid : ℕ) (h : Header) (body : List ℕ)
      → (h.dmaster == n.pnn) ≡ owns e n
      → weight (ctdb_call_local e n callid h body).node ≡ weight n
  unfolding ctdb_call_local
  call_local-weight n callid h body own = elim (Option-cases (e.call_fn callid)) [
    | inl q ↦ rw (q, ctdb_call_local) refl
    | inr (fn, q) ↦ elim (Option-cases (fn h body)) [
      | inl k ↦ rw (q, ctdb_call_local, k) refl
      | inr (r, k) ↦ elim (Bool-cases (ctdb_ltdb_store_server e n h (new_body e r body)).ok) [
        | inl y ↦ rw (q, ctdb_call_local, k, y) (own-weight n h (new_body e r body) own)
        | inr y ↦ rw (q, ctdb_call_local, k, y) (own-weight n h (new_body e r body) own)
      ]
    ]
  ]

  abbrev pub AtMost : ℕ → Option (N e) → Type 0
  AtMost k none = Unit
  AtMost k (some n) = weight n ≤ k

  pub if-AtMost :
      (k : ℕ) (b : Bool) (x y : Option (N e))
      → (b ≡ true → AtMost k x)
      → (b ≡ false → AtMost k y)
      → AtMost k (if b then x else y)
  if-AtMost k true x y f g = f refl
  if-AtMost k false x y f g = g refl

  pub dmaster_reply-weight :
      (n : N e) (h : Header) (body : List ℕ) (d reqid : ℕ)
      → (d == n.pnn) ≡ false
      → (lmaster e n == n.pnn) ≡ true
      → AtMost (1 + carried n) (ctdb_send_dmaster_reply e n h body d reqid)
  unfolding ctdb_send_dmaster_reply token
  dmaster_reply-weight n h body d reqid other here =
      let s = ctdb_ltdb_store_server e n (record h { dmaster = d }) body in
      let w = store-weight n (record h { dmaster = d }) body s refl in
      if-AtMost _ (not (n.pnn == lmaster e n)) _ _ (λ f. absurd (ground (arith, f, here)))
        (λ f.
          if-AtMost _ (s.ok && n.transport) _ _
            (λ y. ground (
              arith,
              y,
              w,
              other,
              send-weight
                  (reply_dmaster (record {
                    destnode = d;
                    reqid = reqid;
                    key = e.key;
                    rsn = s.header.rsn;
                    record_flags = s.header.flags;
                    body = body;
                  }))
                  s.node,
            ))
            (λ y. tt))

  pub send_dmaster-weight :
      (n : N e) (c : ReqCall) (h : Header) (body : List ℕ)
      → (c.srcnode == n.pnn) ≡ false
      → AtMost (1 + carried n) (ctdb_call_send_dmaster e n c h body)
  unfolding ctdb_call_send_dmaster token
  send_dmaster-weight n c header body other =
      let h = mark_migrated e header body in
      let s = ctdb_ltdb_store_server e n (record h { dmaster = c.srcnode }) body in
      let w = store-weight n (record h { dmaster = c.srcnode }) body s refl in
      if-AtMost _ (not n.transport) _ _ (λ t. tt)
        (λ t.
          if-AtMost _ (lmaster e n == n.pnn) _ _
            (λ here. dmaster_reply-weight n h body c.srcnode c.reqid other here)
            (λ away.
              if-AtMost _ s.ok _ _
                (λ y. ground (
                  arith,
                  y,
                  w,
                  other,
                  send-weight
                      (req_dmaster (record {
                        destnode = lmaster e n;
                        srcnode = n.pnn;
                        reqid = c.reqid;
                        key = e.key;
                        rsn = h.rsn;
                        dmaster = c.srcnode;
                        record_flags = h.flags;
                        body = body;
                      }))
                      s.node,
                ))
                (λ y. tt)))

  finish_call-weight :
      (reqid : ℕ) (state : CallState) (n : N e)
      → weight (finish_call e reqid state (unlock n)) ≡ weight n
  unfolding finish_call unlock weight carried owned_here owns
  finish_call-weight reqid state n = refl

  run_waiting_call-weight :
      (n : N e) (reqid key : ℕ) (state : Option CallState) (h : Header) (body : List ℕ)
      → (h.dmaster == n.pnn) ≡ owns e n
      → weight (run_waiting_call e n reqid key state h body) ≡ weight n
  unfolding run_waiting_call finish_call
  run_waiting_call-weight n reqid key none h body own = unlock-weight n
  run_waiting_call-weight n reqid key (some state) h body own =
      elim (Bool-cases ((key == state.key) && (reqid == state.reqid))) [
        | inl y ↦
            rw y (finish_call-weight reqid state _ ∙ call_local-weight n state.callid h body own)
        | inr y ↦ rw y (unlock-weight n)
      ]

  abbrev pub pinned_down : N e → N e → N e
  pinned_down n m = if n.sticky then ctdb_set_sticky_pindown e m else m

  pub pinned_down-owner :
      (n m : N e)
      → (weight (pinned_down n m) ≡ weight m)
        × (owns e (pinned_down n m) ≡ owns e m)
        × ((pinned_down n m).pnn ≡ m.pnn)
  unfolding ctdb_set_sticky_pindown owns weight owned_here carried
  pinned_down-owner n m = elim (Bool-cases n.sticky) [
    | inr y ↦ rw y (refl, refl, refl)
    | inl y ↦ elim (Option-cases m.sticky_record) [
      | inl q ↦ rw (y, q, ctdb_set_sticky_pindown) (refl, refl, refl)
      | inr (p, q) ↦ rw (y, q, ctdb_set_sticky_pindown) (refl, refl, refl)
    ]
  ]

  pub become-weight :
      (n : N e) (reqid key : ℕ) (body : List ℕ) (rsn : ℕ) (flags : RecFlags)
      → AtMost (1 + carried n) (ctdb_become_dmaster e n reqid key body rsn flags)
  unfolding ctdb_become_dmaster owned_header
  become-weight n reqid key body rsn flags =
      let h = owned_header e n reqid rsn flags in
      let s = ctdb_ltdb_store_server e n h body in
      let t : Stores e n h s = store-Stores e n h body in
      let w = store-weight n h body s refl in
      let m = pinned_down n s.node in
      let o = pinned_down-owner n s.node in
      if-AtMost _ s.ok _ _
        (λ y.
          let own : (s.header.dmaster == m.pnn) ≡ owns e m =
            ground (arith, o.2, t.owned, t.dmaster, t.same.pnn, y) in
          ground (
            arith,
            y,
            w,
            o.1,
            run_waiting_call-weight m reqid key (n.find_call reqid) s.header body own,
          ))
        (λ y. tt)
