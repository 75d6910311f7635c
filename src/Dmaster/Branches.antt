-- ===== src/Dmaster/Branches.antt =====
-- server/ctdb_call.c: the branches of `ctdb_request_call` that end a request on the node, and the owners
-- of the record.
use ctdb.Base.{
  ℕ, ◌+◌, ◌≡◌, refl, sym, ◌∙◌, inl, inr, arith, true, ◌&&◌, List, ◌==◌, Option-cases, Bool-cases,
  leb,
}
use ctdb.Dmaster.Header.{Header, u64, ReqCall, req_call}
use ctdb.Dmaster.Node.{Env, Note, start_revoke, note, send, lock, unlock}
use ctdb.Dmaster.Store.{ctdb_ltdb_store_server, Fetched, ctdb_ltdb_fetch}
use ctdb.Dmaster.Call.{N, ctdb_call_send_redirect, ctdb_call_local, ctdb_make_record_sticky}
use ctdb.Dmaster.Request.{defer, revoke, send_delegation, delegate, count_hops, answer_locally}
use ctdb.Dmaster.Writes.{owns, store-Stores, fetch-Fetches}
use ctdb.Dmaster.Ownership.{
  token, tokens, carried, owned_here, weight, AtMost, if-AtMost, send-weight, unlock-weight,
  own-weight, call_local-weight,
}

module _ (e : Env) where
  -- The header that was read says whether the node is the dmaster.
  abbrev pub Current : Fetched e → Type 0
  Current f = (f.header.dmaster == f.node.pnn) ≡ owns e f.node

  pub store-Current :
      (n : N e) (h : Header) (body : List ℕ)
      → (h.dmaster == n.pnn) ≡ owns e n
      → (let s = ctdb_ltdb_store_server e n h body in
          (s.header.dmaster == s.node.pnn) ≡ owns e s.node)
  store-Current n h body own =
      let t = store-Stores e n h body in
      elim (Bool-cases (ctdb_ltdb_store_server e n h body).ok) [
        | inl y ↦ ground (arith, t.same.pnn, t.dmaster, t.owned, y)
        | inr y ↦ ground (arith, t.same.pnn, t.dmaster, t.owned, y)
      ]

  pub fetch-Current : (n : N e) → Current (ctdb_ltdb_fetch e (lock n))
  fetch-Current n = let f = fetch-Fetches e (lock n) in rw f.same.pnn (f.dmaster ∙ sym f.owned)

  pub defer-weight :
      (c : ReqCall) (n : N e) → weight e (defer e c n) ≡ token (req_call c) + weight e n
  unfolding defer weight owned_here carried owns tokens
  defer-weight c n = omega arith

  note-weight : (a : Note) (n : N e) → weight e (note a n) ≡ weight e n
  unfolding note weight owned_here carried owns
  note-weight a n = refl

  pub redirect-weight :
      (n : N e) (c : ReqCall) (h : Header)
      → weight e (ctdb_call_send_redirect e n c h) ≡ token (req_call c) + weight e n
  unfolding ctdb_call_send_redirect token
  redirect-weight n c h = send-weight e _ n

  pub revoke-AtMost :
      (f : Fetched e) (c : ReqCall)
      → Current f
      → AtMost e (token (req_call c) + weight e f.node) (revoke e f c)
  unfolding revoke
  revoke-AtMost f c own =
      let h : Header = record f.header {
        flags = record f.header.flags { ro_revoking_readonly = true };
      } in
      let s = ctdb_ltdb_store_server e f.node h f.body in
      if-AtMost e _ s.ok _ _
        (λ y. omega (
          arith,
          defer-weight c (note (start_revoke s.header f.body) (unlock s.node)),
          note-weight (start_revoke s.header f.body) (unlock s.node),
          unlock-weight e s.node,
          own-weight e f.node h f.body own,
        ))
        (λ y. tt)

  send_delegation-weight :
      (f : Fetched e) (c : ReqCall) → weight e (send_delegation e f c) ≡ 1 + weight e f.node
  unfolding send_delegation note weight owned_here carried owns tokens token send unlock
  send_delegation-weight f c = omega arith

  pub delegate-AtMost :
      (f : Fetched e) (c : ReqCall) → Current f → AtMost e (1 + weight e f.node) (delegate e f c)
  unfolding delegate
  delegate-AtMost f c own =
      let h : Header = record f.header {
        rsn = u64 (f.header.rsn + 3);
        flags = record f.header.flags { ro_have_delegations = true };
      } in
      let s = ctdb_ltdb_store_server e f.node h f.body in
      if-AtMost e _ f.header.flags.ro_have_delegations _ _
        (λ y. omega (arith, send_delegation-weight f c))
        (λ y.
          if-AtMost e _ s.ok _ _
            (λ k. omega (
              arith,
              own-weight e f.node h f.body own,
              send_delegation-weight (record { node = s.node; header = s.header; body = f.body }) c,
            ))
            (λ k. tt))

  pub answer_locally-weight :
      (f : Fetched e) (c : ReqCall) → Current f → weight e (answer_locally e f c) ≡ weight e f.node
  unfolding answer_locally token
  answer_locally-weight f c own =
      let r = ctdb_call_local e f.node c.callid f.header f.body in
      send-weight e _ (unlock r.node)
      ∙ omega
          (arith, unlock-weight e r.node, call_local-weight e f.node c.callid f.header f.body own)

  pub count_hops-Same :
      (n : N e) (c : ReqCall)
      → (weight e (count_hops e n c) ≡ weight e n)
        × (owns e (count_hops e n c) ≡ owns e n)
        × ((count_hops e n c).pnn ≡ n.pnn)
  unfolding count_hops ctdb_make_record_sticky weight owned_here carried owns note
  count_hops-Same n c = elim (Bool-cases (n.sticky && leb n.hopcount_make_sticky c.hopcount)) [
    | inl y ↦ elim (Option-cases n.sticky_record) [
      | inl q ↦ rw (y, q, ctdb_make_record_sticky) (refl, refl, refl)
      | inr (p, q) ↦ rw (y, q, ctdb_make_record_sticky) (refl, refl, refl)
    ]
    | inr y ↦ rw y (refl, refl, refl)
  ]
