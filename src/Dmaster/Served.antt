-- ===== src/Dmaster/Served.antt =====
-- server/ctdb_call.c, `ctdb_request_call`: a request makes no second owner of the record.
use ctdb.Base.{
  ℕ, ◌+◌, ◌≤◌, ◌≡◌, refl, sym, subst, ◌∙◌, inl, inr, arith, Bool, true, false, ◌&&◌, ◌||◌, not,
  Option, none, some, [], ◌∷◌, ◌==◌, if◌then◌else◌, Option-cases,
}
use ctdb.Dmaster.Header.{ReqCall, req_call}
use ctdb.Dmaster.Node.{Env, Lock, ro_revoke, note, lock, unlock}
use ctdb.Dmaster.Store.{ctdb_ltdb_store_server, Fetched, ctdb_ltdb_fetch}
use ctdb.Dmaster.Call.{N, fetch_with_header_func, ctdb_call_send_redirect, ctdb_send_error}
use ctdb.Dmaster.Request.{
  is_pinned_down, clear_ro, clear_revoked, count_hops, migrate_or_answer, serve_call, locked_call,
  ctdb_request_call,
}
use ctdb.Dmaster.Writes.{owns}
use ctdb.Dmaster.Ownership.{
  token, carried, owned_here, weight, AtMost, if-AtMost, unlock-weight, own-weight,
  send_dmaster-weight,
}
use ctdb.Dmaster.Handover.{weaken-AtMost, fetch-weight, error-weight, unlock-AtMost, waiting-weight}
use ctdb.Dmaster.Branches.{
  Current, store-Current, fetch-Current, defer-weight, redirect-weight, revoke-AtMost,
  delegate-AtMost, answer_locally-weight, count_hops-Same,
}

module _ (e : Env) where
  -- The record goes to another node from its dmaster, or for a read-only request.
  migrate_or_answer-AtMost :
      (f : Fetched e) (c : ReqCall)
      → Current e f
      → 1 + carried e f.node ≤ token (req_call c) + weight e f.node
      → AtMost e (token (req_call c) + weight e f.node) (migrate_or_answer e f c)
  unfolding migrate_or_answer
  migrate_or_answer-AtMost f c own enough =
      if-AtMost e _ (not (c.srcnode == f.node.pnn)) _ _
        (λ other.
          if-AtMost e _ f.node.transaction _ _ (λ t. omega arith)
            (λ t. unlock-AtMost e _ _ (
              weaken-AtMost e _ _ _
                (send_dmaster-weight e f.node c f.header f.body (ground (arith, other))) enough)))
        (λ me. omega (arith, answer_locally-weight e f c own))

  wants-token : (c : ReqCall) → c.want_readonly ≡ true → token (req_call c) ≡ 1
  unfolding token
  wants-token c q = ground (arith, q)

  enough-owned :
      (f : Fetched e) (c : ReqCall)
      → Current e f
      → (not (f.header.dmaster == f.node.pnn) && not f.header.flags.ro_have_delegations) ≡ false
      → (not c.want_readonly
          && (f.header.flags.ro_have_delegations || f.header.flags.ro_have_readonly))
        ≡ false
      → (c.want_readonly && (c.callid == fetch_with_header_func)) ≡ false
      → 1 + carried e f.node ≤ token (req_call c) + weight e f.node
  unfolding token weight owned_here
  enough-owned f c own a b d = ground (arith, own, a, b, d)

  serve_call-AtMost :
      (f : Fetched e) (c : ReqCall)
      → Current e f
      → AtMost e (token (req_call c) + weight e f.node) (serve_call e f c)
  unfolding serve_call
  serve_call-AtMost f c own =
      let k = count_hops-Same e f.node c in
      let weight-eq = k.0 in
      let g : Fetched e = record f { node = count_hops e f.node c } in
      let own' : Current e g = rw (k.1, k.2) own in
      if-AtMost e _ f.header.flags.ro_revoking_readonly _ _
        (λ r. omega (arith, defer-weight e c (unlock f.node), unlock-weight e f.node))
        (λ r.
          if-AtMost e _
            (not (f.header.dmaster == f.node.pnn) && not f.header.flags.ro_have_delegations) _ _
            (λ a. omega (
              arith,
              unlock-weight e (ctdb_call_send_redirect e f.node c f.header),
              redirect-weight e f.node c f.header,
            ))
            (λ a.
              if-AtMost e _
                (not c.want_readonly
                  && (f.header.flags.ro_have_delegations || f.header.flags.ro_have_readonly))
                _ _ (λ b. revoke-AtMost e f c own)
                (λ b.
                  if-AtMost e _ (c.want_readonly && (c.callid == fetch_with_header_func)) _ _
                    (λ d.
                      weaken-AtMost e _ _ _ (delegate-AtMost e f c own)
                        (omega (arith, wants-token c (ground (arith, d)))))
                    (λ d.
                      weaken-AtMost e _ _ _
                        (migrate_or_answer-AtMost g c own' (enough-owned g c own' (rw k.2 a) b d))
                        (omega (arith, weight-eq))))))

  -- Clearing the marks of a revoke keeps the record where it is.
  abbrev Kept : ℕ → Option (Fetched e) → Type 0
  Kept k none = Unit
  Kept k (some g) = (weight e g.node ≡ k) × Current e g

  if-Kept :
      (k : ℕ) (b : Bool) (x y : Option (Fetched e))
      → (b ≡ true → Kept k x)
      → (b ≡ false → Kept k y)
      → Kept k (if b then x else y)
  if-Kept k true x y f g = f refl
  if-Kept k false x y f g = g refl

  cleared-weight :
      (n : N e)
      → (weight e (record (note ro_revoke n) { tracking = [] }) ≡ weight e n)
        × (owns e (record (note ro_revoke n) { tracking = [] }) ≡ owns e n)
  unfolding note weight owned_here carried owns
  cleared-weight n = (refl, refl)

  clear_revoked-Kept : (f : Fetched e) → Current e f → Kept (weight e f.node) (clear_revoked e f)
  unfolding clear_revoked note
  clear_revoked-Kept f own =
      let h = clear_ro e f.header in
      let s = ctdb_ltdb_store_server e f.node h f.body in
      let cleared = cleared-weight s.node in
      if-Kept _ f.header.flags.ro_revoke_complete _ _
        (λ r.
          if-Kept _ s.ok _ _
            (λ y. (
              cleared.0 ∙ own-weight e f.node h f.body own,
              store-Current e f.node h f.body own ∙ sym cleared.1,
            ))
            (λ y. tt))
        (λ r. (refl, own))

  weaker-token :
      (c : ReqCall) (b : Bool)
      → token (req_call (record c { want_readonly = c.want_readonly && b })) ≤ token (req_call c)
  unfolding token
  weaker-token c b = ground arith

  locked_call-AtMost :
      (f : Fetched e) (c : ReqCall)
      → Current e f
      → AtMost e (token (req_call c) + weight e f.node) (locked_call e f c)
  unfolding locked_call
  locked_call-AtMost f c own = elim (Option-cases (clear_revoked e f)) [
    | inl q ↦ rw (q, locked_call) tt
    | inr (g, q) ↦
        let k : Kept (weight e f.node) (some g) =
          subst (Kept (weight e f.node)) q (clear_revoked-Kept f own) in
        let same = k.0 in
        rw (q, locked_call)
          (weaken-AtMost e _ _ _
            (serve_call-AtMost g (record c { want_readonly = c.want_readonly && g.node.readonly })
              k.1)
            (omega (arith, same, weaker-token c g.node.readonly)))
  ]

  pub request_call-AtMost :
      (n : N e) (l : Lock) (c : ReqCall)
      → AtMost e (token (req_call c) + weight e n) (ctdb_request_call e n l c)
  unfolding ctdb_request_call
  request_call-AtMost n l c =
      if-AtMost e _ (not n.transport) _ _ (λ t. omega arith)
        (λ t.
          if-AtMost e _ (not n.attached) _ _
            (λ a. omega (arith, error-weight e c.srcnode c.reqid n))
            (λ a.
              if-AtMost e _ (n.sticky && is_pinned_down e n) _ _
                (λ p. omega (arith, defer-weight e c n)) (λ p. locked l)))
    where
      locked :
          (l : Lock)
          → AtMost e (token (req_call c) + weight e n) (elim l [
            | Lock.failed ↦ some (ctdb_send_error e c.srcnode c.reqid n)
            | Lock.contended ↦ some (record n { waiting = req_call c ∷ n.waiting })
            | Lock.got ↦ locked_call e (ctdb_ltdb_fetch e (lock n)) c
          ])
      locked Lock.failed = omega (arith, error-weight e c.srcnode c.reqid n)
      locked Lock.contended = omega (arith, waiting-weight e n (req_call c))
      locked Lock.got =
          weaken-AtMost e _ _ _
            (locked_call-AtMost (ctdb_ltdb_fetch e (lock n)) c (fetch-Current e n))
            (omega (arith, fetch-weight e n))
