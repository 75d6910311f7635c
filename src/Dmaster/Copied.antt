-- ===== src/Dmaster/Copied.antt =====
-- server/ctdb_call.c, `ctdb_reply_call`: a read-only copy makes one owner of the record at most.
use ctdb.Base.{
  ℕ, ◌+◌, ◌≡◌, ◌≤◌, refl, inl, inr, arith, Bool, true, false, not, Option, none, some, List, ◌∷◌,
  ◌==◌, leb, if◌then◌else◌, Option-cases,
}
use ctdb.Dmaster.Header.{Header, ReplyCall, reply_call}
use ctdb.Dmaster.Node.{Env, CallState, Lock, lock}
use ctdb.Dmaster.Store.{ctdb_ltdb_store_server, ctdb_ltdb_fetch}
use ctdb.Dmaster.Call.{N, fetch_with_header_func, finish_call}
use ctdb.Dmaster.Writes.{owns}
use ctdb.Dmaster.Ownership.{token, weight, carried, owned_here, store-weight, unlock-weight}
use ctdb.Dmaster.Handover.{fetch-weight, carried-le, waiting-weight}
use ctdb.Dmaster.Reply.{store_copy, take_copy, ctdb_reply_call}

module _ (e : Env) where
  finished-weight :
      (reqid : ℕ) (state : CallState) (n : N e)
      → weight e (finish_call e reqid state n) ≡ weight e n
  unfolding finish_call weight carried owned_here owns
  finished-weight reqid state n = refl

  if-weight_le :
      (b : Bool) (x y : N e) (k : ℕ)
      → weight e x ≤ k
      → weight e y ≤ k
      → weight e (if b then x else y) ≤ k
  if-weight_le true x y k f g = f
  if-weight_le false x y k f g = g

  store-weight_le :
      (n : N e) (h : Header) (body : List ℕ)
      → weight e (ctdb_ltdb_store_server e n h body).node ≤ 1 + weight e n
  unfolding owned_here
  store-weight_le n h body =
      let s = ctdb_ltdb_store_server e n h body in
      ground (arith, store-weight e n h body s refl, carried-le e n)

  store_copy-weight :
      (n : N e) (h : Header) (c : ReplyCall)
      → weight e (store_copy e (ctdb_ltdb_fetch e (lock n)) h c) ≤ 1 + weight e n
  unfolding store_copy
  store_copy-weight n h c =
      let f = ctdb_ltdb_fetch e (lock n) in
      let m = (ctdb_ltdb_store_server e f.node h c.body).node in
      if-weight_le (leb h.rsn f.header.rsn) _ _ _
        (omega (arith, unlock-weight e f.node, fetch-weight e n))
        (omega (arith, unlock-weight e m, store-weight_le f.node h c.body, fetch-weight e n))

  take_copy-weight :
      (n : N e) (l : Lock) (state : CallState) (d : Option Header) (c : ReplyCall)
      → c.delegation ≡ d
      → weight e (take_copy e n l state d c) ≤ token (reply_call c) + weight e n
  unfolding take_copy token
  take_copy-weight n l state none c q = omega (arith, finished-weight c.reqid state n)
  take_copy-weight n l state (some h) c q =
      if-weight_le (not h.flags.ro_have_readonly) _ _ _
        (omega (arith, finished-weight c.reqid state n)) (locked l)
    where
      one : token (reply_call c) ≡ 1
      one = rw (q, token) refl

      locked :
          (l : Lock)
          → weight e (elim l [
            | Lock.contended ↦ record n { waiting = reply_call c ∷ n.waiting }
            | Lock.failed ↦ n
            | Lock.got ↦ finish_call e c.reqid state (store_copy e (ctdb_ltdb_fetch e (lock n)) h c)
          ])
            ≤ token (reply_call c) + weight e n
      locked Lock.contended = omega (arith, waiting-weight e n (reply_call c))
      locked Lock.failed = omega arith
      locked Lock.got = omega (
        arith,
        one,
        store_copy-weight n h c,
        finished-weight c.reqid state (store_copy e (ctdb_ltdb_fetch e (lock n)) h c),
      )

  pub reply_call-AtMost :
      (n : N e) (l : Lock) (c : ReplyCall)
      → weight e (ctdb_reply_call e n l c) ≤ token (reply_call c) + weight e n
  unfolding ctdb_reply_call
  reply_call-AtMost n l c = elim (Option-cases (n.find_call c.reqid)) [
    | inl q ↦ rw (q, ctdb_reply_call) (omega arith)
    | inr (state, q) ↦
        rw (q, ctdb_reply_call)
          (if-weight_le (not (c.reqid == state.reqid)) _ _ _ (omega arith) (
            if-weight_le (state.callid == fetch_with_header_func) _ _ _
              (take_copy-weight n l state c.delegation c refl)
              (omega (arith, finished-weight c.reqid state n))))
  ]
