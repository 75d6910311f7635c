-- ===== src/Dmaster/Handover.antt =====
-- server/ctdb_call.c: no handler of a packet makes a second owner of the record.
use ctdb.Base.{
  ℕ, ◌+◌, ◌≤◌, ◌≡◌, refl, ◌∙◌, arith, Bool, true, false, ◌&&◌, ◌||◌, not, Option, none, some, ◌∷◌,
  ◌==◌, if◌then◌else◌,
}
use ctdb.Dmaster.Header.{Packet, ReqDmaster, ReplyDmaster, req_dmaster, reply_dmaster, reply_error}
use ctdb.Dmaster.Node.{Env, Lock, lock, unlock}
use ctdb.Dmaster.Store.{lmaster, Fetched, ctdb_ltdb_fetch}
use ctdb.Dmaster.Call.{
  N, minus_one, ctdb_send_error, ctdb_become_dmaster, accept_dmaster, ctdb_request_dmaster,
  ctdb_reply_dmaster,
}
use ctdb.Dmaster.Writes.{owns, fetch-Fetches}
use ctdb.Dmaster.Ownership.{
  token, tokens, carried, owned_here, weight, AtMost, if-AtMost, Same-carried, send-weight,
  unlock-weight, dmaster_reply-weight, become-weight,
}

module _ (e : Env) where
  pub weaken-AtMost : (j k : ℕ) (o : Option (N e)) → AtMost e j o → j ≤ k → AtMost e k o
  weaken-AtMost j k none a h = tt
  weaken-AtMost j k (some n) a h = omega arith

  pub lock-weight : (n : N e) → weight e (lock n) ≡ weight e n
  unfolding lock weight owned_here carried owns
  lock-weight n = refl

  fetched-weight : (n : N e) → weight e (ctdb_ltdb_fetch e n).node ≡ weight e n
  unfolding weight owned_here
  fetched-weight n =
      let f = fetch-Fetches e n in
      ground (arith, f.owned, Same-carried e n (ctdb_ltdb_fetch e n).node f.same)

  pub fetch-weight : (n : N e) → weight e (ctdb_ltdb_fetch e (lock n)).node ≡ weight e n
  fetch-weight n = fetched-weight (lock n) ∙ lock-weight n

  fetch-is_lmaster :
      (n : N e)
      → (lmaster e n == n.pnn) ≡ true
      → (lmaster e (ctdb_ltdb_fetch e (lock n)).node == (ctdb_ltdb_fetch e (lock n)).node.pnn)
        ≡ true
  unfolding lock
  fetch-is_lmaster n h = let f = fetch-Fetches e (lock n) in rw (f.same.pnn, f.same.vnn_map) h

  pub carried-le : (n : N e) → carried e n ≤ weight e n
  unfolding weight
  carried-le n = omega arith

  if-weight :
      (b : Bool) (x y : N e) (k : ℕ)
      → weight e x ≡ k
      → weight e y ≡ k
      → weight e (if b then x else y) ≡ k
  if-weight true x y k f g = f
  if-weight false x y k f g = g

  pub error-weight :
      (srcnode reqid : ℕ) (n : N e) → weight e (ctdb_send_error e srcnode reqid n) ≡ weight e n
  unfolding ctdb_send_error token
  error-weight srcnode reqid n =
      if-weight n.transport _ _ (weight e n)
        (omega (
          arith,
          send-weight e
              (reply_error (record { destnode = srcnode; reqid = reqid; status = minus_one })) n,
        ))
        refl

  pub unlock-AtMost :
      (k : ℕ) (o : Option (N e))
      → AtMost e k o
      → AtMost e k (elim o [ none ↦ none | some n ↦ some (unlock n) ])
  unlock-AtMost k none a = tt
  unlock-AtMost k (some n) a = rw (unlock-weight e n) a

  recovery-weight : (n : N e) → weight e (unlock (record n { recovery = true })) ≡ weight e n
  unfolding weight owned_here carried unlock owns
  recovery-weight n = refl

  pub waiting-weight :
      (n : N e) (p : Packet)
      → weight e (record n { waiting = p ∷ n.waiting }) ≡ token p + weight e n
  unfolding weight owned_here carried owns tokens
  waiting-weight n p = omega arith

  accept-AtMost :
      (f : Fetched e) (c : ReqDmaster)
      → (lmaster e f.node == f.node.pnn) ≡ true
      → AtMost e (1 + weight e f.node) (accept_dmaster e f c)
  unfolding accept_dmaster
  accept-AtMost f c here =
      let n = f.node in
      if-AtMost e _
        (not (f.header.dmaster == c.srcnode)
          && (not (f.header.rsn == 0) || not (f.header.dmaster == f.node.pnn)))
        _ _ (λ bad. omega (arith, recovery-weight n))
        (λ good.
          if-AtMost e _ (c.dmaster == f.node.pnn) _ _
            (λ me.
              weaken-AtMost _ _ _ (become-weight e n c.reqid c.key c.body c.rsn c.record_flags)
                (omega (arith, carried-le n)))
            (λ other. unlock-AtMost _ _ (
              weaken-AtMost _ _ _
                (dmaster_reply-weight e n
                  (record { rsn = c.rsn; dmaster = f.header.dmaster; flags = c.record_flags })
                  c.body c.dmaster c.reqid other here)
                (omega (arith, carried-le n)))))

  -- A request for the dmaster is worth one: it leaves at most one owner more than there was.
  pub request_dmaster-AtMost :
      (n : N e) (l : Lock) (c : ReqDmaster)
      → AtMost e (token (req_dmaster c) + weight e n) (ctdb_request_dmaster e n l c)
  unfolding ctdb_request_dmaster token
  request_dmaster-AtMost n l c =
      if-AtMost e _ (not n.attached) _ _ (λ a. omega (arith, error-weight c.srcnode c.reqid n))
        (λ a. locked l)
    where
      locked :
          (l : Lock)
          → AtMost e (token (req_dmaster c) + weight e n) (elim l [
            | Lock.failed ↦ none
            | Lock.contended ↦ some (record n { waiting = req_dmaster c ∷ n.waiting })
            | Lock.got ↦
                if not (lmaster e n == n.pnn)
                then none
                else accept_dmaster e (ctdb_ltdb_fetch e (lock n)) c
          ])
      locked Lock.failed = tt
      locked Lock.contended = omega (arith, waiting-weight n (req_dmaster c))
      locked Lock.got =
          if-AtMost e _ (not (lmaster e n == n.pnn)) _ _ (λ x. tt)
            (λ x.
              weaken-AtMost _ _ _
                (accept-AtMost (ctdb_ltdb_fetch e (lock n)) c
                  (fetch-is_lmaster n (ground (arith, x))))
                (omega (arith, fetch-weight n)))

  pub reply_dmaster-AtMost :
      (n : N e) (l : Lock) (c : ReplyDmaster)
      → AtMost e (token (reply_dmaster c) + weight e n) (ctdb_reply_dmaster e n l c)
  unfolding ctdb_reply_dmaster token
  reply_dmaster-AtMost n l c = if-AtMost e _ (not n.attached) _ _ (λ a. omega arith) (λ a. locked l)
    where
      locked :
          (l : Lock)
          → AtMost e (token (reply_dmaster c) + weight e n) (elim l [
            | Lock.failed ↦ some n
            | Lock.contended ↦ some (record n { waiting = reply_dmaster c ∷ n.waiting })
            | Lock.got ↦ ctdb_become_dmaster e (lock n) c.reqid c.key c.body c.rsn c.record_flags
          ])
      locked Lock.failed = omega arith
      locked Lock.contended = omega (arith, waiting-weight n (reply_dmaster c))
      locked Lock.got =
          weaken-AtMost _ _ _ (become-weight e (lock n) c.reqid c.key c.body c.rsn c.record_flags)
            (omega (arith, carried-le (lock n), lock-weight n))
