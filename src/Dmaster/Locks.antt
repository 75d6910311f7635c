-- ===== src/Dmaster/Locks.antt =====
-- server/ctdb_call.c: the handlers release the lock on the record that they take.
use ctdb.Base.{
  ℕ, ◌+◌, ◌-◌, ◌≡◌, refl, ◌∙◌, ap, inl, inr, arith, Bool, true, false, ◌&&◌, ◌||◌, not, Option,
  none, some, List, ◌∷◌, ◌==◌, if◌then◌else◌, Option-cases, Bool-cases,
}
use ctdb.Dmaster.Header.{
  Header, RecFlags, ReqCall, ReqDmaster, ReplyDmaster, req_dmaster, reply_dmaster,
}
use ctdb.Dmaster.Node.{Env, Lock, CallState, send, lock, unlock}
use ctdb.Dmaster.Store.{lmaster, ctdb_ltdb_store_server, Fetched, ctdb_ltdb_fetch}
use ctdb.Dmaster.Call.{
  N, new_body, ctdb_send_error, ctdb_call_local, ctdb_send_dmaster_reply, mark_migrated,
  ctdb_call_send_dmaster, ctdb_set_sticky_pindown, finish_call, run_waiting_call, owned_header,
  ctdb_become_dmaster, accept_dmaster, ctdb_request_dmaster, ctdb_reply_dmaster,
}
use ctdb.Dmaster.Writes.{store-Stores, fetch-Fetches}
use ctdb.Dmaster.Ownership.{pinned_down}

module _ (e : Env) where
  -- The handler ends the process, or leaves the node with `k` locks.
  abbrev pub Locks : ℕ → Option (N e) → Type 0
  Locks k none = Unit
  Locks k (some n) = n.locks ≡ k

  pub if-Locks :
      (k : ℕ) (b : Bool) (x y : Option (N e))
      → (b ≡ true → Locks k x)
      → (b ≡ false → Locks k y)
      → Locks k (if b then x else y)
  if-Locks k true x y f g = f refl
  if-Locks k false x y f g = g refl

  pub store-locks :
      (n : N e) (h : Header) (body : List ℕ)
      → (ctdb_ltdb_store_server e n h body).node.locks ≡ n.locks
  store-locks n h body = let s = store-Stores e n h body in s.same.locks

  pub call_local-locks :
      (n : N e) (callid : ℕ) (h : Header) (body : List ℕ)
      → (ctdb_call_local e n callid h body).node.locks ≡ n.locks
  unfolding ctdb_call_local
  call_local-locks n callid h body = elim (Option-cases (e.call_fn callid)) [
    | inl q ↦ rw (q, ctdb_call_local) refl
    | inr (fn, q) ↦ elim (Option-cases (fn h body)) [
      | inl k ↦ rw (q, ctdb_call_local, k) refl
      | inr (r, k) ↦ elim (Bool-cases (ctdb_ltdb_store_server e n h (new_body e r body)).ok) [
        | inl y ↦ rw (q, ctdb_call_local, k, y) (store-locks n h (new_body e r body))
        | inr y ↦ rw (q, ctdb_call_local, k, y) (store-locks n h (new_body e r body))
      ]
    ]
  ]

  run_waiting_call-locks :
      (n : N e) (reqid key : ℕ) (state : Option CallState) (h : Header) (body : List ℕ)
      → (run_waiting_call e n reqid key state h body).locks ≡ n.locks - 1
  unfolding run_waiting_call finish_call unlock
  run_waiting_call-locks n reqid key none h body = refl
  run_waiting_call-locks n reqid key (some state) h body =
      elim (Bool-cases ((key == state.key) && (reqid == state.reqid))) [
        | inl y ↦ rw y (ap (λ (k : ℕ). k - 1) (call_local-locks n state.callid h body))
        | inr y ↦ rw y refl
      ]

  pinned_down-locks : (n m : N e) → (pinned_down e n m).locks ≡ m.locks
  unfolding ctdb_set_sticky_pindown
  pinned_down-locks n m = elim (Bool-cases n.sticky) [
    | inr y ↦ rw y refl
    | inl y ↦ elim (Option-cases m.sticky_record) [
      | inl q ↦ rw (y, q, ctdb_set_sticky_pindown) refl
      | inr (p, q) ↦ rw (y, q, ctdb_set_sticky_pindown) refl
    ]
  ]

  become-Locks :
      (n : N e) (reqid key : ℕ) (body : List ℕ) (rsn : ℕ) (flags : RecFlags)
      → Locks (n.locks - 1) (ctdb_become_dmaster e n reqid key body rsn flags)
  unfolding ctdb_become_dmaster
  become-Locks n reqid key body rsn flags =
      let h = owned_header e n reqid rsn flags in
      let s = ctdb_ltdb_store_server e n h body in
      let m = pinned_down e n s.node in
      if-Locks _ s.ok _ _
        (λ y.
          run_waiting_call-locks m reqid key (n.find_call reqid) s.header body
          ∙ ap (λ (k : ℕ). k - 1) (pinned_down-locks n s.node ∙ store-locks n h body))
        (λ y. tt)

  dmaster_reply-Locks :
      (n : N e) (h : Header) (body : List ℕ) (d reqid : ℕ)
      → Locks n.locks (ctdb_send_dmaster_reply e n h body d reqid)
  unfolding ctdb_send_dmaster_reply send
  dmaster_reply-Locks n h body d reqid =
      let s = ctdb_ltdb_store_server e n (record h { dmaster = d }) body in
      if-Locks _ (not (n.pnn == lmaster e n)) _ _ (λ f. refl)
        (λ f.
          if-Locks _ (s.ok && n.transport) _ _ (λ y. store-locks n (record h { dmaster = d }) body)
            (λ y. tt))

  pub send_dmaster-Locks :
      (n : N e) (c : ReqCall) (h : Header) (body : List ℕ)
      → Locks n.locks (ctdb_call_send_dmaster e n c h body)
  unfolding ctdb_call_send_dmaster send
  send_dmaster-Locks n c header body =
      let h = mark_migrated e header body in
      let s = ctdb_ltdb_store_server e n (record h { dmaster = c.srcnode }) body in
      if-Locks _ (not n.transport) _ _ (λ t. tt)
        (λ t.
          if-Locks _ (lmaster e n == n.pnn) _ _
            (λ here. dmaster_reply-Locks n h body c.srcnode c.reqid)
            (λ away.
              if-Locks _ s.ok _ _ (λ y. store-locks n (record h { dmaster = c.srcnode }) body)
                (λ y. tt)))

  pub unlock-Locks :
      (k : ℕ) (o : Option (N e))
      → Locks k o
      → Locks (k - 1) (elim o [ none ↦ none | some n ↦ some (unlock n) ])
  unfolding unlock
  unlock-Locks k none a = tt
  unlock-Locks k (some n) a = ap (λ (j : ℕ). j - 1) a

  accept-Locks : (f : Fetched e) (c : ReqDmaster) → Locks (f.node.locks - 1) (accept_dmaster e f c)
  unfolding accept_dmaster unlock
  accept-Locks f c =
      if-Locks _
        (not (f.header.dmaster == c.srcnode)
          && (not (f.header.rsn == 0) || not (f.header.dmaster == f.node.pnn)))
        _ _ (λ bad. refl)
        (λ good.
          if-Locks _ (c.dmaster == f.node.pnn) _ _
            (λ me. become-Locks f.node c.reqid c.key c.body c.rsn c.record_flags)
            (λ other. unlock-Locks _ _ (
              dmaster_reply-Locks f.node
                (record { rsn = c.rsn; dmaster = f.header.dmaster; flags = c.record_flags }) c.body
                c.dmaster c.reqid)))

  lock-locks : (n : N e) → (lock n).locks ≡ n.locks + 1
  unfolding lock
  lock-locks n = refl

  pub fetch-locks : (n : N e) → (ctdb_ltdb_fetch e (lock n)).node.locks ≡ n.locks + 1
  unfolding lock
  fetch-locks n = let f = fetch-Fetches e (lock n) in f.same.locks

  if-locks :
      (b : Bool) (x y : N e) (k : ℕ) → x.locks ≡ k → y.locks ≡ k → (if b then x else y).locks ≡ k
  if-locks true x y k f g = f
  if-locks false x y k f g = g

  pub error-locks :
      (srcnode reqid : ℕ) (n : N e) → (ctdb_send_error e srcnode reqid n).locks ≡ n.locks
  unfolding ctdb_send_error send
  error-locks srcnode reqid n = if-locks n.transport _ _ n.locks refl refl

  pub lock-released :
      (k : ℕ) (n : N e) (o : Option (N e)) → k ≡ n.locks + 1 → Locks (k - 1) o → Locks n.locks o
  lock-released k n none q a = tt
  lock-released k n (some m) q a = omega (arith, q, a)

  pub request_dmaster-Locks :
      (n : N e) (l : Lock) (c : ReqDmaster) → Locks n.locks (ctdb_request_dmaster e n l c)
  unfolding ctdb_request_dmaster
  request_dmaster-Locks n l c =
      if-Locks _ (not n.attached) _ _ (λ a. error-locks c.srcnode c.reqid n) (λ a. locked l)
    where
      locked :
          (l : Lock)
          → Locks n.locks (elim l [
            | Lock.failed ↦ none
            | Lock.contended ↦ some (record n { waiting = req_dmaster c ∷ n.waiting })
            | Lock.got ↦
                if not (lmaster e n == n.pnn)
                then none
                else accept_dmaster e (ctdb_ltdb_fetch e (lock n)) c
          ])
      locked Lock.failed = tt
      locked Lock.contended = refl
      locked Lock.got =
          if-Locks _ (not (lmaster e n == n.pnn)) _ _ (λ x. tt)
            (λ x. lock-released _ n _ (fetch-locks n) (accept-Locks (ctdb_ltdb_fetch e (lock n)) c))

  pub reply_dmaster-Locks :
      (n : N e) (l : Lock) (c : ReplyDmaster) → Locks n.locks (ctdb_reply_dmaster e n l c)
  unfolding ctdb_reply_dmaster
  reply_dmaster-Locks n l c = if-Locks _ (not n.attached) _ _ (λ a. refl) (λ a. locked l)
    where
      locked :
          (l : Lock)
          → Locks n.locks (elim l [
            | Lock.failed ↦ some n
            | Lock.contended ↦ some (record n { waiting = reply_dmaster c ∷ n.waiting })
            | Lock.got ↦ ctdb_become_dmaster e (lock n) c.reqid c.key c.body c.rsn c.record_flags
          ])
      locked Lock.failed = refl
      locked Lock.contended = refl
      locked Lock.got =
          lock-released _ n _ (lock-locks n)
            (become-Locks (lock n) c.reqid c.key c.body c.rsn c.record_flags)
