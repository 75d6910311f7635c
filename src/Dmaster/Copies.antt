-- ===== src/Dmaster/Copies.antt =====
-- server/ctdb_call.c, `ctdb_reply_call`: what a read-only copy does to the ownership of the record.
use ctdb.Base.{
  ℕ, ◌+◌, ◌-◌, ◌≡◌, refl, ◌∙◌, ◌⊎◌, inl, inr, arith, Bool, true, false, not, Option, none, some,
  ◌∷◌, ◌==◌, leb, if◌then◌else◌, Bool-cases, Option-cases,
}
use ctdb.Dmaster.Header.{Header, ReplyCall, reply_call}
use ctdb.Dmaster.Node.{Env, CallState, Lock, lock, unlock}
use ctdb.Dmaster.Store.{ctdb_ltdb_store_server, ctdb_ltdb_fetch}
use ctdb.Dmaster.Call.{N, fetch_with_header_func, finish_call}
use ctdb.Dmaster.Writes.{owns, store-Stores, fetch-Fetches}
use ctdb.Dmaster.Locks.{fetch-locks}
use ctdb.Dmaster.Reply.{store_copy, take_copy, ctdb_reply_call}

module _ (e : Env) where
  -- The copy is marked as read-only and newer than the record that the node has.
  abbrev pub Newer : N e → Header → Type 0
  Newer n h =
      (h.flags.ro_have_readonly ≡ true)
      × (leb h.rsn (ctdb_ltdb_fetch e (lock n)).header.rsn ≡ false)

  -- The node is the dmaster afterwards if it was before, or as a newer copy says.
  abbrev pub Keeps : N e → ReplyCall → N e → Type 0
  Keeps n c m =
      (m.locks ≡ n.locks)
      × ((owns e m ≡ owns e n)
          ⊎ ((h : Header) × (c.delegation ≡ some h)
              × Newer n h
              × (owns e m ≡ (h.dmaster == n.pnn))))

  finish_call-owner :
      (n : N e) (reqid : ℕ) (state : CallState)
      → (owns e (finish_call e reqid state n) ≡ owns e n)
        × ((finish_call e reqid state n).locks ≡ n.locks)
  unfolding finish_call owns
  finish_call-owner n reqid state = (refl, refl)

  unlock-owner : (n : N e) → (owns e (unlock n) ≡ owns e n) × ((unlock n).locks ≡ n.locks - 1)
  unfolding unlock owns
  unlock-owner n = (refl, refl)

  lock-owner : (n : N e) → (owns e (lock n) ≡ owns e n) × ((lock n).pnn ≡ n.pnn)
  unfolding lock owns
  lock-owner n = (refl, refl)

  if-Keeps :
      (n : N e) (c : ReplyCall) (b : Bool) (x y : N e)
      → (b ≡ true → Keeps n c x)
      → (b ≡ false → Keeps n c y)
      → Keeps n c (if b then x else y)
  if-Keeps n c true x y f g = f refl
  if-Keeps n c false x y f g = g refl

  unlock-locks : (n m : N e) → m.locks ≡ n.locks + 1 → (unlock m).locks ≡ n.locks
  unlock-locks n m q = (unlock-owner m).1 ∙ omega (arith, q)

  store_copy-Keeps :
      (n : N e) (h : Header) (c : ReplyCall)
      → c.delegation ≡ some h
      → h.flags.ro_have_readonly ≡ true
      → Keeps n c (store_copy e (ctdb_ltdb_fetch e (lock n)) h c)
  unfolding store_copy
  store_copy-Keeps n h c d ro =
      let f = ctdb_ltdb_fetch e (lock n) in
      let k = fetch-Fetches e (lock n) in
      let locks = fetch-locks e n in
      let o = lock-owner n in
      let s = store-Stores e f.node h c.body in
      let m = (ctdb_ltdb_store_server e f.node h c.body).node in
      if-Keeps n c (leb h.rsn f.header.rsn) _ _
        (λ y. (unlock-locks n f.node locks, inl ((unlock-owner f.node).0 ∙ k.owned ∙ o.0)))
        (λ y. (
          unlock-locks n m (s.same.locks ∙ locks),
          elim (Bool-cases (ctdb_ltdb_store_server e f.node h c.body).ok) [
            | inl g ↦
                inr (h, d, (ro, y), (unlock-owner m).0 ∙ ground (arith, s.owned, g, k.same.pnn, o))
            | inr g ↦ inl ((unlock-owner m).0 ∙ ground (arith, s.owned, g, k.owned, o))
          ],
        ))

  unchanged-Keeps :
      (n : N e) (c : ReplyCall) (m : N e) → m.locks ≡ n.locks → owns e m ≡ owns e n → Keeps n c m
  unchanged-Keeps n c m q o = (q, inl o)

  finish_call-Keeps :
      (n m : N e) (c : ReplyCall) (state : CallState)
      → Keeps n c m
      → Keeps n c (finish_call e c.reqid state m)
  finish_call-Keeps n m c state (q, inl o) =
      let f = finish_call-owner m c.reqid state in (f.1 ∙ q, inl (f.0 ∙ o))
  finish_call-Keeps n m c state (q, inr (h, d, w, o)) =
      let f = finish_call-owner m c.reqid state in (f.1 ∙ q, inr (h, d, w, f.0 ∙ o))

  take_copy-Keeps :
      (n : N e) (l : Lock) (state : CallState) (d : Option Header) (c : ReplyCall)
      → c.delegation ≡ d
      → Keeps n c (take_copy e n l state d c)
  unfolding take_copy owns
  take_copy-Keeps n l state none c q = finish_call-Keeps n n c state (refl, inl refl)
  take_copy-Keeps n l state (some h) c q =
      if-Keeps n c (not h.flags.ro_have_readonly) _ _
        (λ y. finish_call-Keeps n n c state (refl, inl refl)) (λ y. locked l (ground (arith, y)))
    where
      locked :
          (l : Lock)
          → h.flags.ro_have_readonly ≡ true
          → Keeps n c (elim l [
            | Lock.contended ↦ record n { waiting = reply_call c ∷ n.waiting }
            | Lock.failed ↦ n
            | Lock.got ↦ finish_call e c.reqid state (store_copy e (ctdb_ltdb_fetch e (lock n)) h c)
          ])
      locked Lock.contended y = (refl, inl refl)
      locked Lock.failed y = (refl, inl refl)
      locked Lock.got y = finish_call-Keeps n _ c state (store_copy-Keeps n h c q y)

  -- An answer to a call leaves the locks as they were, and changes whether the node is the dmaster only by a
  -- read-only copy that is newer than the record that the node has: then as the header of the copy says.
  pub reply_call-Keeps : (n : N e) (l : Lock) (c : ReplyCall) → Keeps n c (ctdb_reply_call e n l c)
  unfolding ctdb_reply_call
  reply_call-Keeps n l c = elim (Option-cases (n.find_call c.reqid)) [
    | inl q ↦ rw (q, ctdb_reply_call) (refl, inl refl)
    | inr (state, q) ↦
        rw (q, ctdb_reply_call)
          (if-Keeps n c (not (c.reqid == state.reqid)) _ _ (λ y. (refl, inl refl))
            (λ y.
              if-Keeps n c (state.callid == fetch_with_header_func) _ _
                (λ g. take_copy-Keeps n l state c.delegation c refl)
                (λ g. finish_call-Keeps n n c state (refl, inl refl))))
  ]
