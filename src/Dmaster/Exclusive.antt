-- ===== src/Dmaster/Exclusive.antt =====
-- The dmaster protocol in a cluster (server/ctdb_call.c): the record has one owner at most.
use ctdb.Base.{
  ℕ, zero, suc, ◌+◌, ◌≤◌, ◌≡◌, refl, subst, ap, inl, inr, arith, true, Option, none, some, List, [],
  ◌∷◌, ◌==◌, Option-cases, Bool-cases, get_elem?, set, All,
}
use ctdb.Dmaster.Header.{
  Packet, ReplyError, req_call, req_dmaster, reply_dmaster, reply_call, reply_error,
}
use ctdb.Dmaster.Node.{Env, Lock, send}
use ctdb.Dmaster.Call.{N, ctdb_reply_error}
use ctdb.Dmaster.Writes.{owns}
use ctdb.Dmaster.Ownership.{token, tokens, carried, owned_here, weight, AtMost, send-weight}
use ctdb.Dmaster.Handover.{request_dmaster-AtMost, reply_dmaster-AtMost}
use ctdb.Dmaster.Served.{request_call-AtMost}
use ctdb.Dmaster.Copied.{reply_call-AtMost}
use ctdb.Dmaster.Cluster.{
  destnode, remove_at, Event, arrive, retry, resume, lose, discard, ask, Cluster, ctdb_input_pkt,
  handle, handle_own, Queue, queue, dequeue, take_packet, step, run,
}

tokens-remove_at :
    (ps : List Packet) (k : ℕ) (p : Packet)
    → get_elem? ps k ≡ some p
    → token p + tokens (remove_at ps k) ≡ tokens ps
unfolding tokens remove_at
tokens-remove_at [] k p q = cc
tokens-remove_at (x ∷ ps) zero p q = ground arith
tokens-remove_at (x ∷ ps) (suc k) p q = omega (arith, tokens-remove_at ps k p q)

-- What an event adds: a request for a read-only copy counts as an owner.
unfoldable pub asked : Event → ℕ
asked (arrive i k j l) = 0
asked (retry i k l) = 0
asked (resume i k l) = 0
asked (lose i k) = 0
asked (discard i k) = 0
asked (ask i c) = token (req_call c)

module _ (e : Env) where
  unfoldable pub total : Cluster e → ℕ
  total [] = 0
  total (n ∷ c) = weight e n + total c

  total-set :
      (c : Cluster e) (i : ℕ) (n m : N e)
      → get_elem? c i ≡ some n
      → total (set c i m) + weight e n ≡ total c + weight e m
  unfolding total
  total-set [] i n m q = cc
  total-set (x ∷ c) zero n m q = let s : x ≡ n = cc in rw s (omega arith)
  total-set (x ∷ c) (suc i) n m q = omega (arith, total-set c i n m q)

  reply_error-AtMost :
      (n : N e) (c : ReplyError) → AtMost e (weight e n) (some (ctdb_reply_error e n c))
  unfolding ctdb_reply_error weight owned_here carried owns
  reply_error-AtMost n c = elim (Option-cases (n.find_call c.reqid)) [
    | inl q ↦ rw (q, ctdb_reply_error) (omega arith)
    | inr (s, q) ↦ elim (Bool-cases (c.reqid == s.reqid)) [
      | inl y ↦ rw (q, ctdb_reply_error, y) (omega arith)
      | inr y ↦ rw (q, ctdb_reply_error, y) (omega arith)
    ]
  ]

  input_pkt-AtMost :
      (n : N e) (l : Lock) (p : Packet) → AtMost e (token p + weight e n) (ctdb_input_pkt e n l p)
  unfolding ctdb_input_pkt token
  input_pkt-AtMost n l (req_call c) = request_call-AtMost e n l c
  input_pkt-AtMost n l (req_dmaster c) = request_dmaster-AtMost e n l c
  input_pkt-AtMost n l (reply_dmaster c) = reply_dmaster-AtMost e n l c
  input_pkt-AtMost n l (reply_call c) = reply_call-AtMost e n l c
  input_pkt-AtMost n l (reply_error c) = omega (arith, reply_error-AtMost n c)

  abbrev Within : ℕ → Option (Cluster e) → Type 0
  Within k none = Unit
  Within k (some c) = total c ≤ k

  handle-Within :
      (c : Cluster e) (i : ℕ) (l : Lock) (p : Packet)
      → Within (token p + total c) (handle e c i l p)
  unfolding handle
  handle-Within c i l p = elim (Option-cases (get_elem? c i)) [
    | inl q ↦ rw (q, handle) tt
    | inr (n, q) ↦ elim (Option-cases (ctdb_input_pkt e n l p)) [
      | inl r ↦ rw (q, handle, r) tt
      | inr (m, r) ↦
          let w : AtMost e (token p + weight e n) (some m) =
            subst (AtMost e (token p + weight e n)) r (input_pkt-AtMost n l p) in
          rw (q, handle, r) (omega (arith, w, total-set c i n m q))
    ]
  ]

  handle_own-Within :
      (c : Cluster e) (i : ℕ) (l : Lock) (p : Packet)
      → Within (token p + total c) (handle_own e c i l p)
  unfolding handle_own
  handle_own-Within c i l p = elim (Option-cases (get_elem? c i)) [
    | inl q ↦ rw (q, handle_own) tt
    | inr (n, q) ↦ elim (Bool-cases (n.pnn == destnode p)) [
      | inl y ↦ rw (q, handle_own, y) (handle-Within c i l p)
      | inr y ↦ rw (q, handle_own, y) tt
    ]
  ]

  dequeue-weight :
      (q : Queue e) (k : ℕ) (n : N e) (p : Packet)
      → get_elem? (queue e q n) k ≡ some p
      → token p + weight e (dequeue e q k n) ≡ weight e n
  unfolding queue dequeue weight owned_here carried owns
  dequeue-weight Queue.sent k n p h = omega (arith, tokens-remove_at n.sent k p h)
  dequeue-weight Queue.waiting k n p h = omega (arith, tokens-remove_at n.waiting k p h)
  dequeue-weight Queue.deferred k n p h = omega (arith, tokens-remove_at n.deferred k p h)

  abbrev Taken : ℕ → Option (Packet × Cluster e) → Type 0
  Taken k none = Unit
  Taken k (some (p, c)) = token p + total c ≡ k

  take_packet-Taken :
      (c : Cluster e) (i : ℕ) (q : Queue e) (k : ℕ) → Taken (total c) (take_packet e c i q k)
  unfolding take_packet
  take_packet-Taken c i q k = elim (Option-cases (get_elem? c i)) [
    | inl h ↦ rw (h, take_packet) tt
    | inr (n, h) ↦ elim (Option-cases (get_elem? (queue e q n) k)) [
      | inl g ↦ rw (h, take_packet, g) tt
      | inr (p, g) ↦
          rw (h, take_packet, g)
            (omega (arith, dequeue-weight q k n p g, total-set c i n (dequeue e q k n) h))
    ]
  ]

  after-Taken :
      (k : ℕ) (o : Option (Packet × Cluster e)) (f : Packet → Cluster e → Option (Cluster e))
      → Taken k o
      → ((p : Packet) (c : Cluster e) → Within (token p + total c) (f p c))
      → Within (0 + k) (elim o [ none ↦ none | some (p, d) ↦ f p d ])
  after-Taken k none f t h = tt
  after-Taken k (some (p, d)) f t h = subst (λ j. Within j (f p d)) (omega (arith, t)) (h p d)

  step-Within : (c : Cluster e) (x : Event) → Within (asked x + total c) (step e c x)
  unfolding step asked
  step-Within c (arrive i k j l) =
      after-Taken _ _ (λ p d. handle_own e d j l p) (take_packet-Taken c i Queue.sent k)
        (λ p d. handle_own-Within d j l p)
  step-Within c (retry i k l) =
      after-Taken _ _ (λ p d. handle e d i l p) (take_packet-Taken c i Queue.waiting k)
        (λ p d. handle-Within d i l p)
  step-Within c (resume i k l) =
      after-Taken _ _ (λ p d. handle e d i l p) (take_packet-Taken c i Queue.deferred k)
        (λ p d. handle-Within d i l p)
  step-Within c (lose i k) =
      after-Taken _ _ (λ p d. some d) (take_packet-Taken c i Queue.sent k) (λ p d. omega arith)
  step-Within c (discard i k) =
      after-Taken _ _ (λ p d. some d) (take_packet-Taken c i Queue.waiting k) (λ p d. omega arith)
  step-Within c (ask i r) = elim (Option-cases (get_elem? c i)) [
    | inl h ↦ rw (h, step) tt
    | inr (n, h) ↦
        rw (h, step)
          (omega (arith, send-weight e (req_call r) n, total-set c i n (send (req_call r) n) h))
  ]

  unfoldable pub asked_by : List Event → ℕ
  asked_by [] = 0
  asked_by (x ∷ xs) = asked x + asked_by xs

  -- However packets are ordered, delayed, requeued, deferred or lost, the number of owners of the record
  -- (nodes that have it on record as theirs, and packets that hand it over) and of read-only requests and
  -- copies on their way grows by no more than the read-only requests that the clients make meanwhile.
  pub run-total : (c : Cluster e) (xs : List Event) → total (run e c xs) ≤ total c + asked_by xs
  unfolding run asked_by
  run-total c [] = omega arith
  run-total c (x ∷ xs) = elim (Option-cases (step e c x)) [
    | inl q ↦ rw q (omega (arith, run-total c xs))
    | inr (d, q) ↦
        let w : Within (asked x + total c) (some d) =
          subst (Within (asked x + total c)) q (step-Within c x) in
        rw q (omega (arith, w, run-total d xs))
  ]

  owner-total :
      (c : Cluster e) (i : ℕ) (n : N e) → get_elem? c i ≡ some n → owns e n ≡ true → 1 ≤ total c
  unfolding total weight owned_here
  owner-total [] i n q h = cc
  owner-total (x ∷ c) zero n q h = let s : x ≡ n = cc in rw (s, h) (omega arith)
  owner-total (x ∷ c) (suc i) n q h = omega (arith, owner-total c i n q h)

  owners-total :
      (c : Cluster e) (i j : ℕ) (n m : N e)
      → get_elem? c i ≡ some n
      → get_elem? c j ≡ some m
      → owns e n ≡ true
      → owns e m ≡ true
      → total c ≤ 1
      → i ≡ j
  unfolding total weight owned_here
  owners-total [] i j n m q r h k t = cc
  owners-total (x ∷ c) zero zero n m q r h k t = refl
  owners-total (x ∷ c) zero (suc j) n m q r h k t =
      let s : x ≡ n = cc in
      let o : owned_here e x ≡ 1 = rw (s, h) refl in
      absurd (omega (arith, o, owner-total c j m r k))
  owners-total (x ∷ c) (suc i) zero n m q r h k t =
      let s : x ≡ m = cc in
      let o : owned_here e x ≡ 1 = rw (s, k) refl in
      absurd (omega (arith, o, owner-total c i n q h))
  owners-total (x ∷ c) (suc i) (suc j) n m q r h k t =
      ap suc (owners-total c i j n m q r h k (omega arith))

  abbrev pub Ordinary : Event → Type 0
  Ordinary x = asked x ≡ 0

  Ordinary-asked_by : (xs : List Event) → All Ordinary xs → asked_by xs ≡ 0
  unfolding asked_by
  Ordinary-asked_by [] h = refl
  Ordinary-asked_by (x ∷ xs) h = let hx = h.0 in omega (arith, hx, Ordinary-asked_by xs h.1)

  -- From a cluster with one owner of the record at most, counting the packets that hand it over and the
  -- read-only requests and copies on their way, no sequence of events in which no client asks for a
  -- read-only copy leads to one in which two nodes are its dmaster.
  pub run-one_owner :
      (c : Cluster e) (xs : List Event) (i j : ℕ) (n m : N e)
      → total c ≤ 1
      → All Ordinary xs
      → get_elem? (run e c xs) i ≡ some n
      → get_elem? (run e c xs) j ≡ some m
      → owns e n ≡ true
      → owns e m ≡ true
      → i ≡ j
  run-one_owner c xs i j n m one o q r h k =
      owners-total (run e c xs) i j n m q r h k
        (omega (arith, run-total c xs, Ordinary-asked_by xs o))
