-- ===== src/Lock/Dangling.antt =====
-- server/ctdb_lock.c: a request that is given up while its context is pending.
use ctdb.Base.{
  In, ℕ, ◌+◌, ◌≡◌, refl, sym, ap, ◌∙◌, subst, inl, inr, arith, Bool, none, List, [], ◌∷◌, ◌++◌,
  ◌==◌, leb, if-elim,
}
use ctdb.Lock.Context.{Target, LockContext, find_lock_context}
use ctdb.Lock.Schedule.{
  Locks, max_lock_processes_per_db, ids, ctdb_lock_schedule, enqueue, new_context, get_context,
  ctdb_lock_internal, drop_request, ctdb_lock_free_request_context,
}
use ctdb.Lock.Steps.{Starts}

ids-enqueue : (id request : ℕ) (cs : List LockContext) → ids (enqueue id request cs) ≡ ids cs
unfolding enqueue
ids-enqueue id request [] = refl
ids-enqueue id request (c ∷ cs) =
    if-elim (λ xs. ids xs ≡ ids (c ∷ cs)) (c.id == id) _ _ (λ _. refl)
      (λ _. ap (◌∷◌ c.id) (ids-enqueue id request cs))

ids-drop_request :
    (id request : ℕ) (cs : List LockContext) → ids (drop_request id request cs) ≡ ids cs
unfolding drop_request
ids-drop_request id request [] = refl
ids-drop_request id request (c ∷ cs) =
    if-elim (λ xs. ids xs ≡ ids (c ∷ cs)) (c.id == id) _ _ (λ _. refl)
      (λ _. ap (◌∷◌ c.id) (ids-drop_request id request cs))

In-end : (c : LockContext) (cs : List LockContext) → In c.id (ids (cs ++ c ∷ []))
In-end c [] = inl refl
In-end c (d ∷ cs) = inr (In-end c cs)

abbrev with_new : Target → Bool → Locks → Locks
with_new t auto_mark s = record s {
  lock_pending = s.lock_pending ++ new_context s.next_id t auto_mark ∷ [];
  lock_num_pending = s.lock_num_pending + 1;
  next_id = s.next_id + 1;
}

abbrev asked_for : Target → Bool → ℕ → Locks → Locks
asked_for t auto_mark request s =
    let s' = with_new t auto_mark s in
    record s' { lock_pending = enqueue s.next_id request s'.lock_pending }

schedule_full :
    (starts : Starts) (s : Locks)
    → s.lock_num_current ≡ max_lock_processes_per_db
    → ctdb_lock_schedule starts s ≡ s
unfolding ctdb_lock_schedule
schedule_full starts s full =
    if-elim (λ x. x ≡ s) (leb max_lock_processes_per_db s.lock_num_current) _ _ (λ _. refl)
      (λ room. absurd (ground (arith, room, full)))

get_context-fresh :
    (t : Target) (auto_mark : Bool) (s : Locks)
    → find_lock_context s.lock_pending t ≡ none
    → get_context t auto_mark s ≡ (s.next_id, with_new t auto_mark s)
unfolding get_context
get_context-fresh t auto_mark s fresh = rw (fresh, get_context) refl

lock_internal_full :
    (starts : Starts) (t : Target) (auto_mark : Bool) (request : ℕ) (s : Locks)
    → s.lock_num_current ≡ max_lock_processes_per_db
    → find_lock_context s.lock_pending t ≡ none
    → (ctdb_lock_internal starts t auto_mark request s).1 ≡ asked_for t auto_mark request s
unfolding ctdb_lock_internal
lock_internal_full starts t auto_mark request s full fresh =
    ap
      (λ (p : ℕ × Locks).
        ctdb_lock_schedule starts
          (record p.1 { lock_pending = enqueue p.0 request p.1.lock_pending }))
      (get_context-fresh t auto_mark s fresh)
    ∙ schedule_full starts (asked_for t auto_mark request s) full

-- When as many children run as allowed and a lock is asked for that no pending context stands for, and the request is
-- given up with its context before a child is started for it, then the context is freed and stays in the list of the
-- pending contexts.
pub lock-free_request_context-dangling :
    (starts : Starts) (t : Target) (auto_mark : Bool) (request : ℕ) (s : Locks)
    → s.lock_num_current ≡ max_lock_processes_per_db
    → find_lock_context s.lock_pending t ≡ none
    → (let asked = (ctdb_lock_internal starts t auto_mark request s).1 in
        let given_up =
          ctdb_lock_free_request_context starts (new_context s.next_id t auto_mark) request asked in
        In s.next_id (ids given_up.lock_pending) × In s.next_id given_up.freed)
unfolding ctdb_lock_free_request_context
lock-free_request_context-dangling starts t auto_mark request s full fresh =
    let c = new_context s.next_id t auto_mark in
    let asked = asked_for t auto_mark request s in
    subst
      (λ x.
        let y = ctdb_lock_free_request_context starts c request x in
        In s.next_id (ids y.lock_pending) × In s.next_id y.freed)
      (sym (lock_internal_full starts t auto_mark request s full fresh))
      (
        subst (In s.next_id)
            (sym (
              ids-drop_request s.next_id request asked.lock_pending
              ∙ ids-enqueue s.next_id request (s.lock_pending ++ c ∷ [])))
            (In-end c s.lock_pending),
        inl refl,
      )
