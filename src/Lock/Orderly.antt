-- ===== src/Lock/Orderly.antt =====
-- server/ctdb_lock.c: what holds of the two lists of contexts in every state.
use ctdb.Base.{
  In, ℕ, ◌+◌, ◌-◌, ◌≤◌, ◌≡◌, refl, sym, ap, ◌∙◌, subst, inl, inr, arith, Bool, true, none, some,
  Option, List, [], ◌∷◌, ◌++◌, ◌==◌, leb, All, length, if◌then◌else◌, if-elim, Option-cases,
}
use ctdb.Lock.Context.{Target, LockContext, lock_of, find_lock_context}
use ctdb.Lock.Schedule.{
  Locks, max_lock_processes_per_db, scan, length_of, listed, pruned, with_child, has_child,
  activate, ctdb_lock_schedule, drop_request, dlist_remove, new_context, get_context,
  ctdb_lock_internal, ctdb_lock_request_destructor, call_all, process_callbacks,
  ctdb_lock_context_destructor, talloc_free,
}
use ctdb.Lock.Scan.{
  Stops, Thinned, keep, skip, Thinned-refl, Distinct, Distinct-Thinned, Distinct-end, locks-append,
  length_of-append, find_lock_context-none, scan-IsScan, dlist_remove-Thinned, enqueue-locks,
  drop_request-locks,
}
use ctdb.Lock.Steps.{locks, Starts, Reached, start, lock, withdraw, answer, free}

-- An active context has a child, and is taken off the list when it is freed.
abbrev pub Running : LockContext → Type 0
Running c = (has_child c ≡ true) × (c.has_destructor ≡ true)

-- The counters are the lengths of the lists, no more children run than allowed, no two of them wait for the same
-- lock, and no two pending contexts stand for the same lock.
pub record Orderly (s : Locks) : Type 0 where
  pub current_counted : s.lock_num_current ≡ length_of s.lock_current
  pub pending_counted : s.lock_num_pending ≡ length_of s.lock_pending
  pub bounded : s.lock_num_current ≤ max_lock_processes_per_db
  pub current_distinct : Distinct (locks s.lock_current)
  pub pending_distinct : Distinct (locks s.lock_pending)
  pub running : All Running s.lock_current

length_of-locks : (cs : List LockContext) → length (locks cs) ≡ length_of cs
length_of-locks [] = refl
length_of-locks (c ∷ cs) = omega (arith, length_of-locks cs)

-- Lists with the same locks are as long.
pub length_of_same : (xs ys : List LockContext) → locks xs ≡ locks ys → length_of xs ≡ length_of ys
length_of_same xs ys e = omega (arith, length_of-locks xs, length_of-locks ys, ap length e)

Thinned-middle :
    (before after : List LockContext) (c : LockContext)
    → Thinned (locks (before ++ after)) (locks (before ++ c ∷ after))
Thinned-middle [] after c = skip (lock_of c.target) (Thinned-refl (locks after))
Thinned-middle (b ∷ before) after c = keep (lock_of b.target) (Thinned-middle before after c)

All_end :
    (P : LockContext → Type 0) (cs : List LockContext) (c : LockContext)
    → All P cs
    → P c
    → All P (cs ++ c ∷ [])
All_end P [] c h p = (p, tt)
All_end P (x ∷ cs) c h p = (h.0, All_end P cs c h.1 p)

pruned-Orderly : (s : Locks) → Orderly s → Orderly (pruned (scan s.lock_current s.lock_pending) s)
pruned-Orderly s o =
    let sc = scan-IsScan s.lock_current s.lock_pending in
    record {
      current_counted = o.current_counted;
      pending_counted = omega (arith, o.pending_counted, sc.counted);
      bounded = o.bounded;
      current_distinct = o.current_distinct;
      pending_distinct = Distinct-Thinned sc.thinned o.pending_distinct;
      running = o.running;
    }

module _ (starts : Starts) where
  activate-Orderly :
      (before after removed : List LockContext) (picked : Option LockContext) (s : Locks)
      → Orderly s
      → s.lock_pending ≡ before ++ (listed picked ++ after)
      → s.lock_num_current + 1 ≤ max_lock_processes_per_db
      → Stops (locks s.lock_current) picked
      → Orderly (
          activate starts
            (record { before = before; picked = picked; after = after; removed = removed })
            s)
  unfolding activate
  activate-Orderly before after removed none s o e room stops = o
  activate-Orderly before after removed (some c) s o e room stops = elim (Option-cases (starts c)) [
    | inl failed ↦ rw (failed, activate) o
    | inr (pid, child) ↦
        rw (child, activate)
          (record {
            current_counted =
                omega (
                  arith,
                  o.current_counted,
                  length_of-append s.lock_current (with_child pid c ∷ []),
                );
            pending_counted = omega (
              arith,
              o.pending_counted,
              ap length_of e,
              length_of-append before (c ∷ after),
              length_of-append before after,
            );
            bounded = room;
            current_distinct =
                subst Distinct (sym (locks-append s.lock_current (with_child pid c ∷ []))) (
                  Distinct-end (locks s.lock_current) (lock_of c.target) o.current_distinct
                    stops.1);
            pending_distinct =
                Distinct-Thinned (Thinned-middle before after c)
                  (subst (λ cs. Distinct (locks cs)) e o.pending_distinct);
            running = All_end Running s.lock_current (with_child pid c) o.running (refl, refl);
          })
  ]

  pub schedule-Orderly : (s : Locks) → Orderly s → Orderly (ctdb_lock_schedule starts s)
  unfolding ctdb_lock_schedule
  schedule-Orderly s o =
      if-elim Orderly (leb max_lock_processes_per_db s.lock_num_current) _ _ (λ _. o)
        (λ room.
          let r = scan s.lock_current s.lock_pending in
          activate-Orderly r.before r.after r.removed r.picked (pruned r s) (pruned-Orderly s o)
            refl (ground (arith, room)) (scan-IsScan s.lock_current s.lock_pending).stops)

-- The change of the queues of the contexts keeps the order.
pub queues-Orderly :
    (s : Locks) (current pending : List LockContext)
    → locks current ≡ locks s.lock_current
    → locks pending ≡ locks s.lock_pending
    → All Running current
    → Orderly s
    → Orderly (record s { lock_current = current; lock_pending = pending })
queues-Orderly s current pending e f running o = record {
  current_counted = omega (arith, o.current_counted, length_of_same current s.lock_current e);
  pending_counted = omega (arith, o.pending_counted, length_of_same pending s.lock_pending f);
  bounded = o.bounded;
  current_distinct = subst Distinct (sym e) o.current_distinct;
  pending_distinct = subst Distinct (sym f) o.pending_distinct;
  running = running;
}

drop_request-Running :
    (id request : ℕ) (cs : List LockContext)
    → All Running cs
    → All Running (drop_request id request cs)
unfolding drop_request
drop_request-Running id request [] h = tt
drop_request-Running id request (c ∷ cs) h =
    if-elim (All Running) (c.id == id) _ _ (λ _. (h.0, h.1))
      (λ _. (h.0, drop_request-Running id request cs h.1))

pub get_context-Orderly :
    (t : Target) (auto_mark : Bool) (s : Locks) → Orderly s → Orderly (get_context t auto_mark s).1
unfolding get_context
get_context-Orderly t auto_mark s o = elim (Option-cases (find_lock_context s.lock_pending t)) [
  | inr (c, found) ↦ rw (found, get_context) o
  | inl fresh ↦
      rw (fresh, get_context)
        (record {
          current_counted = o.current_counted;
          pending_counted = omega (
            arith,
            o.pending_counted,
            length_of-append s.lock_pending (new_context s.next_id t auto_mark ∷ []),
          );
          bounded = o.bounded;
          current_distinct = o.current_distinct;
          pending_distinct =
              subst Distinct
                (sym (locks-append s.lock_pending (new_context s.next_id t auto_mark ∷ [])))
                (Distinct-end (locks s.lock_pending) (lock_of t) o.pending_distinct
                  (find_lock_context-none s.lock_pending t fresh));
          running = o.running;
        })
]

dlist_remove-count :
    (c : LockContext) (cs : List LockContext)
    → In c cs
    → length_of (dlist_remove c.id cs) + 1 ≡ length_of cs
unfolding dlist_remove
dlist_remove-count c [] i = elim i [ ]
dlist_remove-count c (d ∷ cs) i =
    if-elim (λ xs. length_of xs + 1 ≡ length_of (d ∷ cs)) (d.id == c.id) _ _ (λ _. refl)
      (λ other. elim i [
        | inl same ↦ absurd (ground (arith, other, ap (λ (x : LockContext). x.id) same))
        | inr later ↦ omega (arith, dlist_remove-count c cs later)
      ])

dlist_remove-Running :
    (id : ℕ) (cs : List LockContext) → All Running cs → All Running (dlist_remove id cs)
unfolding dlist_remove
dlist_remove-Running id [] h = tt
dlist_remove-Running id (c ∷ cs) h =
    if-elim (All Running) (c.id == id) _ _ (λ _. h.1) (λ _. (h.0, dlist_remove-Running id cs h.1))

pub In-Running : (c : LockContext) (cs : List LockContext) → In c cs → All Running cs → Running c
In-Running c [] i h = elim i [ ]
In-Running c (d ∷ cs) (inl same) h = subst Running same h.0
In-Running c (d ∷ cs) (inr later) h = In-Running c cs later h.1

abbrev pub unlisted : LockContext → Locks → Locks
unlisted c s = record s {
  lock_current = dlist_remove c.id s.lock_current;
  lock_num_current = s.lock_num_current - 1;
}

-- An active context is taken off the list.
pub removed-Orderly :
    (c : LockContext) (s : Locks) → In c s.lock_current → Orderly s → Orderly (unlisted c s)
removed-Orderly c s i o =
    let n = dlist_remove-count c s.lock_current i in
    record {
      current_counted = omega (arith, o.current_counted, n);
      pending_counted = o.pending_counted;
      bounded = omega (arith, o.bounded);
      current_distinct =
          Distinct-Thinned (dlist_remove-Thinned c.id s.lock_current) o.current_distinct;
      pending_distinct = o.pending_distinct;
      running = dlist_remove-Running c.id s.lock_current o.running;
    }

-- A running context is taken off the list before the scheduler runs.
pub talloc_free-Running :
    (starts : Starts) (c : LockContext) (s : Locks)
    → Running c
    → talloc_free starts c s
      ≡ (let t = ctdb_lock_schedule starts (unlisted c s) in record t { freed = c.id ∷ t.freed })
unfolding talloc_free
talloc_free-Running starts c s (child, destructor) =
    let ending : Locks → Locks = λ t. record t { freed = c.id ∷ t.freed } in
    ap (λ b. ending (if b then ctdb_lock_context_destructor starts c s else s)) destructor
    ∙ ap
        (λ b. ending (
          if b
          then ctdb_lock_schedule starts (unlisted c s)
          else ctdb_lock_schedule starts (record s {
            lock_pending = dlist_remove c.id s.lock_pending;
            lock_num_pending = s.lock_num_pending - 1;
          })))
        child

freed-Orderly : (id : ℕ) (s : Locks) → Orderly s → Orderly (record s { freed = id ∷ s.freed })
freed-Orderly id s o = record {
  current_counted = o.current_counted;
  pending_counted = o.pending_counted;
  bounded = o.bounded;
  current_distinct = o.current_distinct;
  pending_distinct = o.pending_distinct;
  running = o.running;
}

talloc_free-Orderly :
    (starts : Starts) (c : LockContext) (s : Locks)
    → In c s.lock_current
    → Orderly s
    → Orderly (talloc_free starts c s)
talloc_free-Orderly starts c s i o =
    subst Orderly (sym (talloc_free-Running starts c s (In-Running c s.lock_current i o.running)))
      (freed-Orderly c.id _ (schedule-Orderly starts _ (removed-Orderly c s i o)))

call_all-Orderly :
    (locked : Bool) (rs : List ℕ) (s : Locks) → Orderly s → Orderly (call_all locked rs s)
unfolding call_all
call_all-Orderly locked [] s o = o
call_all-Orderly locked (r ∷ rs) s o = call_all-Orderly locked rs _ (record {
  current_counted = o.current_counted;
  pending_counted = o.pending_counted;
  bounded = o.bounded;
  current_distinct = o.current_distinct;
  pending_distinct = o.pending_distinct;
  running = o.running;
})

-- In every state that can be reached, the counters are the lengths of the lists, at most 100 children run, no two
-- children wait for the same lock, no two pending contexts stand for the same lock, and each active context has a
-- child and a destructor.
pub Reached-Orderly : {Meets : Starts → Type 0} {s : Locks} → Reached Meets s → Orderly s
unfolding ctdb_lock_internal ctdb_lock_request_destructor process_callbacks
Reached-Orderly start = record {
  current_counted = refl;
  pending_counted = refl;
  bounded = omega arith;
  current_distinct = tt;
  pending_distinct = tt;
  running = tt;
}
Reached-Orderly (lock {s} starts t auto_mark request m r) =
    let o = get_context-Orderly t auto_mark s (Reached-Orderly r) in
    let s' = (get_context t auto_mark s).1 in
    schedule-Orderly starts _ (
      queues-Orderly s' s'.lock_current _ refl (enqueue-locks _ request s'.lock_pending) o.running
        o)
Reached-Orderly (withdraw {s} lctx request r) =
    let o = Reached-Orderly r in
    queues-Orderly s _ _ (drop_request-locks lctx request s.lock_current)
      (drop_request-locks lctx request s.lock_pending)
      (drop_request-Running lctx request s.lock_current o.running) o
Reached-Orderly (answer {s} c locked i r) =
    call_all-Orderly locked c.req_queue s (Reached-Orderly r)
Reached-Orderly (free {s} starts c m i r) = talloc_free-Orderly starts c s i (Reached-Orderly r)
