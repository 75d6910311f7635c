-- ===== src/Lock/Busy.antt =====
-- server/ctdb_lock.c: no lock waits in vain.
use ctdb.Base.{
  In, ℕ, ◌+◌, ◌-◌, ◌≤◌, ◌≡◌, ◌≢◌, ◌⊎◌, refl, sym, ap, subst, inl, inr, arith, Bool, none, some,
  Option, List, [], ◌∷◌, ◌++◌, ◌==◌, leb, All, All-append, if-elim, Option-cases,
}
use ctdb.Lock.Context.{Target, LockContext, Lock, everything, lock_of, find_lock_context}
use ctdb.Lock.Schedule.{
  Locks, is_empty, max_lock_processes_per_db, scan, kept, listed, pruned, with_child, activate,
  ctdb_lock_schedule, enqueue, drop_request, remove_request, dlist_remove, new_context, get_context,
  ctdb_lock_internal, ctdb_lock_request_destructor, call_all, process_callbacks, talloc_free,
}
use ctdb.Lock.Scan.{
  Stops, Distinct, Distinct-Thinned, In-end, locks-append, enqueue-locks, scan-IsScan,
  drop_request-locks,
}
use ctdb.Lock.Orderly.{
  Orderly, unlisted, get_context-Orderly, queues-Orderly, removed-Orderly, In-Running,
  talloc_free-Running, Reached-Orderly,
}
use ctdb.Lock.Steps.{locks, Blocked, Starts, Succeeds, Reached, start, lock, withdraw, answer, free}

-- As many children run as allowed, or each pending context is without requests, or a child has its lock or waits
-- for it.
abbrev pub Busy : Locks → Type 0
Busy s =
    (s.lock_num_current ≡ max_lock_processes_per_db)
    ⊎ All (Blocked (locks s.lock_current)) s.lock_pending

-- At most the contexts of one lock can be given a child.
abbrev OneFree : Lock → List Lock → List LockContext → Type 0
OneFree l held = All (λ c. Blocked held c ⊎ (lock_of c.target ≡ l))

-- Full, or free for one lock only, or one child short.
abbrev Nearly : Lock → Locks → Type 0
Nearly l s =
    (max_lock_processes_per_db ≤ s.lock_num_current + 1)
    ⊎ OneFree l (locks s.lock_current) s.lock_pending

Blocked-end :
    (l : Lock) (held : List Lock) (cs : List LockContext)
    → All (Blocked held) cs
    → All (Blocked (held ++ l ∷ [])) cs
Blocked-end l held [] h = tt
Blocked-end l held (c ∷ cs) (inl empty, h) = (inl empty, Blocked-end l held cs h)
Blocked-end l held (c ∷ cs) (inr i, h) =
    (inr (In-end (lock_of c.target) l held i), Blocked-end l held cs h)

-- The others of a list of different locks are not the one lock.
others-Blocked :
    (l : Lock) (held : List Lock) (cs : List LockContext)
    → All (λ k. k ≢ l) (locks cs)
    → OneFree l held cs
    → All (Blocked held) cs
others-Blocked l held [] d h = tt
others-Blocked l held (c ∷ cs) d (inl b, h) = (b, others-Blocked l held cs d.1 h)
others-Blocked l held (c ∷ cs) d (inr e, h) = absurd (d.0 e)

OneFree-scan :
    (l : Lock) (current cs : List LockContext)
    → OneFree l (locks current) cs
    → OneFree l (locks current) (kept (scan current cs))
unfolding scan
OneFree-scan l current [] h = tt
OneFree-scan l current (c ∷ cs) h =
    let rest = OneFree-scan l current cs h.1 in
    if-elim (λ r. OneFree l (locks current) (kept r)) (is_empty c.req_queue) _ _ (λ _. rest)
      (λ _. elim (Option-cases (find_lock_context current c.target)) [
        | inl fresh ↦ rw fresh h
        | inr (active, found) ↦ rw found (h.0, rest)
      ])

Distinct-after :
    (before after : List LockContext) (c : LockContext)
    → Distinct (locks (before ++ c ∷ after))
    → All (λ k. k ≢ lock_of c.target) (locks after)
Distinct-after [] after c d = d.0
Distinct-after (b ∷ before) after c d = Distinct-after before after c d.1

All-after {ℓ} :
    (P : LockContext → Type ℓ) (before after : List LockContext)
    → All P (before ++ after)
    → All P after
All-after P [] after h = h
All-after P (b ∷ before) after h = All-after P before after h.1

module _ (starts : Starts) (succeeds : Succeeds starts) where
  activate-Busy :
      (l : Lock) (before after removed : List LockContext) (picked : Option LockContext) (s : Locks)
      → Distinct (locks (before ++ (listed picked ++ after)))
      → s.lock_pending ≡ before ++ (listed picked ++ after)
      → All (Blocked (locks s.lock_current)) before
      → (picked ≡ none → after ≡ [])
      → Stops (locks s.lock_current) picked
      → s.lock_num_current + 1 ≤ max_lock_processes_per_db
      → (max_lock_processes_per_db ≤ s.lock_num_current + 1)
        ⊎ OneFree l (locks s.lock_current) (before ++ (listed picked ++ after))
      → Busy (
          activate starts
            (record { before = before; picked = picked; after = after; removed = removed })
            s)
  unfolding activate
  activate-Busy l before after removed none s d e passed at_end stops room one =
      let held = locks s.lock_current in
      let rest : All (Blocked held) after = subst (All (Blocked held)) (sym (at_end refl)) tt in
      inr (subst (All (Blocked held)) (sym e) (All-append (Blocked held) before after passed rest))
  activate-Busy l before after removed (some c) s d e passed at_end stops room one =
      let held = locks s.lock_current in
      let (pid, child) = succeeds c in
      let after_start : Locks = record s {
        lock_pending = before ++ after;
        lock_num_pending = s.lock_num_pending - 1;
        lock_current = s.lock_current ++ with_child pid c ∷ [];
        lock_num_current = s.lock_num_current + 1;
      } in
      let result : Busy after_start = elim one [
        | inl full ↦ inl (omega (arith, room))
        | inr free_one ↦
            let (mine, others) = All-after _ before (c ∷ after) free_one in
            let same : lock_of c.target ≡ l = elim mine [
              | inl (inl empty) ↦ absurd (stops.0 empty)
              | inl (inr has) ↦ absurd (stops.1 has)
              | inr same ↦ same
            ] in
            let different =
              subst (λ k. All (λ j. j ≢ k) (locks after)) same (Distinct-after before after c d) in
            let rest = others-Blocked l held after different others in
            inr (
              subst (λ ls. All (Blocked ls) (before ++ after))
                (sym (locks-append s.lock_current (with_child pid c ∷ [])))
                (Blocked-end (lock_of c.target) held (before ++ after)
                  (All-append (Blocked held) before after passed rest)))
      ] in
      rw (child, activate) result

  schedule-Busy :
      (l : Lock) (s : Locks) → Orderly s → Nearly l s → Busy (ctdb_lock_schedule starts s)
  unfolding ctdb_lock_schedule
  schedule-Busy l s o near =
      if-elim Busy (leb max_lock_processes_per_db s.lock_num_current) _ _
        (λ full. inl (ground (arith, full, o.bounded)))
        (λ room.
          let r = scan s.lock_current s.lock_pending in
          let sc = scan-IsScan s.lock_current s.lock_pending in
          activate-Busy l r.before r.after r.removed r.picked (pruned r s)
            (Distinct-Thinned sc.thinned o.pending_distinct) refl sc.passed sc.at_end sc.stops
            (ground (arith, room))
            (elim near [
              | inl short ↦ inl short
              | inr one ↦ inr (OneFree-scan l s.lock_current s.lock_pending one)
            ]))

all_one :
    (l : Lock) (held : List Lock) (cs : List LockContext)
    → All (Blocked held) cs
    → OneFree l held cs
all_one l held [] h = tt
all_one l held (c ∷ cs) h = (inl h.0, all_one l held cs h.1)

-- A request that comes makes one lock free at most.
enqueue-OneFree :
    (held : List Lock) (id request : ℕ) (cs : List LockContext)
    → All (Blocked held) cs
    → (l : Lock) × OneFree l held (enqueue id request cs)
unfolding enqueue
enqueue-OneFree held id request [] h = (everything, tt)
enqueue-OneFree held id request (c ∷ cs) h =
    let (l, rest) = enqueue-OneFree held id request cs h.1 in
    if-elim (λ xs. (l : Lock) × OneFree l held xs) (c.id == id) _ _
      (λ _. (lock_of c.target, (inr refl, all_one (lock_of c.target) held cs h.1)))
      (λ _. (l, (inl h.0, rest)))

-- So does a context that is taken off the list.
dlist_remove-In :
    (id : ℕ) (cs : List LockContext)
    → (l : Lock) × ((k : Lock) → In k (locks cs) → In k (locks (dlist_remove id cs)) ⊎ (k ≡ l))
unfolding dlist_remove
dlist_remove-In id [] = (everything, λ k i. inl i)
dlist_remove-In id (c ∷ cs) =
    if-elim (λ xs. (l : Lock) × ((k : Lock) → In k (locks (c ∷ cs)) → In k (locks xs) ⊎ (k ≡ l)))
      (c.id == id) _ _
      (λ _. (lock_of c.target, λ k i. elim i [ inl e ↦ inr (sym e) | inr later ↦ inl later ]))
      (λ _.
        let (l, rest) = dlist_remove-In id cs in
        (
          l,
          λ k i. elim i [
            | inl e ↦ inl (inl e)
            | inr later ↦ elim (rest k later) [ inl still ↦ inl (inr still) | inr gone ↦ inr gone ]
          ],
        ))

removed-OneFree :
    (l : Lock) (held left : List Lock) (cs : List LockContext)
    → ((k : Lock) → In k held → In k left ⊎ (k ≡ l))
    → All (Blocked held) cs
    → OneFree l left cs
removed-OneFree l held left [] f h = tt
removed-OneFree l held left (c ∷ cs) f (inl empty, h) =
    (inl (inl empty), removed-OneFree l held left cs f h)
removed-OneFree l held left (c ∷ cs) f (inr i, h) = (
  elim (f (lock_of c.target) i) [ inl still ↦ inl (inr still) | inr gone ↦ inr gone ],
  removed-OneFree l held left cs f h,
)

drop_request-Blocked :
    (held : List Lock) (id request : ℕ) (cs : List LockContext)
    → All (Blocked held) cs
    → All (Blocked held) (drop_request id request cs)
unfolding drop_request
drop_request-Blocked held id request [] h = tt
drop_request-Blocked held id request (c ∷ cs) (b, h) =
    if-elim (All (Blocked held)) (c.id == id) _ _
      (λ _. (elim b [ inl empty ↦ inl (ap (remove_request request) empty) | inr i ↦ inr i ], h))
      (λ _. (b, drop_request-Blocked held id request cs h))

get_context-Busy :
    (t : Target) (auto_mark : Bool) (s : Locks) → Busy s → Busy (get_context t auto_mark s).1
unfolding get_context
get_context-Busy t auto_mark s b = elim (Option-cases (find_lock_context s.lock_pending t)) [
  | inr (c, found) ↦ rw (found, get_context) b
  | inl fresh ↦
      rw (fresh, get_context)
        (elim b [
          | inl full ↦ inl full
          | inr all ↦ inr (
              All-append _ s.lock_pending (new_context s.next_id t auto_mark ∷ []) all
                (inl refl, tt))
        ])
]

call_all-Busy : (locked : Bool) (rs : List ℕ) (s : Locks) → Busy s → Busy (call_all locked rs s)
unfolding call_all
call_all-Busy locked [] s b = b
call_all-Busy locked (r ∷ rs) s b =
    call_all-Busy locked rs (record s { called = s.called ++ (r, locked) ∷ [] }) b

free-Busy :
    (starts : Starts) (c : LockContext) (s : Locks)
    → Succeeds starts
    → In c s.lock_current
    → Orderly s
    → Busy s
    → Busy (talloc_free starts c s)
free-Busy starts c s succeeds i o b =
    let (l, lost) = dlist_remove-In c.id s.lock_current in
    let near : Nearly l (unlisted c s) = elim b [
      | inl full ↦ inl (omega (arith, full))
      | inr all ↦ inr (
          removed-OneFree l (locks s.lock_current) (locks (unlisted c s).lock_current)
            s.lock_pending lost all)
    ] in
    subst Busy (sym (talloc_free-Running starts c s (In-Running c s.lock_current i o.running)))
      (schedule-Busy starts succeeds l (unlisted c s) (removed-Orderly c s i o) near)

lock-Busy :
    (starts : Starts) (t : Target) (auto_mark : Bool) (request : ℕ) (s : Locks)
    → Succeeds starts
    → Orderly s
    → Busy s
    → Busy (ctdb_lock_internal starts t auto_mark request s).1
unfolding ctdb_lock_internal
lock-Busy starts t auto_mark request s succeeds o b =
    let (id, s') = get_context t auto_mark s in
    let o' : Orderly s' = get_context-Orderly t auto_mark s o in
    let b' : Busy s' = get_context-Busy t auto_mark s b in
    let queued = record s' { lock_pending = enqueue id request s'.lock_pending } in
    let held = locks s'.lock_current in
    let orderly : Orderly queued =
      queues-Orderly s' s'.lock_current _ refl (enqueue-locks id request s'.lock_pending) o'.running
        o' in
    elim b' [
      | inl full ↦
          schedule-Busy starts succeeds everything queued orderly (inl (omega (arith, full)))
      | inr all ↦
          let (l, one) = enqueue-OneFree held id request s'.lock_pending all in
          schedule-Busy starts succeeds l queued orderly (inr one)
    ]

withdraw-Busy :
    (lctx request : ℕ) (s : Locks) → Busy s → Busy (ctdb_lock_request_destructor lctx request s)
unfolding ctdb_lock_request_destructor
withdraw-Busy lctx request s b = elim b [
  | inl full ↦ inl full
  | inr all ↦ inr (
      subst (λ ls. All (Blocked ls) (drop_request lctx request s.lock_pending))
        (sym (drop_request-locks lctx request s.lock_current))
        (drop_request-Blocked (locks s.lock_current) lctx request s.lock_pending all))
]

-- When the children can always be started, then in every state that can be reached 100 children run, or each pending
-- context has no request, or a child has the same lock or waits for it.
pub Reached-Busy : {s : Locks} → Reached Succeeds s → Busy s
unfolding process_callbacks
Reached-Busy start = inr tt
Reached-Busy (lock {s} starts t auto_mark request m r) =
    lock-Busy starts t auto_mark request s m (Reached-Orderly r) (Reached-Busy r)
Reached-Busy (withdraw {s} lctx request r) = withdraw-Busy lctx request s (Reached-Busy r)
Reached-Busy (answer {s} c locked i r) = call_all-Busy locked c.req_queue s (Reached-Busy r)
Reached-Busy (free {s} starts c m i r) =
    free-Busy starts c s m i (Reached-Orderly r) (Reached-Busy r)
