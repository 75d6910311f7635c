-- ===== src/Lock/Schedule.antt =====
-- server/ctdb_lock.c: ctdb_lock_schedule, the requests for locks, and the end of a context.
use ctdb.Base.{
  ℕ, ◌+◌, ◌-◌, Bool, true, false, not, none, some, Option, List, [], ◌∷◌, ◌++◌, ◌==◌, leb,
  if◌then◌else◌,
}
use ctdb.Lock.Context.{
  lock_record, lock_db, lock_alldb_prio, lock_alldb, Target, LockContext, find_lock_context,
}

abbrev pub max_lock_processes_per_db : ℕ
max_lock_processes_per_db = 100

-- The part of `struct ctdb_context` that is about locks, the contexts that were freed, and the callbacks that
-- were called. `next_id` is the address that the next context gets.
pub record Locks : Type 0 where
  pub lock_num_current : ℕ
  pub lock_num_pending : ℕ
  pub lock_current : List LockContext
  pub lock_pending : List LockContext
  pub next_id : ℕ
  pub freed : List ℕ
  pub called : List (ℕ × Bool)

abbrev pub is_empty {ℓ} : {A : Type ℓ} → List A → Bool
is_empty [] = true
is_empty (x ∷ xs) = false

-- The loop of ctdb_lock_schedule: what it goes past, the context at which it stops, what comes after it, and the
-- contexts without requests that it removes on its way.
pub record Scan : Type 0 where
  pub before : List LockContext
  pub picked : Option LockContext
  pub after : List LockContext
  pub removed : List LockContext

unfoldable pub scan : List LockContext → List LockContext → Scan
scan current [] = record { before = []; picked = none; after = []; removed = [] }
scan current (c ∷ cs) =
    let rest = scan current cs in
    if is_empty c.req_queue
    then record rest { removed = c ∷ rest.removed }
    else elim (find_lock_context current c.target) [
      | none ↦ record { before = []; picked = some c; after = cs; removed = [] }
      | some active ↦ record rest { before = c ∷ rest.before }
    ]

abbrev pub length_of : List LockContext → ℕ
length_of [] = 0
length_of (c ∷ cs) = length_of cs + 1

abbrev pub ids : List LockContext → List ℕ
ids [] = []
ids (c ∷ cs) = c.id ∷ ids cs

abbrev pub with_child : ℕ → LockContext → LockContext
with_child pid c = record c { child = some pid; has_destructor = true }

-- The end of ctdb_lock_schedule: `starts` is the pid of the child that is set up for a context, or `none` when
-- a system call fails, after which the context has no child and stays pending.
unfoldable pub activate : (LockContext → Option ℕ) → Scan → Locks → Locks
activate starts r s = elim r.picked [
  | none ↦ s
  | some c ↦ elim (starts c) [
    | none ↦ s
    | some pid ↦ record s {
      lock_pending = r.before ++ r.after;
      lock_num_pending = s.lock_num_pending - 1;
      lock_current = s.lock_current ++ with_child pid c ∷ [];
      lock_num_current = s.lock_num_current + 1;
    }
  ]
]

abbrev pub listed : Option LockContext → List LockContext
listed none = []
listed (some c) = c ∷ []

-- The pending list once the contexts without requests are removed.
abbrev pub kept : Scan → List LockContext
kept r = r.before ++ (listed r.picked ++ r.after)

abbrev pub pruned : Scan → Locks → Locks
pruned r s = record s {
  lock_pending = kept r;
  lock_num_pending = s.lock_num_pending - length_of r.removed;
  freed = ids r.removed ++ s.freed;
}

unfoldable pub ctdb_lock_schedule : (LockContext → Option ℕ) → Locks → Locks
ctdb_lock_schedule starts s =
    if leb max_lock_processes_per_db s.lock_num_current
    then s
    else (let r = scan s.lock_current s.lock_pending in activate starts r (pruned r s))

-- DLIST_ADD_END to the queue of the context with this address.
unfoldable pub enqueue : ℕ → ℕ → List LockContext → List LockContext
enqueue id request [] = []
enqueue id request (c ∷ cs) =
    let rest = enqueue id request cs in
    if c.id == id then (record c { req_queue = c.req_queue ++ request ∷ [] }) ∷ cs else c ∷ rest

abbrev pub new_context : ℕ → Target → Bool → LockContext
new_context id t auto_mark = record {
  id = id;
  target = t;
  auto_mark = auto_mark;
  req_queue = [];
  child = none;
  has_destructor = false;
}

unfoldable pub get_context : Target → Bool → Locks → ℕ × Locks
get_context t auto_mark s = elim (find_lock_context s.lock_pending t) [
  | some c ↦ (c.id, s)
  | none ↦ (
    s.next_id,
    record s {
      lock_pending = s.lock_pending ++ new_context s.next_id t auto_mark ∷ [];
      lock_num_pending = s.lock_num_pending + 1;
      next_id = s.next_id + 1;
    },
  )
]

-- The request with its callback is given by its number. The result is the state, and the request.
unfoldable pub ctdb_lock_internal :
    (LockContext → Option ℕ) → Target → Bool → ℕ → Locks → Option ℕ × Locks
unfolding get_context enqueue
ctdb_lock_internal starts t auto_mark request s =
    let (id, s') = get_context t auto_mark s in
    (
      some request,
      ctdb_lock_schedule starts (record s' { lock_pending = enqueue id request s'.lock_pending }),
    )

unfoldable pub ctdb_lock_record :
    (LockContext → Option ℕ) → ℕ → List ℕ → Bool → ℕ → Locks → Option ℕ × Locks
ctdb_lock_record starts db key auto_mark request s =
    ctdb_lock_internal starts
      (record { type = lock_record; ctdb_db = some db; key = key; priority = 0 }) auto_mark request
      s

unfoldable pub ctdb_lock_db : (LockContext → Option ℕ) → ℕ → Bool → ℕ → Locks → Option ℕ × Locks
ctdb_lock_db starts db auto_mark request s =
    ctdb_lock_internal starts (record { type = lock_db; ctdb_db = some db; key = []; priority = 0 })
      auto_mark request s

abbrev pub num_db_priorities : ℕ
num_db_priorities = 3

unfoldable pub ctdb_lock_alldb_prio :
    (LockContext → Option ℕ) → ℕ → Bool → ℕ → Locks → Option ℕ × Locks
ctdb_lock_alldb_prio starts priority auto_mark request s =
    if not (leb priority num_db_priorities)
    then (none, s)
    else ctdb_lock_internal starts
        (record { type = lock_alldb_prio; ctdb_db = none; key = []; priority = priority }) auto_mark
        request s

unfoldable pub ctdb_lock_alldb : (LockContext → Option ℕ) → Bool → ℕ → Locks → Option ℕ × Locks
ctdb_lock_alldb starts auto_mark request s =
    ctdb_lock_internal starts (record { type = lock_alldb; ctdb_db = none; key = []; priority = 0 })
      auto_mark request s

-- DLIST_REMOVE by address.
unfoldable pub dlist_remove : ℕ → List LockContext → List LockContext
dlist_remove id [] = []
dlist_remove id (c ∷ cs) = let rest = dlist_remove id cs in if c.id == id then cs else c ∷ rest

abbrev pub has_child : LockContext → Bool
has_child c = elim c.child [ none ↦ false | some pid ↦ true ]

unfoldable pub ctdb_lock_context_destructor : (LockContext → Option ℕ) → LockContext → Locks → Locks
unfolding dlist_remove
ctdb_lock_context_destructor starts c s =
    if has_child c
    then ctdb_lock_schedule starts (record s {
      lock_current = dlist_remove c.id s.lock_current;
      lock_num_current = s.lock_num_current - 1;
    })
    else ctdb_lock_schedule starts (record s {
      lock_pending = dlist_remove c.id s.lock_pending;
      lock_num_pending = s.lock_num_pending - 1;
    })

-- talloc_free: the destructor, if there is one, and then the memory is gone.
unfoldable pub talloc_free : (LockContext → Option ℕ) → LockContext → Locks → Locks
unfolding ctdb_lock_context_destructor
talloc_free starts c s =
    let s' = if c.has_destructor then ctdb_lock_context_destructor starts c s else s in
    record s' { freed = c.id ∷ s'.freed }

unfoldable pub remove_request : ℕ → List ℕ → List ℕ
remove_request request [] = []
remove_request request (r ∷ rs) =
    let rest = remove_request request rs in if r == request then rs else r ∷ rest

unfoldable pub drop_request : ℕ → ℕ → List LockContext → List LockContext
unfolding remove_request
drop_request id request [] = []
drop_request id request (c ∷ cs) =
    let rest = drop_request id request cs in
    if c.id == id
    then (record c { req_queue = remove_request request c.req_queue }) ∷ cs
    else c ∷ rest

-- `lctx` is the address of the request's context.
unfoldable pub ctdb_lock_request_destructor : (lctx request : ℕ) → Locks → Locks
unfolding drop_request
ctdb_lock_request_destructor lctx request s = record s {
  lock_current = drop_request lctx request s.lock_current;
  lock_pending = drop_request lctx request s.lock_pending;
}

unfoldable pub ctdb_lock_free_request_context :
    (LockContext → Option ℕ) → LockContext → ℕ → Locks → Locks
unfolding ctdb_lock_request_destructor talloc_free
ctdb_lock_free_request_context starts c request s =
    talloc_free starts c (ctdb_lock_request_destructor c.id request s)

-- The callbacks in the order of the queue; what they do comes as further steps.
unfoldable pub call_all : Bool → List ℕ → Locks → Locks
call_all locked [] s = s
call_all locked (r ∷ rs) s = call_all locked rs (record s { called = s.called ++ (r, locked) ∷ [] })

unfoldable pub process_callbacks : LockContext → Bool → Locks → Locks
unfolding call_all
process_callbacks c locked s = call_all locked c.req_queue s
