-- ===== src/Lock/Steps.antt =====
-- server/ctdb_lock.c: the runs of the lock scheduler, and when a pending lock has to wait.
use ctdb.Base.{In, ℕ, ◌≡◌, ◌⊎◌, Bool, some, Option, List, [], ◌∷◌}
use ctdb.Lock.Context.{Target, LockContext, Lock, lock_of}
use ctdb.Lock.Schedule.{
  Locks, ctdb_lock_internal, ctdb_lock_request_destructor, process_callbacks, talloc_free,
}

abbrev pub at_start : Locks
at_start = record {
  lock_num_current = 0;
  lock_num_pending = 0;
  lock_current = [];
  lock_pending = [];
  next_id = 1;
  freed = [];
  called = [];
}

abbrev pub locks : List LockContext → List Lock
locks [] = []
locks (c ∷ cs) = lock_of c.target ∷ locks cs

-- No request asks for the context's lock, or a child has or awaits this lock already.
abbrev pub Blocked : List Lock → LockContext → Type 0
Blocked held c = (c.req_queue ≡ []) ⊎ In (lock_of c.target) held

abbrev pub Starts : Type 0
Starts = LockContext → Option ℕ

-- The system calls that start a child succeed, or may fail.
abbrev pub Succeeds : Starts → Type 0
Succeeds starts = (c : LockContext) → (pid : ℕ) × (starts c ≡ some pid)

abbrev pub Any : Starts → Type 0
Any starts = Unit

-- The states that can be reached when each start of children meets a condition. Requests for locks come and are
-- withdrawn, the callbacks of an active context are called, and an active context is freed, in any order.
pub data Reached (Meets : Starts → Type 0) : Locks → Type 0 where
  start : Reached Meets at_start
  lock :
      {s : Locks} (starts : Starts) (t : Target) (auto_mark : Bool) (request : ℕ)
      → Meets starts
      → Reached Meets s
      → Reached Meets (ctdb_lock_internal starts t auto_mark request s).1
  withdraw :
      {s : Locks} (lctx request : ℕ)
      → Reached Meets s
      → Reached Meets (ctdb_lock_request_destructor lctx request s)
  answer :
      {s : Locks} (c : LockContext) (locked : Bool)
      → In c s.lock_current
      → Reached Meets s
      → Reached Meets (process_callbacks c locked s)
  free :
      {s : Locks} (starts : Starts) (c : LockContext)
      → Meets starts
      → In c s.lock_current
      → Reached Meets s
      → Reached Meets (talloc_free starts c s)
