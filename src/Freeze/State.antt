-- ===== src/Freeze/State.antt =====
-- server/ctdb_freeze.c: the freeze handles, and the requests that wait for them.
use ctdb.Base.{
  ℕ, ◌+◌, Bool, true, false, not, none, some, Option, List, [], ◌∷◌, ◌++◌, ◌==◌, if◌then◌else◌,
}

-- Priorities 1 to NUM_DB_PRIORITIES.
pub data Priority : Type 0 where
  one two three : Priority

abbrev pub same : Priority → Priority → Bool
same one one = true
same one two = false
same one three = false
same two one = false
same two two = true
same two three = false
same three one = false
same three two = false
same three three = true

abbrev pub priority_of : ℕ → Option Priority
priority_of n =
    if n == 1 then some one else if n == 2 then some two else if n == 3 then some three else none

pub data FreezeMode : Type 0 where
  thawed pending frozen : FreezeMode

abbrev pub is_frozen : FreezeMode → Bool
is_frozen thawed = false
is_frozen pending = false
is_frozen frozen = true

-- `freeze_mode` and `freeze_handles` of a priority; the handle is a list of the requests that wait for it,
-- the newest first.
pub record Slot : Type 0 where
  pub freeze_mode : FreezeMode
  pub freeze_handle : Option (List ℕ)

-- A database, and whether a transaction is open on its file.
pub record Db : Type 0 where
  pub db_id : ℕ
  pub priority : Priority
  pub transaction : Bool

-- A reply to a request, with status 0 or -1.
pub record Reply : Type 0 where
  pub request : ℕ
  pub ok : Bool

-- What of `struct ctdb_context` the freeze concerns. `resent` counts the calls of ctdb_call_resend_all.
pub record Freezer : Type 0 where
  pub slot : Priority → Slot
  pub freeze_transaction_started : Bool
  pub freeze_transaction_id : ℕ
  pub db_list : List Db
  pub replies : List Reply
  pub resent : ℕ

unfoldable pub put : Priority → Slot → Freezer → Freezer
put p x s = record s { slot = λ q. if same p q then x else s.slot q }

-- No transaction is open any more; a failure of `tdb_transaction_cancel` is only logged.
abbrev pub closed : Db → Db
closed b = record b { transaction = false }

unfoldable pub cancel_all : List Db → List Db
cancel_all [] = []
cancel_all (b ∷ bs) = closed b ∷ cancel_all bs

unfoldable pub cancel_priority : Priority → List Db → List Db
cancel_priority p [] = []
cancel_priority p (b ∷ bs) =
    let rest = cancel_priority p bs in if same b.priority p then closed b ∷ rest else b ∷ rest

-- The waiters are freed from the front, and each is replied to.
unfoldable pub reply_all : Bool → List ℕ → Freezer → Freezer
reply_all ok [] s = s
reply_all ok (w ∷ ws) s =
    reply_all ok ws (record s { replies = s.replies ++ record { request = w; ok = ok } ∷ [] })

-- `ctdb_freeze_handle_destructor`, for the handle of a priority
unfoldable pub ctdb_freeze_handle_destructor : Priority → Freezer → Freezer
ctdb_freeze_handle_destructor p s =
    let c =
      if s.freeze_transaction_started
      then record s { db_list = cancel_priority p s.db_list; freeze_transaction_started = false }
      else s in
    put p (record { freeze_mode = thawed; freeze_handle = none }) c

-- Freeing a handle frees its waiters too, with status -1.
unfoldable pub free_handle : Priority → List ℕ → Freezer → Freezer
free_handle p waiters s = reply_all false waiters (ctdb_freeze_handle_destructor p s)

-- `ctdb_freeze_lock_handler`, for the waiters of the handle
unfoldable pub ctdb_freeze_lock_handler : Priority → Bool → List ℕ → Freezer → Freezer
ctdb_freeze_lock_handler p locked waiters s =
    if is_frozen (s.slot p).freeze_mode
    then free_handle p waiters s
    else if not locked
    then free_handle p waiters s
    else reply_all true waiters (put p (record { freeze_mode = frozen; freeze_handle = some [] }) s)

-- Vacuuming is stopped, and a lock on all databases of the priority asked for, which is always had.
unfoldable pub ctdb_start_freeze : Priority → Freezer → Freezer
ctdb_start_freeze p s =
    if is_frozen (s.slot p).freeze_mode then s else elim (s.slot p).freeze_handle [
      | none ↦ put p (record { freeze_mode = pending; freeze_handle = some [] }) s
      | some waiters ↦ s
    ]

-- What a control returns, and whether it is answered later.
pub data Status : Type 0 where
  done error later : Status

pub record Result : Type 0 where
  pub status : Status
  pub state : Freezer

unfoldable pub add_waiter : ℕ → Priority → Freezer → Result
add_waiter request p s = elim (s.slot p).freeze_handle [
  | none ↦ record { status = error; state = s }
  | some waiters ↦ record {
    status = later;
    state =
        put p
          (record {
            freeze_mode = (s.slot p).freeze_mode;
            freeze_handle = some (request ∷ waiters);
          })
          s;
  }
]

unfoldable pub ctdb_control_freeze : (request priority : ℕ) → Freezer → Result
ctdb_control_freeze request priority s =
    elim (priority_of (if priority == 0 then 1 else priority)) [
      | none ↦ record { status = error; state = s }
      | some p ↦
          if is_frozen (s.slot p).freeze_mode
          then record { status = done; state = s }
          else add_waiter request p (ctdb_start_freeze p s)
    ]

-- The handle, if there is one, is freed.
abbrev pub free_if : Priority → Option (List ℕ) → Freezer → Freezer
free_if p none s = s
free_if p (some waiters) s = free_handle p waiters s

unfoldable pub thaw_priority : Priority → Freezer → Freezer
thaw_priority p s =
    let c =
      if s.freeze_transaction_started then record s { db_list = cancel_all s.db_list } else s in
    free_if p (s.slot p).freeze_handle (record c { freeze_transaction_started = false })

unfoldable pub ctdb_control_thaw : ℕ → Freezer → Result
ctdb_control_thaw priority s =
    let all = thaw_priority three (thaw_priority two (thaw_priority one s)) in
    if priority == 0
    then record { status = done; state = record all { resent = s.resent + 1 } }
    else elim (priority_of priority) [
      | none ↦ record { status = error; state = s }
      | some p ↦ record {
        status = done;
        state = record (thaw_priority p s) { resent = s.resent + 1 };
      }
    ]
