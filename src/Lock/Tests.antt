-- ===== src/Lock/Tests.antt =====
-- The lock scheduler at small inputs, and the theorems at them.
use ctdb.Base.{
  Bool, false, ◌≢◌, In, ℕ, ◌≡◌, ◌++◌, refl, inl, inr, arith, All, length, ◌+◌, true, some, List, [],
  ◌∷◌,
}
use mathlib.Core.List.{Perm}
use ctdb.Lock.Context.{Target, lock_record, lock_db, lock_alldb, find_lock_context, fits, same_key}
use ctdb.Lock.Schedule.{
  Locks, ids, new_context, scan, activate, ctdb_lock_schedule, ctdb_lock_internal,
  ctdb_lock_free_request_context,
}
use ctdb.Lock.Steps.{Starts, Succeeds, at_start, Reached, start, lock}
use ctdb.Lock.Orderly.{Orderly, Reached-Orderly}
use ctdb.Lock.Busy.{Busy, Reached-Busy}
use ctdb.Lock.Dangling.{lock-free_request_context-dangling}
use ctdb.Lock.Databases.{
  Database, codes, Marks, HelperLock, lock_helper_args, first_args, db_lock_mark_handler,
  ctdb_lockall_mark, ctdb_lockall_unmark, later_db, strstr, starts_with,
}
use ctdb.Lock.Order.{select, visit, in_time, HasPriority}
use ctdb.Lock.Marking.{lockall_mark-visits, lockall_unmark-never_succeeds}
use ctdb.Lock.Helper.{paths, lock_helper_args-fit, lock_helper_args-omit}

abbrev forks : Starts
forks c = some (1000)

abbrev record_5 : Target
record_5 = record { type = lock_record; ctdb_db = some 7; key = 5 ∷ []; priority = 0 }

abbrev whole_db : Target
whole_db = record { type = lock_db; ctdb_db = some 7; key = []; priority = 0 }

-- Two requests for one record, and one for the database.
abbrev asked : Locks
asked =
    (ctdb_lock_internal forks whole_db true 3
      (ctdb_lock_internal forks record_5 true 2
        (ctdb_lock_internal forks record_5 true 1 at_start).1).1).1

-- The second request for the record waits, the database does not.
asked_current : ids asked.lock_current ≡ 1 ∷ 3 ∷ []
unfolding ctdb_lock_internal ctdb_lock_schedule activate scan find_lock_context fits same_key
asked_current = refl

forks-Succeeds : Succeeds forks
forks-Succeeds c = (1000, refl)

asked-Reached : Reached Succeeds asked
asked-Reached =
    lock forks whole_db true 3 forks-Succeeds
      (lock forks record_5 true 2 forks-Succeeds (lock forks record_5 true 1 forks-Succeeds start))

Reached-Orderly_example : Orderly asked
Reached-Orderly_example = Reached-Orderly asked-Reached

Reached-Busy_example : Busy asked
Reached-Busy_example = Reached-Busy asked-Reached

abbrev full : Locks
full = record at_start { lock_num_current = 100; next_id = 101 }

lock-free_request_context-dangling_example :
    (let asked' = (ctdb_lock_internal forks record_5 true 1 full).1 in
      let given_up =
        ctdb_lock_free_request_context forks (new_context 101 record_5 true) 1 asked' in
      In 101 (ids given_up.lock_pending) × In 101 given_up.freed)
unfolding find_lock_context
lock-free_request_context-dangling_example =
    lock-free_request_context-dangling forks record_5 true 1 full refl refl

-- tdb files that can always be marked; the state is the names that were marked.
abbrev unmark_last : List (List ℕ) → Bool × List (List ℕ)
unmark_last [] = (false, [])
unmark_last (name ∷ names) = (true, names)

abbrev marks : Marks
marks = record {
  State = List (List ℕ);
  tdb_transaction_write_lock_mark = λ db s. (true, s);
  tdb_lockall_mark = λ db s. (true, s ++ db.db_name ∷ []);
  tdb_transaction_write_lock_unmark = λ db s. (true, s);
  tdb_lockall_unmark = λ db s. unmark_last s;
}

abbrev locking_db : Database
locking_db = record {
  db_name = codes "locking.tdb";
  db_path = codes "/db/locking.tdb.0";
  priority = 1;
}

abbrev brlock_db : Database
brlock_db = record {
  db_name = codes "brlock.tdb";
  db_path = codes "/db/brlock.tdb.0";
  priority = 2;
}

abbrev registry_db : Database
registry_db = record {
  db_name = codes "registry.tdb";
  db_path = codes "/db/registry.tdb.0";
  priority = 3;
}

abbrev dbs : List Database
dbs = brlock_db ∷ registry_db ∷ locking_db ∷ []

dbs-HasPriority : All HasPriority dbs
dbs-HasPriority = (inr (inl refl), (inr (inr refl), (inl refl, tt)))

brlock_is_later : later_db 1 (codes "brlock.tdb") ≡ true
unfolding later_db strstr starts_with
brlock_is_later = refl

lockall_mark-visits_example :
    (l : List Database) × Perm l dbs
    × (ctdb_lockall_mark marks 1 dbs 4 [] ≡ some (visit (db_lock_mark_handler marks 1 dbs) l []))
lockall_mark-visits_example = lockall_mark-visits marks 1 dbs 4 [] (omega arith) dbs-HasPriority

lockall_unmark-never_succeeds_example : ctdb_lockall_unmark marks 1 dbs 9 [] ≢ some (true, [])
lockall_unmark-never_succeeds_example = lockall_unmark-never_succeeds marks 1 dbs 9 [] []

abbrev all_dbs_lock : HelperLock
all_dbs_lock = record { type = lock_alldb; ctdb_db = locking_db; key = []; priority = 0 }

lock_helper_args-fit_example :
    (let (nargs, args) = lock_helper_args 1 dbs 10 11 all_dbs_lock in length args + 1 ≡ nargs)
lock_helper_args-fit_example = lock_helper_args-fit 1 dbs 10 11 all_dbs_lock

lock_helper_args-omit_example :
    (covered : List Database) × Perm (covered ++ select (in_time 1 3) dbs) dbs
    × ((lock_helper_args 1 dbs 10 11 all_dbs_lock).1 ≡ first_args 10 11 "DB" ++ paths covered)
lock_helper_args-omit_example = lock_helper_args-omit 1 dbs 10 11 all_dbs_lock refl dbs-HasPriority
