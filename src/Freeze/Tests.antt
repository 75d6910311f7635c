-- ===== src/Freeze/Tests.antt =====
-- A freeze and a transaction of two databases, and the theorems at them.
use ctdb.Base.{◌+◌, ◌≡◌, refl, true, false, List, [], ◌∷◌}
use ctdb.Freeze.State.{
  one, two, three, Db, Freezer, put, reply_all, ctdb_freeze_lock_handler, ctdb_start_freeze,
  add_waiter, ctdb_control_freeze, ctdb_control_thaw,
}
use ctdb.Freeze.Transaction.{all_frozen, start_transactions, ctdb_control_transaction_start}
use ctdb.Freeze.Steps.{at_start, Reached}
use ctdb.Freeze.Invariant.{Consistent}
use ctdb.Freeze.Guarded.{Reached-Consistent}
use ctdb.Freeze.Answered.{occurs, waiting, answered, Reached-answered}
use ctdb.Freeze.Abandoned.{OnlyOf, lock_child-abandons}

abbrev dbs : List Db
dbs =
    record { db_id = 1; priority = one; transaction = false }
    ∷ record { db_id = 2; priority = two; transaction = false }
    ∷ []

abbrev frozen_one : Freezer
frozen_one =
    ctdb_freeze_lock_handler one true (10 ∷ []) (ctdb_control_freeze 10 0 (at_start dbs)).state

abbrev frozen_two : Freezer
frozen_two = ctdb_freeze_lock_handler two true (11 ∷ []) (ctdb_control_freeze 11 2 frozen_one).state

abbrev frozen_three : Freezer
frozen_three =
    ctdb_freeze_lock_handler three true (12 ∷ []) (ctdb_control_freeze 12 3 frozen_two).state

abbrev in_transaction : Freezer
in_transaction = (ctdb_control_transaction_start (λ i. true) 7 frozen_three).state

in_transaction-Reached : Reached (12 ∷ 11 ∷ 10 ∷ []) in_transaction
unfolding ctdb_control_freeze ctdb_start_freeze add_waiter put ctdb_freeze_lock_handler reply_all
    ctdb_control_transaction_start all_frozen start_transactions
in_transaction-Reached =
    Reached.transaction_start (λ i. true) 7
      (Reached.lock three true (12 ∷ []) refl (
        Reached.freeze 12 3 (
          Reached.lock two true (11 ∷ []) refl (
            Reached.freeze 11 2
              (Reached.lock one true (10 ∷ []) refl (Reached.freeze 10 0 (Reached.start dbs)))))))

Reached-Consistent_example : Consistent in_transaction
Reached-Consistent_example = Reached-Consistent in_transaction-Reached

Reached-answered_example :
    waiting 11 in_transaction + answered 11 in_transaction.replies ≡ occurs 11 (12 ∷ 11 ∷ 10 ∷ [])
Reached-answered_example = Reached-answered 11 in_transaction-Reached

lock_child-abandons_example :
    OnlyOf one in_transaction.db_list
      (ctdb_control_thaw 0 (ctdb_freeze_lock_handler one false [] in_transaction)).state.db_list
lock_child-abandons_example =
    lock_child-abandons one false [] in_transaction
      (unfold ctdb_control_freeze ctdb_start_freeze add_waiter put ctdb_freeze_lock_handler
          reply_all ctdb_control_transaction_start all_frozen start_transactions in
        refl)
      (unfold ctdb_control_freeze ctdb_start_freeze add_waiter put ctdb_freeze_lock_handler
          reply_all ctdb_control_transaction_start all_frozen start_transactions in
        refl)
