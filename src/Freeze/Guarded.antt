-- ===== src/Freeze/Guarded.antt =====
-- server/ctdb_freeze.c: the controls keep the modes consistent.
use ctdb.Base.{
  ℕ, ◌+◌, ◌≡◌, refl, inl, inr, arith, Bool, true, false, not, none, some, Option, List, ◌==◌,
  if◌then◌else◌, if-elim, Option-cases,
}
use ctdb.Freeze.State.{
  Priority, one, two, three, priority_of, is_frozen, Freezer, ctdb_start_freeze, Result,
  ctdb_control_freeze, free_if, thaw_priority, ctdb_control_thaw,
}
use ctdb.Freeze.Transaction.{
  all_frozen, start_transactions, commit_transactions, ctdb_control_transaction_start,
  ctdb_control_transaction_cancel, ctdb_control_transaction_commit,
}
use ctdb.Freeze.Invariant.{
  Consistent, free_handle-Consistent, lock-Consistent, start-Started, add_waiter-Consistent,
  start_freeze-Consistent,
}
use ctdb.Freeze.Steps.{
  Reached, start, freeze, start_freeze, lock, thaw, transaction_start, transaction_cancel,
  transaction_commit,
}

freeze-Consistent :
    (request priority : ℕ) (s : Freezer)
    → Consistent s
    → Consistent (ctdb_control_freeze request priority s).state
unfolding ctdb_control_freeze
freeze-Consistent request priority s c =
    let n = if priority == 0 then 1 else priority in
    elim (Option-cases (priority_of n)) [
      | inl invalid ↦ rw (invalid, ctdb_control_freeze) c
      | inr (p, valid) ↦
          rw (valid, ctdb_control_freeze)
            (if-elim (λ (r : Result). Consistent r.state) (is_frozen (s.slot p).freeze_mode) _ _
              (λ _. c)
              (λ no.
                add_waiter-Consistent request p (ctdb_start_freeze p s)
                  (start-Started p s (record { consistent = c; unfrozen = no }))))
    ]

free_if-Consistent :
    (p : Priority) (o : Option (List ℕ)) (s : Freezer) → Consistent s → Consistent (free_if p o s)
free_if-Consistent p none s c = c
free_if-Consistent p (some ws) s c = free_handle-Consistent p ws s c

thaw_priority-Consistent :
    (p : Priority) (s : Freezer) → Consistent s → Consistent (thaw_priority p s)
unfolding thaw_priority
thaw_priority-Consistent p s c = free_if-Consistent p (s.slot p).freeze_handle _ (
    if-elim (λ (x : Freezer). Consistent (record x { freeze_transaction_started = false }))
      s.freeze_transaction_started _ _ (λ _. record { fits = c.fits; frozen = λ on. cc })
      (λ _. record { fits = c.fits; frozen = λ on. cc }))

thaw-Consistent :
    (priority : ℕ) (s : Freezer) → Consistent s → Consistent (ctdb_control_thaw priority s).state
unfolding ctdb_control_thaw
thaw-Consistent priority s c =
    let again : (x : Freezer) → Consistent x → Consistent (record x { resent = s.resent + 1 }) =
      λ x d. record { fits = d.fits; frozen = d.frozen } in
    if-elim (λ (r : Result). Consistent r.state) (priority == 0) _ _
      (λ _. again _ (
        thaw_priority-Consistent three _
          (thaw_priority-Consistent two _ (thaw_priority-Consistent one s c))))
      (λ _. elim (Option-cases (priority_of priority)) [
        | inl invalid ↦ rw (invalid, ctdb_control_thaw) c
        | inr (p, valid) ↦
            rw (valid, ctdb_control_thaw)
              (again (thaw_priority p s) (thaw_priority-Consistent p s c))
      ])

all_frozen_lem :
    (s : Freezer) → all_frozen s ≡ true → (p : Priority) → is_frozen (s.slot p).freeze_mode ≡ true
unfolding all_frozen
all_frozen_lem s e one = ground (arith, e)
all_frozen_lem s e two = ground (arith, e)
all_frozen_lem s e three = ground (arith, e)

start-Consistent :
    (starts : ℕ → Bool) (id : ℕ) (s : Freezer)
    → Consistent s
    → Consistent (ctdb_control_transaction_start starts id s).state
unfolding ctdb_control_transaction_start
start-Consistent starts id s c =
    let r = start_transactions starts s.freeze_transaction_started s.db_list in
    if-elim (λ (r : Result). Consistent r.state) (not (all_frozen s)) _ _ (λ _. c)
      (λ all.
        if-elim (λ (r : Result). Consistent r.state) (not r.ok) _ _
          (λ _. record { fits = c.fits; frozen = c.frozen })
          (λ _. record { fits = c.fits; frozen = λ on. all_frozen_lem s (ground (arith, all)) }))

commit-Consistent :
    (commits healthy : ℕ → Bool) (id : ℕ) (s : Freezer)
    → Consistent s
    → Consistent (ctdb_control_transaction_commit commits healthy id s).state
unfolding ctdb_control_transaction_commit
commit-Consistent commits healthy id s c =
    let P : Result → Type 0 = λ r. Consistent r.state in
    if-elim P (not (all_frozen s)) _ _ (λ _. c)
      (λ _.
        if-elim P (not s.freeze_transaction_started) _ _ (λ _. c)
          (λ _.
            if-elim P (not (id == s.freeze_transaction_id)) _ _ (λ _. c)
              (λ _.
                if-elim P (not (commit_transactions commits healthy s.db_list).ok) _ _
                  (λ _. record { fits = c.fits; frozen = λ on. cc })
                  (λ _. record { fits = c.fits; frozen = λ on. cc }))))

-- In every state that can be reached: a priority has a handle unless it is thawed, nothing waits for one
-- that is frozen, and while the transaction of a recovery is started all priorities are frozen.
pub Reached-Consistent : {rs : List ℕ} {s : Freezer} → Reached rs s → Consistent s
unfolding ctdb_control_transaction_cancel
Reached-Consistent (start dbs) = record { fits = λ p. refl; frozen = λ on. cc }
Reached-Consistent (freeze {rs} {s} request priority r) =
    freeze-Consistent request priority s (Reached-Consistent r)
Reached-Consistent (lock {rs} {s} p locked ws e r) =
    lock-Consistent p locked ws s (Reached-Consistent r)
Reached-Consistent (start_freeze {rs} {s} p r) = start_freeze-Consistent p s (Reached-Consistent r)
Reached-Consistent (thaw {rs} {s} priority r) = thaw-Consistent priority s (Reached-Consistent r)
Reached-Consistent (transaction_start {rs} {s} starts id r) =
    start-Consistent starts id s (Reached-Consistent r)
Reached-Consistent (transaction_cancel {rs} {s} r) =
    let c = Reached-Consistent r in record { fits = c.fits; frozen = λ on. cc }
Reached-Consistent (transaction_commit {rs} {s} commits healthy id r) =
    commit-Consistent commits healthy id s (Reached-Consistent r)
