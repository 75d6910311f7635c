-- ===== src/Freeze/Answered.antt =====
-- server/ctdb_freeze.c: every request that was put off waits for a handle, or was replied to, once.
use ctdb.Base.{
  ℕ, ◌+◌, ◌≡◌, refl, ◌∙◌, ap, inl, inr, arith, Bool, true, false, not, none, some, Option, List, [],
  ◌∷◌, ◌++◌, ◌==◌, if◌then◌else◌, if-elim, Option-cases,
}
use ctdb.Freeze.State.{
  Priority, one, two, three, priority_of, thawed, pending, frozen, is_frozen, Slot, Reply, Freezer,
  put, cancel_all, cancel_priority, reply_all, ctdb_freeze_handle_destructor, free_handle,
  ctdb_freeze_lock_handler, ctdb_start_freeze, Result, add_waiter, ctdb_control_freeze, free_if,
  thaw_priority, ctdb_control_thaw,
}
use ctdb.Freeze.Transaction.{
  all_frozen, start_transactions, commit_transactions, ctdb_control_transaction_start,
  ctdb_control_transaction_cancel, ctdb_control_transaction_commit,
}
use ctdb.Freeze.Steps.{
  logged, Reached, start, freeze, start_freeze, lock, thaw, transaction_start, transaction_cancel,
  transaction_commit,
}

abbrev pub occurs : ℕ → List ℕ → ℕ
occurs c [] = 0
occurs c (x ∷ xs) = (if x == c then 1 else 0) + occurs c xs

abbrev pub held : ℕ → Option (List ℕ) → ℕ
held c none = 0
held c (some waiters) = occurs c waiters

-- How often a request waits.
abbrev pub waiting : ℕ → Freezer → ℕ
waiting c s =
    held c (s.slot one).freeze_handle
    + held c (s.slot two).freeze_handle
    + held c (s.slot three).freeze_handle

-- How often it was replied to.
abbrev pub answered : ℕ → List Reply → ℕ
answered c [] = 0
answered c (r ∷ rs) = (if r.request == c then 1 else 0) + answered c rs

abbrev total : ℕ → Freezer → ℕ
total c s = waiting c s + answered c s.replies

answered-append :
    (c : ℕ) (rs : List Reply) (r : Reply)
    → answered c (rs ++ r ∷ []) ≡ answered c rs + (if r.request == c then 1 else 0)
answered-append c [] r = omega arith
answered-append c (x ∷ rs) r = omega (arith, answered-append c rs r)

put-total :
    (c : ℕ) (p : Priority) (x : Slot) (s : Freezer)
    → total c (put p x s) + held c (s.slot p).freeze_handle ≡ total c s + held c x.freeze_handle
unfolding put
put-total c one x s = omega arith
put-total c two x s = omega arith
put-total c three x s = omega arith

reply_all-total :
    (c : ℕ) (ok : Bool) (ws : List ℕ) (s : Freezer)
    → total c (reply_all ok ws s) ≡ total c s + occurs c ws
unfolding reply_all
reply_all-total c ok [] s = omega arith
reply_all-total c ok (w ∷ ws) s =
    let r : Reply = record { request = w; ok = ok } in
    let next : Freezer = record s { replies = s.replies ++ r ∷ [] } in
    omega (arith, reply_all-total c ok ws next, answered-append c s.replies r)

destructor-total :
    (c : ℕ) (p : Priority) (s : Freezer)
    → total c (ctdb_freeze_handle_destructor p s) + held c (s.slot p).freeze_handle ≡ total c s
unfolding ctdb_freeze_handle_destructor
destructor-total c p s =
    let x : Slot = record { freeze_mode = thawed; freeze_handle = none } in
    let dropped : Freezer = record s {
      db_list = cancel_priority p s.db_list;
      freeze_transaction_started = false;
    } in
    if-elim (λ (y : Freezer). total c (put p x y) + held c (s.slot p).freeze_handle ≡ total c s)
      s.freeze_transaction_started dropped s (λ _. omega (arith, put-total c p x dropped))
      (λ _. omega (arith, put-total c p x s))

free_handle-total :
    (c : ℕ) (p : Priority) (ws : List ℕ) (s : Freezer)
    → (s.slot p).freeze_handle ≡ some ws
    → total c (free_handle p ws s) ≡ total c s
unfolding free_handle
free_handle-total c p ws s e = omega (
  arith,
  reply_all-total c false ws (ctdb_freeze_handle_destructor p s),
  destructor-total c p s,
  ap (held c) e,
)

lock-total :
    (c : ℕ) (p : Priority) (locked : Bool) (ws : List ℕ) (s : Freezer)
    → (s.slot p).freeze_handle ≡ some ws
    → total c (ctdb_freeze_lock_handler p locked ws s) ≡ total c s
unfolding ctdb_freeze_lock_handler
lock-total c p locked ws s e =
    let x : Slot = record { freeze_mode = frozen; freeze_handle = some [] } in
    let P : Freezer → Type 0 = λ y. total c y ≡ total c s in
    if-elim P (is_frozen (s.slot p).freeze_mode) _ _ (λ _. free_handle-total c p ws s e)
      (λ _.
        if-elim P (not locked) _ _ (λ _. free_handle-total c p ws s e)
          (λ _.
            omega (arith, reply_all-total c true ws (put p x s), put-total c p x s, ap (held c) e)))

start_freeze-total :
    (c : ℕ) (p : Priority) (s : Freezer) → total c (ctdb_start_freeze p s) ≡ total c s
unfolding ctdb_start_freeze
start_freeze-total c p s =
    let x : Slot = record { freeze_mode = pending; freeze_handle = some [] } in
    if-elim (λ (y : Freezer). total c y ≡ total c s) (is_frozen (s.slot p).freeze_mode) _ _
      (λ _. refl)
      (λ _. elim (Option-cases (s.slot p).freeze_handle) [
        | inl empty ↦
            rw (empty, ctdb_start_freeze) (omega (arith, put-total c p x s, ap (held c) empty))
        | inr (ws, has) ↦ rw (has, ctdb_start_freeze) refl
      ])

-- What a control leaves agrees with the requests that were put off.
abbrev Balanced : ℕ → ℕ → List ℕ → Result → Type 0
Balanced c request rs r = total c r.state ≡ occurs c (logged r.status request rs)

add_waiter-Balanced :
    (c request : ℕ) (p : Priority) (rs : List ℕ) (s : Freezer)
    → total c s ≡ occurs c rs
    → Balanced c request rs (add_waiter request p s)
unfolding add_waiter
add_waiter-Balanced c request p rs s b = elim (Option-cases (s.slot p).freeze_handle) [
  | inl empty ↦ rw (empty, add_waiter) b
  | inr (ws, has) ↦
      let x : Slot = record {
        freeze_mode = (s.slot p).freeze_mode;
        freeze_handle = some (request ∷ ws);
      } in
      rw (has, add_waiter) (omega (arith, b, put-total c p x s, ap (held c) has))
]

freeze-Balanced :
    (c request priority : ℕ) (rs : List ℕ) (s : Freezer)
    → total c s ≡ occurs c rs
    → Balanced c request rs (ctdb_control_freeze request priority s)
unfolding ctdb_control_freeze
freeze-Balanced c request priority rs s b =
    elim (Option-cases (priority_of (if priority == 0 then 1 else priority))) [
      | inl invalid ↦ rw (invalid, ctdb_control_freeze) b
      | inr (p, valid) ↦
          rw (valid, ctdb_control_freeze)
            (if-elim (Balanced c request rs) (is_frozen (s.slot p).freeze_mode) _ _ (λ _. b)
              (λ _.
                add_waiter-Balanced c request p rs (ctdb_start_freeze p s)
                  (start_freeze-total c p s ∙ b)))
    ]

free_if-total :
    (c : ℕ) (p : Priority) (o : Option (List ℕ)) (s : Freezer)
    → (s.slot p).freeze_handle ≡ o
    → total c (free_if p o s) ≡ total c s
free_if-total c p none s e = refl
free_if-total c p (some ws) s e = free_handle-total c p ws s e

thaw_priority-total : (c : ℕ) (p : Priority) (s : Freezer) → total c (thaw_priority p s) ≡ total c s
unfolding thaw_priority
thaw_priority-total c p s =
    let closed_all : Freezer = record s { db_list = cancel_all s.db_list } in
    if-elim
      (λ (y : Freezer).
        total c
          (free_if p (s.slot p).freeze_handle (record y { freeze_transaction_started = false }))
        ≡ total c s)
      s.freeze_transaction_started closed_all s
      (λ _.
        free_if-total c p (s.slot p).freeze_handle
          (record closed_all { freeze_transaction_started = false }) refl)
      (λ _.
        free_if-total c p (s.slot p).freeze_handle (record s { freeze_transaction_started = false })
          refl)

thaw-total :
    (c priority : ℕ) (s : Freezer) → total c (ctdb_control_thaw priority s).state ≡ total c s
unfolding ctdb_control_thaw
thaw-total c priority s =
    let a = thaw_priority one s in
    let b = thaw_priority two a in
    if-elim (λ (r : Result). total c r.state ≡ total c s) (priority == 0) _ _
      (λ _.
        thaw_priority-total c three b ∙ thaw_priority-total c two a ∙ thaw_priority-total c one s)
      (λ _. elim (Option-cases (priority_of priority)) [
        | inl invalid ↦ rw (invalid, ctdb_control_thaw) refl
        | inr (p, valid) ↦ rw (valid, ctdb_control_thaw) (thaw_priority-total c p s)
      ])

start-total :
    (c : ℕ) (starts : ℕ → Bool) (id : ℕ) (s : Freezer)
    → total c (ctdb_control_transaction_start starts id s).state ≡ total c s
unfolding ctdb_control_transaction_start
start-total c starts id s =
    let P : Result → Type 0 = λ r. total c r.state ≡ total c s in
    if-elim P (not (all_frozen s)) _ _ (λ _. refl)
      (λ _.
        if-elim P (not (start_transactions starts s.freeze_transaction_started s.db_list).ok) _ _
          (λ _. refl) (λ _. refl))

commit-total :
    (c : ℕ) (commits healthy : ℕ → Bool) (id : ℕ) (s : Freezer)
    → total c (ctdb_control_transaction_commit commits healthy id s).state ≡ total c s
unfolding ctdb_control_transaction_commit
commit-total c commits healthy id s =
    let P : Result → Type 0 = λ r. total c r.state ≡ total c s in
    if-elim P (not (all_frozen s)) _ _ (λ _. refl)
      (λ _.
        if-elim P (not s.freeze_transaction_started) _ _ (λ _. refl)
          (λ _.
            if-elim P (not (id == s.freeze_transaction_id)) _ _ (λ _. refl)
              (λ _.
                if-elim P (not (commit_transactions commits healthy s.db_list).ok) _ _ (λ _. refl)
                  (λ _. refl))))

-- Of each request: as often as it was put off, it waits for a handle or was replied to.
pub Reached-answered :
    {rs : List ℕ} {s : Freezer} (c : ℕ)
    → Reached rs s
    → waiting c s + answered c s.replies ≡ occurs c rs
unfolding ctdb_control_transaction_cancel
Reached-answered c (start dbs) = refl
Reached-answered c (freeze {rs} {s} request priority r) =
    freeze-Balanced c request priority rs s (Reached-answered c r)
Reached-answered c (lock {rs} {s} p locked ws e r) =
    lock-total c p locked ws s e ∙ Reached-answered c r
Reached-answered c (start_freeze {rs} {s} p r) = start_freeze-total c p s ∙ Reached-answered c r
Reached-answered c (thaw {rs} {s} priority r) = thaw-total c priority s ∙ Reached-answered c r
Reached-answered c (transaction_start {rs} {s} starts id r) =
    start-total c starts id s ∙ Reached-answered c r
Reached-answered c (transaction_cancel r) = Reached-answered c r
Reached-answered c (transaction_commit {rs} {s} commits healthy id r) =
    commit-total c commits healthy id s ∙ Reached-answered c r
