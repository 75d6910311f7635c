-- ===== src/Lock/Marking.antt =====
-- server/ctdb_lock.c: what the loops over the priorities do with the databases.
use mathlib.Core.List.{Perm, append-nil}
use ctdb.Base.{
  ◌≢◌, Option, if-elim, ℕ, zero, suc, ◌+◌, ◌-◌, ◌≤◌, ◌≡◌, refl, sym, ap, ◌∙◌, subst, arith, Bool,
  true, false, not, some, List, [], ◌++◌, leb, u32, u32_mod, All, if◌then◌else◌,
}
use ctdb.Lock.Schedule.{num_db_priorities}
use ctdb.Lock.Databases.{
  Database, ctdb_db_iterator, Marks, db_lock_mark_handler, db_lock_unmark_handler, mark_loop,
  ctdb_lockall_mark, unmark_loop, ctdb_lockall_unmark,
}
use ctdb.Lock.Order.{
  visit, order, visit-append, iterator-visit, HasPriority, all_orders, all_orders-perm,
}

-- The test `priority >= 0` of an unsigned number.
within : (priority : ℕ) → leb 0 priority ≡ true
within priority = ground arith

module _ (m : Marks) (hack : ℕ) (db_list : List Database) where
  go_on :
      (fuel priority : ℕ) (rest : List Database) (r : Bool × m.State)
      → ((s' : m.State)
          → mark_loop m hack db_list fuel (u32 (priority + 1)) s'
            ≡ some (visit (db_lock_mark_handler m hack db_list) rest s'))
      → (if not r.0
          then some (false, r.1)
          else mark_loop m hack db_list fuel (u32 (priority + 1)) r.1)
        ≡ some
            (if not r.0 then (false, r.1) else visit (db_lock_mark_handler m hack db_list) rest r.1)
  go_on fuel priority rest (true, s) h = h s
  go_on fuel priority rest (false, s) h = refl

  -- Once more round the loop over the priorities.
  mark_round :
      (fuel priority : ℕ) (s : m.State) (rest : List Database)
      → leb priority num_db_priorities ≡ true
      → ((s' : m.State)
          → mark_loop m hack db_list fuel (u32 (priority + 1)) s'
            ≡ some (visit (db_lock_mark_handler m hack db_list) rest s'))
      → mark_loop m hack db_list (suc fuel) priority s
        ≡ some (visit (db_lock_mark_handler m hack db_list) (order hack priority db_list ++ rest) s)
  unfolding mark_loop
  mark_round fuel priority s rest within h =
      let handler = db_lock_mark_handler m hack db_list in
      let next = mark_loop m hack db_list fuel (u32 (priority + 1)) in
      let done = ctdb_db_iterator handler hack db_list priority s in
      let left = order hack priority db_list in
      ap
        (λ b.
          if not b
          then some (true, s)
          else if not done.0
          then some (false, done.1)
          else next done.1)
        within
      ∙ ap (λ (r : Bool × m.State). if not r.0 then some (false, r.1) else next r.1)
          (iterator-visit handler hack db_list priority s)
      ∙ go_on fuel priority rest (visit handler left s) h
      ∙ ap some (sym (visit-append handler left rest s))

  mark_end : (fuel : ℕ) (s : m.State) → mark_loop m hack db_list (suc fuel) 4 s ≡ some (true, s)
  unfolding mark_loop
  mark_end fuel s = refl

  mark_four :
      (fuel : ℕ) (s : m.State)
      → ctdb_lockall_mark m hack db_list (suc (suc (suc (suc fuel)))) s
        ≡ some (
            visit
              (db_lock_mark_handler m hack db_list)
              (order hack 1 db_list ++ (order hack 2 db_list ++ (order hack 3 db_list ++ [])))
              s)
  unfolding ctdb_lockall_mark
  mark_four fuel s =
      mark_round (suc (suc (suc fuel))) 1 s (order hack 2 db_list ++ (order hack 3 db_list ++ []))
        refl
        (λ s'.
          mark_round (suc (suc fuel)) 2 s' (order hack 3 db_list ++ []) refl
            (λ s'. mark_round (suc fuel) 3 s' [] refl (mark_end fuel)))

  enough :
      (fuel : ℕ) (s : m.State)
      → 4 ≤ fuel
      → ctdb_lockall_mark m hack db_list fuel s
        ≡ some (visit (db_lock_mark_handler m hack db_list) (all_orders hack db_list) s)
  enough zero s h = absurd (omega arith)
  enough (suc zero) s h = absurd (omega arith)
  enough (suc (suc zero)) s h = absurd (omega arith)
  enough (suc (suc (suc zero))) s h = absurd (omega arith)
  enough (suc (suc (suc (suc fuel)))) s h =
      subst
        (λ l.
          ctdb_lockall_mark m hack db_list (suc (suc (suc (suc fuel)))) s
          ≡ some (
              visit (db_lock_mark_handler m hack db_list)
                (order hack 1 db_list ++ (order hack 2 db_list ++ l)) s))
        (append-nil (order hack 3 db_list)) (mark_four fuel s)

  -- When every database has a priority from 1 to 3, ctdb_lockall_mark marks the databases in an order in which each
  -- comes once, up to the first failure, which it returns; four rounds of its loop are enough.
  pub lockall_mark-visits :
      (fuel : ℕ) (s : m.State)
      → 4 ≤ fuel
      → All HasPriority db_list
      → (l : List Database) × Perm l db_list
        × (ctdb_lockall_mark m hack db_list fuel s
            ≡ some (visit (db_lock_mark_handler m hack db_list) l s))
  lockall_mark-visits fuel s f h =
      (all_orders hack db_list, all_orders-perm hack db_list h, enough fuel s f)

  never_true :
      (fuel priority : ℕ) (s s' : m.State)
      → unmark_loop m hack db_list fuel priority s ≢ some (true, s')
  unfolding unmark_loop
  never_true zero priority s s' = λ e. cc
  never_true (suc fuel) priority s s' =
      let handler = db_lock_unmark_handler m hack db_list in
      let r = ctdb_db_iterator handler hack db_list priority s in
      let P : Option (Bool × m.State) → Type 0 = λ o. o ≢ some (true, s') in
      if-elim P (not (leb 0 priority)) _ _
        (λ no e. absurd (let w = within priority in ground (arith, no, w)))
        (λ _.
          if-elim P (not r.0) _ _ (λ _ e. cc)
            (λ _. never_true fuel (u32 (priority + u32_mod - 1)) r.1 s'))

  -- ctdb_lockall_unmark never succeeds, whatever unmarking a database does and whatever the number of rounds: it fails, or
  -- goes on.
  pub lockall_unmark-never_succeeds :
      (fuel : ℕ) (s s' : m.State) → ctdb_lockall_unmark m hack db_list fuel s ≢ some (true, s')
  unfolding ctdb_lockall_unmark
  lockall_unmark-never_succeeds fuel s s' = never_true fuel num_db_priorities s s'
