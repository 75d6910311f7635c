-- ===== src/Lock/Helper.antt =====
-- server/ctdb_lock.c: the arguments that the lock helper is started with.
use mathlib.Core.List.{Perm, append_assoc, append-nil}
use ctdb.Base.{
  ℕ, suc, ◌+◌, ◌≡◌, refl, sym, ap, ◌∙◌, subst, arith, Bool, true, List, [], ◌∷◌, ◌++◌, All, length,
  length-append,
}
use ctdb.Lock.Context.{LockType, lock_record, lock_db, lock_alldb_prio, lock_alldb}
use ctdb.Lock.Schedule.{num_db_priorities}
use ctdb.Lock.Databases.{
  Database, ctdb_db_iterator, HelperArg, text, db_count_handler, db_name_handler, HelperLock,
  all_priorities, count_args, fill_args, first_args, lock_helper_args,
}
use ctdb.Lock.Order.{
  select, visit, in_time, order, iterator-visit, HasPriority, all_orders, all_orders-perm,
}

abbrev pub paths : List Database → List HelperArg
paths [] = []
paths (db ∷ dbs) = text db.db_path ∷ paths dbs

paths-append : (xs ys : List Database) → paths (xs ++ ys) ≡ paths xs ++ paths ys
paths-append [] ys = refl
paths-append (x ∷ xs) ys = ap (◌∷◌ (text x.db_path)) (paths-append xs ys)

length-paths : (dbs : List Database) → length (paths dbs) ≡ length dbs
length-paths [] = refl
length-paths (db ∷ dbs) = ap suc (length-paths dbs)

visit-count : (dbs : List Database) (n : ℕ) → visit db_count_handler dbs n ≡ (true, n + length dbs)
unfolding db_count_handler
visit-count [] n = ap (λ k. (true, k)) (omega arith)
visit-count (db ∷ dbs) n = visit-count dbs (n + 1) ∙ ap (λ k. (true, k)) (omega arith)

visit-names :
    (dbs : List Database) (names : List HelperArg)
    → visit db_name_handler dbs names ≡ (true, names ++ paths dbs)
unfolding db_name_handler
visit-names [] names = ap (λ l. (true, l)) (sym (append-nil names))
visit-names (db ∷ dbs) names =
    visit-names dbs (names ++ text db.db_path ∷ [])
    ∙ ap (λ l. (true, l)) (append_assoc names (text db.db_path ∷ []) (paths dbs))

module _ (hack : ℕ) (db_list : List Database) where
  counted :
      (priority n : ℕ)
      → (ctdb_db_iterator db_count_handler hack db_list priority n).1
        ≡ n + length (order hack priority db_list)
  counted priority n =
      ap (λ (r : Bool × ℕ). r.1)
        (iterator-visit db_count_handler hack db_list priority n
          ∙ visit-count (order hack priority db_list) n)

  named :
      (priority : ℕ) (names : List HelperArg)
      → (ctdb_db_iterator db_name_handler hack db_list priority names).1
        ≡ names ++ paths (order hack priority db_list)
  named priority names =
      ap (λ (r : Bool × List HelperArg). r.1)
        (iterator-visit db_name_handler hack db_list priority names
          ∙ visit-names (order hack priority db_list) names)

  all_counted :
      (n : ℕ)
      → all_priorities hack db_list db_count_handler num_db_priorities 1 n
        ≡ n + length (order hack 1 db_list) + length (order hack 2 db_list)
  unfolding all_priorities
  all_counted n = counted 2 _ ∙ ap (λ k. k + length (order hack 2 db_list)) (counted 1 n)

  all_named :
      (names : List HelperArg)
      → all_priorities hack db_list db_name_handler num_db_priorities 1 names
        ≡ (names ++ paths (order hack 1 db_list)) ++ paths (order hack 2 db_list)
  unfolding all_priorities
  all_named names = named 2 _ ∙ ap (λ l. l ++ paths (order hack 2 db_list)) (named 1 names)

  fill_args-length :
      (pid fd : ℕ) (type : LockType) (l : HelperLock)
      → length (fill_args hack db_list pid fd type l) ≡ count_args hack db_list type l.priority
  unfolding fill_args count_args
  fill_args-length pid fd lock_record l = refl
  fill_args-length pid fd lock_db l = refl
  fill_args-length pid fd lock_alldb_prio l =
      let dbs = order hack l.priority db_list in
      ap length (named l.priority (first_args pid fd "DB"))
      ∙ omega (
        arith,
        length-append (first_args pid fd "DB") (paths dbs),
        length-paths dbs,
        counted l.priority 4,
      )
  fill_args-length pid fd lock_alldb l =
      let one = order hack 1 db_list in
      let two = order hack 2 db_list in
      let names = first_args pid fd "DB" in
      ap length (all_named names)
      ∙ omega (
        arith,
        length-append (names ++ paths one) (paths two),
        length-append names (paths one),
        length-paths one,
        length-paths two,
        all_counted 4,
      )

  -- The arguments of the lock helper and the final NULL fill the array that is allocated for them, for every kind of
  -- lock.
  pub lock_helper_args-fit :
      (pid fd : ℕ) (l : HelperLock)
      → (let (nargs, args) = lock_helper_args hack db_list pid fd l in length args + 1 ≡ nargs)
  unfolding lock_helper_args
  lock_helper_args-fit pid fd l = ap (λ n. n + 1) (fill_args-length pid fd l.type l)

  -- When every database has a priority from 1 to 3, the lock helper that is to lock all databases is given the paths of
  -- all but those of priority 3 that are not to come later.
  pub lock_helper_args-omit :
      (pid fd : ℕ) (l : HelperLock)
      → l.type ≡ lock_alldb
      → All HasPriority db_list
      → (covered : List Database) × Perm (covered ++ select (in_time hack 3) db_list) db_list
        × ((lock_helper_args hack db_list pid fd l).1 ≡ first_args pid fd "DB" ++ paths covered)
  unfolding lock_helper_args fill_args
  lock_helper_args-omit pid fd l e h =
      let one = order hack 1 db_list in
      let two = order hack 2 db_list in
      let three = select (in_time hack 3) db_list in
      let same : all_orders hack db_list ≡ (one ++ two) ++ three =
        sym (append_assoc one two (order hack 3 db_list))
        ∙ ap (λ l. (one ++ two) ++ l) (append-nil three) in
      (
        one ++ two,
        subst (λ l. Perm l db_list) same (all_orders-perm hack db_list h),
        ap (λ t. fill_args hack db_list pid fd t l) e
            ∙ all_named (first_args pid fd "DB")
            ∙ ap (λ l. first_args pid fd "DB" ++ l) (sym (paths-append one two)),
      )
