-- ===== src/Lock/Databases.antt =====
-- server/ctdb_lock.c: the databases of a priority, marking and unmarking them, and the arguments of the lock helper.
use Prim.Native.Char.{code}
use Prim.Native.String.{String}
use ctdb.Base.{
  ℕ, zero, suc, ◌+◌, ◌-◌, Bool, true, false, not, ◌&&◌, ◌||◌, none, some, Option, List, [], ◌∷◌,
  ◌++◌, ◌==◌, leb, ltb, u32_mod, u32, if◌then◌else◌,
}
use ctdb.Lock.Context.{LockType, lock_record, lock_db, lock_alldb_prio, lock_alldb}
use ctdb.Freeze.State.{FreezeMode, is_frozen}
use ctdb.Lock.Schedule.{num_db_priorities}

abbrev pub codes : String → List ℕ
codes String.[] = []
codes (String.◌∷◌ c s) = code c ∷ codes s

unfoldable pub starts_with : List ℕ → List ℕ → Bool
starts_with [] hay = true
starts_with (c ∷ cs) [] = false
starts_with (c ∷ cs) (h ∷ hay) = let rest = starts_with cs hay in c == h && rest

-- strstr: whether the text has the word in it.
unfoldable pub strstr : List ℕ → List ℕ → Bool
strstr [] word = starts_with word []
strstr (h ∷ hay) word = let rest = strstr hay word in starts_with word (h ∷ hay) || rest

pub record Database : Type 0 where
  pub db_name : List ℕ
  pub db_path : List ℕ
  pub priority : ℕ

unfoldable pub later_db : (samba3_hack : ℕ) → List ℕ → Bool
later_db samba3_hack name =
    if samba3_hack == 0
    then false
    else strstr name (codes "brlock")
      || strstr name (codes "g_lock")
      || strstr name (codes "notify_onelevel")
      || strstr name (codes "serverid")
      || strstr name (codes "xattr_tdb")

-- A handler changes the state and returns whether it succeeded.
abbrev pub Handler {ℓ} : Type ℓ → Type ℓ
Handler S = Database → S → Bool × S

module _ {ℓ} {S : Type ℓ} (handler : Handler S) where
  -- The first loop: the databases of the priority that are not to come later.
  unfoldable pub first_loop : (hack priority : ℕ) → List Database → S → Bool × S
  first_loop hack priority [] s = (true, s)
  first_loop hack priority (db ∷ dbs) s =
      let past = first_loop hack priority dbs s in
      let (ok, s') = handler db s in
      let rest = first_loop hack priority dbs s' in
      if not (db.priority == priority)
      then past
      else if later_db hack db.db_name
      then past
      else if not ok
      then (false, s')
      else rest

  -- The second loop: the databases that come later.
  unfoldable pub second_loop : (hack : ℕ) → List Database → S → Bool × S
  second_loop hack [] s = (true, s)
  second_loop hack (db ∷ dbs) s =
      let past = second_loop hack dbs s in
      let (ok, s') = handler db s in
      let rest = second_loop hack dbs s' in
      if not (later_db hack db.db_name) then past else if not ok then (false, s') else rest

  unfoldable pub ctdb_db_iterator : (hack : ℕ) → List Database → ℕ → S → Bool × S
  ctdb_db_iterator hack db_list priority s =
      let (ok, s') = first_loop hack priority db_list s in
      if not ok
      then (false, s')
      else if not (priority == 1)
      then (true, s')
      else second_loop hack db_list s'

-- What the main daemon uses of tdb to mark a database as locked.
pub record Marks : Type 1 where
  pub State : Type 0
  pub tdb_transaction_write_lock_mark : Handler State
  pub tdb_lockall_mark : Handler State
  pub tdb_transaction_write_lock_unmark : Handler State
  pub tdb_lockall_unmark : Handler State

module _ (m : Marks) (hack : ℕ) (db_list : List Database) where
  unfoldable pub db_lock_mark_handler : Handler m.State
  db_lock_mark_handler db s =
      let (ok, s') = m.tdb_transaction_write_lock_mark db s in
      if not ok then (false, s') else m.tdb_lockall_mark db s'

  unfoldable pub db_lock_unmark_handler : Handler m.State
  db_lock_unmark_handler db s =
      let (ok, s') = m.tdb_transaction_write_lock_unmark db s in
      if not ok then (false, s') else m.tdb_lockall_unmark db s'

  unfoldable pub ctdb_lockall_mark_prio : (ℕ → FreezeMode) → ℕ → m.State → Bool × m.State
  ctdb_lockall_mark_prio freeze_mode priority s =
      if not (is_frozen (freeze_mode priority))
      then (false, s)
      else ctdb_db_iterator db_lock_mark_handler hack db_list priority s

  -- The loop over the priorities, on fuel; `none` when it runs out.
  unfoldable pub mark_loop : (fuel priority : ℕ) → m.State → Option (Bool × m.State)
  mark_loop zero priority s = none
  mark_loop (suc fuel) priority s =
      let (ok, s') = ctdb_db_iterator db_lock_mark_handler hack db_list priority s in
      let rest = mark_loop fuel (u32 (priority + 1)) s' in
      if not (leb priority num_db_priorities)
      then some (true, s)
      else if not ok
      then some (false, s')
      else rest

  unfoldable pub ctdb_lockall_mark : ℕ → m.State → Option (Bool × m.State)
  unfolding mark_loop
  ctdb_lockall_mark fuel s = mark_loop fuel 1 s

  unfoldable pub ctdb_lockall_unmark_prio : (ℕ → FreezeMode) → ℕ → m.State → Bool × m.State
  ctdb_lockall_unmark_prio freeze_mode priority s =
      if not (is_frozen (freeze_mode priority))
      then (false, s)
      else ctdb_db_iterator db_lock_unmark_handler hack db_list priority s

  -- `priority` is a `uint32_t` that is counted down.
  unfoldable pub unmark_loop : (fuel priority : ℕ) → m.State → Option (Bool × m.State)
  unmark_loop zero priority s = none
  unmark_loop (suc fuel) priority s =
      let (ok, s') = ctdb_db_iterator db_lock_unmark_handler hack db_list priority s in
      let rest = unmark_loop fuel (u32 (priority + u32_mod - 1)) s' in
      if not (leb 0 priority) then some (true, s) else if not ok then some (false, s') else rest

  unfoldable pub ctdb_lockall_unmark : ℕ → m.State → Option (Bool × m.State)
  unfolding unmark_loop
  ctdb_lockall_unmark fuel s = unmark_loop fuel num_db_priorities s

-- An argument of the helper: a text, a number in decimal digits, or bytes in hexadecimal digits.
pub data HelperArg : Type 0 where
  text : List ℕ → HelperArg
  number : ℕ → HelperArg
  hex : List ℕ → HelperArg

unfoldable pub db_count_handler : Handler ℕ
db_count_handler db count = (true, count + 1)

unfoldable pub db_name_handler : Handler (List HelperArg)
db_name_handler db names = (true, names ++ text db.db_path ∷ [])

-- What lock_helper_args reads of a lock context.
pub record HelperLock : Type 0 where
  pub type : LockType
  pub ctdb_db : Database
  pub key : List ℕ
  pub priority : ℕ

unfoldable pub key_arg : List ℕ → HelperArg
key_arg [] = text (codes "NULL")
key_arg (k ∷ key) = hex (k ∷ key)

abbrev pub first_args : (pid fd : ℕ) → String → List HelperArg
first_args pid fd kind =
    text (codes "ctdb_lock_helper") ∷ number pid ∷ number fd ∷ text (codes kind) ∷ []

module _ (hack : ℕ) (db_list : List Database) where
  -- The loop of LOCK_ALLDB, for either handler.
  unfoldable pub all_priorities {ℓ} : {S : Type ℓ} → Handler S → (fuel priority : ℕ) → S → S
  all_priorities handler zero priority s = s
  all_priorities handler (suc fuel) priority s =
      let (ok, s') = ctdb_db_iterator handler hack db_list priority s in
      let rest = all_priorities handler fuel (priority + 1) s' in
      if not (ltb priority num_db_priorities) then s else rest

  unfoldable pub count_args : LockType → ℕ → ℕ
  count_args lock_record priority = 6
  count_args lock_db priority = 5
  count_args lock_alldb_prio priority =
      (ctdb_db_iterator db_count_handler hack db_list priority 4).1
  count_args lock_alldb priority = all_priorities db_count_handler num_db_priorities 1 4

  unfoldable pub fill_args : (pid fd : ℕ) → LockType → HelperLock → List HelperArg
  unfolding key_arg
  fill_args pid fd lock_record l =
      first_args pid fd "RECORD" ++ text l.ctdb_db.db_path ∷ key_arg l.key ∷ []
  fill_args pid fd lock_db l = first_args pid fd "DB" ++ text l.ctdb_db.db_path ∷ []
  fill_args pid fd lock_alldb_prio l =
      (ctdb_db_iterator db_name_handler hack db_list l.priority (first_args pid fd "DB")).1
  fill_args pid fd lock_alldb l =
      all_priorities db_name_handler num_db_priorities 1 (first_args pid fd "DB")

  -- The number of the slots of the array, with the one for the final NULL, and the arguments.
  unfoldable pub lock_helper_args : (pid fd : ℕ) → HelperLock → ℕ × List HelperArg
  unfolding count_args fill_args
  lock_helper_args pid fd l = (count_args l.type l.priority + 1, fill_args pid fd l.type l)
