-- ===== src/Lock/Context.antt =====
-- server/ctdb_lock.c: the lock contexts with their requests, and find_lock_context.
use ctdb.Base.{
  ℕ, ◌≡◌, ◌↔◌, refl, arith, Bool, true, false, ◌&&◌, none, some, Option, List, [], ◌∷◌, ◌==◌,
  if◌then◌else◌,
}

pub data LockType : Type 0 where
  lock_record : LockType
  lock_db : LockType
  lock_alldb_prio : LockType
  lock_alldb : LockType

abbrev pub same_type : LockType → LockType → Bool
same_type lock_record lock_record = true
same_type lock_db lock_db = true
same_type lock_alldb_prio lock_alldb_prio = true
same_type lock_alldb lock_alldb = true
same_type _ _ = false

-- The bytes of two keys: `dsize` and `memcmp`.
unfoldable pub same_key : List ℕ → List ℕ → Bool
same_key [] [] = true
same_key (a ∷ key) (b ∷ other) = let rest = same_key key other in a == b && rest
same_key _ _ = false

abbrev pub same_db : Option ℕ → Option ℕ → Bool
same_db none none = true
same_db (some a) (some b) = a == b
same_db _ _ = false

-- What find_lock_context is told: `ctdb_db` is the database's address, if there is one.
pub record Target : Type 0 where
  pub type : LockType
  pub ctdb_db : Option ℕ
  pub key : List ℕ
  pub priority : ℕ

-- `struct lock_context`; a request is known by a number, and so is the context, by its address.
pub record LockContext : Type 0 where
  pub id : ℕ
  pub target : Target
  pub auto_mark : Bool
  pub req_queue : List ℕ
  pub child : Option ℕ
  pub has_destructor : Bool

-- The test for one context of the list.
abbrev pub fits_by : LockType → Target → Target → Bool
fits_by lock_record t c = same_db t.ctdb_db c.ctdb_db && same_key t.key c.key
fits_by lock_db t c = same_db t.ctdb_db c.ctdb_db
fits_by lock_alldb_prio t c = t.priority == c.priority
fits_by lock_alldb t c = true

unfoldable pub fits : Target → Target → Bool
fits t c = if same_type c.type t.type then fits_by c.type t c else false

unfoldable pub find_lock_context : List LockContext → Target → Option LockContext
find_lock_context [] t = none
find_lock_context (c ∷ cs) t =
    let rest = find_lock_context cs t in if fits t c.target then some c else rest

-- The lock that a context stands for.
pub data Lock : Type 0 where
  record_of : Option ℕ → List ℕ → Lock
  database : Option ℕ → Lock
  priority_level : ℕ → Lock
  everything : Lock

abbrev pub lock_by : LockType → Target → Lock
lock_by lock_record t = record_of t.ctdb_db t.key
lock_by lock_db t = database t.ctdb_db
lock_by lock_alldb_prio t = priority_level t.priority
lock_by lock_alldb t = everything

abbrev pub lock_of : Target → Lock
lock_of t = lock_by t.type t

same_db_iff : (a b : Option ℕ) → (same_db a b ≡ true) ↔ (a ≡ b)
same_db_iff none none = ((λ _. refl), λ _. refl)
same_db_iff none (some b) = ((λ e. cc), λ e. cc)
same_db_iff (some a) none = ((λ e. cc), λ e. cc)
same_db_iff (some a) (some b) = ((λ e. ground (arith, e)), λ e. ground (arith, e))

same_key_iff : (a b : List ℕ) → (same_key a b ≡ true) ↔ (a ≡ b)
unfolding same_key
same_key_iff [] [] = ((λ _. refl), λ _. refl)
same_key_iff [] (b ∷ bs) = ((λ e. cc), λ e. cc)
same_key_iff (a ∷ as') [] = ((λ e. cc), λ e. cc)
same_key_iff (a ∷ as') (b ∷ bs) =
    let h = same_key_iff as' bs in ((λ e. ground (arith, e, h)), λ e. ground (arith, e, h))

fits_parts :
    (ty uy : LockType) (t c : Target)
    → ((if same_type ty uy then fits_by ty t c else false) ≡ true) ↔ (lock_by uy t ≡ lock_by ty c)
fits_parts lock_record lock_record t c =
    ground (arith, same_db_iff t.ctdb_db c.ctdb_db, same_key_iff t.key c.key)
fits_parts lock_db lock_db t c = ground (arith, same_db_iff t.ctdb_db c.ctdb_db)
fits_parts lock_alldb_prio lock_alldb_prio t c = ground arith
fits_parts lock_alldb lock_alldb t c = ground arith
fits_parts _ _ t c = ground arith

-- The test compares the locks.
pub fits_iff : (t c : Target) → (fits t c ≡ true) ↔ (lock_of t ≡ lock_of c)
unfolding fits
fits_iff t c = fits_parts c.type t.type t c
