-- ===== src/Persistent/Update.antt =====
-- server/ctdb_update_record.c: a node writes the records of a transaction.
use ctdb.Base.{
  ℕ, Bool, true, false, not, ◌&&◌, none, some, Option, List, [], ◌∷◌, ◌==◌, leb, if◌then◌else◌,
}
use ctdb.Dmaster.Header.{Rec}
use ctdb.Dmaster.Node.{Node}
use ctdb.Dmaster.Store.{ctdb_ltdb_fetch, ctdb_ltdb_store_server}
use ctdb.Recovery.Database.{Value, short, full, Dbs, at_key}

-- The sizes are the same, and `memcmp` is 0.
abbrev pub same_bytes : List ℕ → List ℕ → Bool
same_bytes [] [] = true
same_bytes [] (y ∷ ys) = false
same_bytes (x ∷ xs) [] = false
same_bytes (x ∷ xs) (y ∷ ys) = (x == y) && same_bytes xs ys

-- `tdb_fetch` gives no bytes.
abbrev pub is_missing : Option Value → Bool
is_missing none = true
is_missing (some (short [])) = true
is_missing (some (short (b ∷ bytes))) = false
is_missing (some (full r)) = false

-- The system calls and the library: whether a child process is made, whether its transaction starts and is committed,
-- and whether its answer is read.
pub record Child : Type 0 where
  pub forked : Bool
  pub starts : Bool
  pub commits : Bool
  pub reads : Bool

-- The status that the parent reads from the child.
abbrev pub childwrite_handler : Child → (written : Bool) → ℕ
childwrite_handler c written = if not c.reads then 1 else if written then 0 else 1

module _ (d : Dbs) where
  -- One record: it is skipped, is refused, or is stored.
  unfoldable pub write_one : (replace_only : Bool) → ℕ → Rec → Node d.State → Option (Node d.State)
  write_one replace_only k r n =
      let old = ctdb_ltdb_fetch (at_key d k) n in
      let s = ctdb_ltdb_store_server (at_key d k) old.node r.header r.body in
      if replace_only && is_missing (d.fetch n.store k)
      then some n
      else if leb r.header.rsn old.header.rsn && not (same_bytes old.body r.body)
      then none
      else if not s.ok
      then none
      else some s.node

  -- A record that is too short to be read ends the loop.
  unfoldable pub write_all :
      (replace_only : Bool) → List (ℕ × Value) → Node d.State → Option (Node d.State)
  write_all replace_only [] n = some n
  write_all replace_only ((k, short bytes) ∷ rs) n = none
  write_all replace_only ((k, full r) ∷ rs) n = elim (write_one replace_only k r n) [
    | none ↦ none
    | some m ↦ write_all replace_only rs m
  ]

  -- The return value 0, and the file, which a transaction that is not committed leaves as it was.
  unfoldable pub ctdb_persistent_store :
      Child → (replace_only : Bool) → List (ℕ × Value) → Node d.State → Bool × d.State
  unfolding write_all write_one
  ctdb_persistent_store c replace_only rs n =
      if not c.starts then (false, n.store) else elim (write_all replace_only rs n) [
        | none ↦ (false, n.store)
        | some m ↦ if not c.commits then (false, n.store) else (true, m.store)
      ]

  -- The status of the reply, `none` for an error at once. What the child notes for the queue of records to delete is
  -- lost with it.
  unfoldable pub ctdb_control_update_record :
      Child
      → (recovery_normal healthy : Bool) → List (ℕ × Value)
      → Node d.State
      → Option ℕ × Node d.State
  unfolding ctdb_persistent_store
  ctdb_control_update_record c recovery_normal healthy rs n =
      let (written, store) = ctdb_persistent_store c (not n.persistent) rs n in
      if not recovery_normal
      then (none, n)
      else if not n.attached
      then (none, n)
      else if not healthy
      then (none, n)
      else if not c.forked
      then (none, n)
      else (some (childwrite_handler c written), record n { store = store })
