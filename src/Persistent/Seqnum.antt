-- ===== src/Persistent/Seqnum.antt =====
-- server/ctdb_persistent.c: the answer of a node that is asked for the sequence number of a database, on a little-endian
-- host. The store is that of the key CTDB_DB_SEQNUM_KEY.
use ctdb.Base.{
  ℕ, ◌+◌, ◌*◌, ◌%◌, ◌≡◌, ◌∙◌, ap, arith, Option, none, some, List, [], ◌∷◌, length, drop, ◌==◌,
  if◌then◌else◌, not,
}
use ctdb.PacketQueue.Word.{load32}
use ctdb.Dmaster.Header.{Rec}
use ctdb.Dmaster.Node.{Env, Node}
use ctdb.Dmaster.Store.{Fetched, fetch_missing, ctdb_ltdb_fetch}

-- `*(uint64_t *)data`
unfoldable pub load64 : List ℕ → ℕ
unfolding load32
load64 bytes = load32 bytes + 4294967296 * load32 (drop 4 bytes)

module _ (e : Env) where
  -- `none` is an unknown database, an error.
  unfoldable pub ctdb_get_db_seqnum : Option (Node e.State) → Option ℕ
  unfolding load64 ctdb_ltdb_fetch
  ctdb_get_db_seqnum none = none
  ctdb_get_db_seqnum (some n) =
      let found = (ctdb_ltdb_fetch e n).body in
      some (if not (length found == 8) then 0 else load64 found)

-- The assignment is to the first of eight bytes.
abbrev pub outdata : Option ℕ → Option (List ℕ)
outdata none = none
outdata (some seqnum) = some ((seqnum % 256) ∷ 0 ∷ 0 ∷ 0 ∷ 0 ∷ 0 ∷ 0 ∷ 0 ∷ [])

unfoldable pub ctdb_control_get_db_seqnum : (e : Env) → Option (Node e.State) → Option (List ℕ)
unfolding ctdb_get_db_seqnum
ctdb_control_get_db_seqnum e n = outdata (ctdb_get_db_seqnum e n)

-- What the recovery daemon reads from the answer.
abbrev pub answered : Option (List ℕ) → Option ℕ
answered none = none
answered (some bytes) = some (load64 bytes)

-- The number that the record holds, 0 if it has another size.
abbrev pub held : List ℕ → ℕ
held body = if not (length body == 8) then 0 else load64 body

load64-low : (x : ℕ) → load64 (x ∷ 0 ∷ 0 ∷ 0 ∷ 0 ∷ 0 ∷ 0 ∷ 0 ∷ []) ≡ x
unfolding load64 load32
load64-low x = omega arith

fetched :
    (e : Env) (n : Node e.State) (r : Rec)
    → e.fetch n.store ≡ some r
    → (ctdb_ltdb_fetch e n).body ≡ r.body
unfolding ctdb_ltdb_fetch
fetched e n r h =
    let view : Option Rec → Fetched e = λ o. elim o [
      | none ↦ fetch_missing e n
      | some x ↦ record { node = n; header = x.header; body = x.body }
    ] in
    ap (λ o. (view o).body) h

pub answered-low_byte :
    (e : Env) (n : Node e.State) (r : Rec)
    → e.fetch n.store ≡ some r
    → answered (ctdb_control_get_db_seqnum e (some n)) ≡ some (held r.body % 256)
unfolding ctdb_control_get_db_seqnum ctdb_get_db_seqnum
answered-low_byte e n r h = ap some (load64-low _) ∙ ap (λ b. some (held b % 256)) (fetched e n r h)
