-- ===== src/Recovery/Pull.antt =====
-- server/ctdb_recoverd.c: pull_one_remote_database, pull_highest_seqnum_pdb and pull_remote_database, which
-- collect the records of all nodes in the recovery database.
use ctdb.Base.{
  ℕ, Bool, true, false, not, ◌&&◌, ◌||◌, none, some, Option, List, [], ◌∷◌, ◌==◌, ltb,
  if◌then◌else◌,
}
use ctdb.Dmaster.Header.{Header, Rec}
use ctdb.Recovery.Database.{Value, short, full, Dbs}

-- A node of the node map, with its answers to GET_DB_SEQNUM and PULL_DB (`none` for an error).
pub record Remote : Type 0 where
  pub pnn : ℕ
  pub inactive : Bool
  pub seqnum : Option ℕ
  pub pulldb : Option (List (ℕ × Value))

-- Whether the record that comes takes the place of the one that is there.
unfoldable pub replaces : ℕ → Header → Header → Bool
replaces recovery_master header hdr =
    ltb header.rsn hdr.rsn || (not (header.dmaster == recovery_master) && (header.rsn == hdr.rsn))

-- `struct pull_seqnum_cbdata`; `none` is a `pnn` of -1.
pub record PullSeqnum : Type 0 where
  pub failed : Bool
  pub pnn : Option ℕ
  pub seqnum : ℕ

-- The callback for one node, in the order in which the answers come.
unfoldable pub pull_seqnum_cb : ℕ → Option ℕ → PullSeqnum → PullSeqnum
pull_seqnum_cb node_pnn none c = record c { failed = true }
pull_seqnum_cb node_pnn (some seqnum) c =
    if c.failed
    then c
    else if ltb c.seqnum seqnum
    then record c { seqnum = seqnum; pnn = some node_pnn }
    else c

-- The nodes in the order in which their answers come; an inactive one is not asked.
unfoldable pub pull_seqnums : List Remote → PullSeqnum → PullSeqnum
pull_seqnums [] c = c
pull_seqnums (r ∷ rs) c =
    let next = if r.inactive then c else pull_seqnum_cb r.pnn r.seqnum c in pull_seqnums rs next

abbrev pub find_node : ℕ → List Remote → Option Remote
find_node pnn [] = none
find_node pnn (r ∷ rs) = let rest = find_node pnn rs in if r.pnn == pnn then some r else rest

module _ (d : Dbs) where
  -- The recovery database, and whether the function returns 0.
  pub record Pulled : Type 0 where
    pub ok : Bool
    pub recdb : d.State

  -- A record that comes, against the existing one; `none` for a failure.
  unfoldable pub merge_record : ℕ → ℕ → Rec → d.State → Option Value → Option d.State
  merge_record recovery_master k r s none = d.store s k r
  merge_record recovery_master k r s (some (short bytes)) = none
  merge_record recovery_master k r s (some (full existing)) =
      if not (replaces recovery_master existing.header r.header) then some s else d.store s k r

  unfoldable pub pull_record : ℕ → ℕ → Value → d.State → Option d.State
  pull_record recovery_master k (short bytes) s = none
  pull_record recovery_master k (full r) s = merge_record recovery_master k r s (d.fetch s k)

  unfoldable pub pull_records : ℕ → List (ℕ × Value) → d.State → Pulled
  pull_records recovery_master [] s = record { ok = true; recdb = s }
  pull_records recovery_master ((k, v) ∷ rs) s = elim (pull_record recovery_master k v s) [
    | none ↦ record { ok = false; recdb = s }
    | some t ↦ pull_records recovery_master rs t
  ]

  unfoldable pub pull_answer : ℕ → Option (List (ℕ × Value)) → d.State → Pulled
  pull_answer recovery_master none s = record { ok = false; recdb = s }
  pull_answer recovery_master (some records) s = pull_records recovery_master records s

  unfoldable pub pull_one_remote_database : ℕ → Remote → d.State → Pulled
  pull_one_remote_database recovery_master r s = pull_answer recovery_master r.pulldb s

  -- The answers come in some order, `arrived`, as the controls are sent to all active nodes at once.
  unfoldable pub pull_highest_seqnum_pdb : ℕ → (arrived nodes : List Remote) → d.State → Pulled
  pull_highest_seqnum_pdb recovery_master arrived nodes s =
      let c = pull_seqnums arrived (record { failed = false; pnn = none; seqnum = 0 }) in
      if c.failed || (c.seqnum == 0) then record { ok = false; recdb = s } else elim c.pnn [
        | none ↦ record { ok = false; recdb = s }
        | some pnn ↦ elim (find_node pnn nodes) [
          | none ↦ record { ok = false; recdb = s }
          | some r ↦ pull_one_remote_database recovery_master r s
        ]
      ]

  -- The records of all active nodes are merged.
  unfoldable pub pull_all : ℕ → List Remote → d.State → Pulled
  pull_all recovery_master [] s = record { ok = true; recdb = s }
  pull_all recovery_master (r ∷ rs) s =
      let p = pull_one_remote_database recovery_master r s in
      let rest = pull_all recovery_master rs p.recdb in
      let skip = pull_all recovery_master rs s in
      if r.inactive then skip else if not p.ok then p else rest

  unfoldable pub pull_remote_database :
      (by_seqnum : Bool) → ℕ → Bool → (arrived nodes : List Remote) → d.State → Pulled
  pull_remote_database by_seqnum recovery_master persistent arrived nodes s =
      let p = pull_highest_seqnum_pdb recovery_master arrived nodes s in
      if persistent && by_seqnum
      then (if p.ok then p else pull_all recovery_master nodes p.recdb)
      else pull_all recovery_master nodes s
