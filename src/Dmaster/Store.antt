-- ===== src/Dmaster/Store.antt =====
-- common/ctdb_ltdb.c and server/ctdb_ltdb_server.c: reading and writing the record.
use ctdb.Base.{
  ℕ, ◌+◌, Bool, true, false, ◌&&◌, ◌||◌, not, none, some, List, [], ◌∷◌, ◌==◌, if◌then◌else◌,
}
use ctdb.Dmaster.Header.{Header, ro_flags, no_flags, u64}
use ctdb.Dmaster.Node.{
  Env, Node, schedule_for_deletion, remove_from_delete_queue, note, ctdb_lmaster,
}

abbrev pub is_empty : List ℕ → Bool
is_empty [] = true
is_empty (x ∷ xs) = false

-- `keep` and the first value of `schedule_for_deletion`.
pub data Keep : Type 0 where
  drop keep keep_and_schedule : Keep

module _ (e : Env) where
  abbrev pub lmaster : Node e.State → ℕ
  lmaster n = ctdb_lmaster e n.vnn_map

  unfoldable pub keep_record : Node e.State → Header → List ℕ → Keep
  keep_record n h body =
      if not (is_empty body)
      then keep
      else if ro_flags h.flags
      then keep
      else if n.persistent
      then keep
      else if h.flags.automatic
      then keep_and_schedule
      else if h.flags.migrated_with_data
      then keep
      else if n.pnn == lmaster n
      then (if not h.flags.vacuum_migrated
          then keep
          else if not (n.pnn == h.dmaster)
          then keep
          else drop)
      else if n.pnn == h.dmaster
      then keep
      else drop

  -- The header as it is written: the source writes through the pointer that it is given.
  unfoldable pub stored_header : Node e.State → Header → Header
  stored_header n h = record {
    rsn =
        if not n.persistent && (n.pnn == h.dmaster) && not (ro_flags h.flags)
        then u64 (h.rsn + 1)
        else h.rsn;
    dmaster = h.dmaster;
    flags = record h.flags { vacuum_migrated = false; automatic = false };
  }

  -- The same for a record that is deleted, whose rsn stays.
  unfoldable pub dropped_header : Header → Header
  dropped_header h = record h {
    flags = record h.flags { vacuum_migrated = false; automatic = false };
  }

  -- The return value 0 as `ok`, the node, and the header that the caller sees afterwards.
  pub record Stored : Type 0 where
    pub ok : Bool
    pub node : Node e.State
    pub header : Header

  -- The record is scheduled for deletion if it was made by a fetch, or is empty here, its dmaster.
  unfoldable pub schedules : Node e.State → Header → List ℕ → Keep → Bool
  schedules n h body keep_and_schedule = true
  schedules n h body keep =
      is_empty body && not n.persistent && (n.pnn == h.dmaster) && not (ro_flags h.flags)
  schedules n h body drop = false

  unfoldable pub write : Node e.State → Header → List ℕ → Bool → Stored
  write n h body schedule =
      elim (e.store n.store (record { header = stored_header n h; body = body })) [
        | none ↦ record { ok = false; node = n; header = stored_header n h }
        | some t ↦ record {
          ok = true;
          node =
              note (if schedule then schedule_for_deletion else remove_from_delete_queue)
                (record n { store = t });
          header = stored_header n h;
        }
      ]

  unfoldable pub remove : Node e.State → Header → Stored
  remove n h = elim (e.delete n.store) [
    | none ↦ record { ok = false; node = n; header = dropped_header h }
    | some t ↦ record { ok = true; node = record n { store = t }; header = dropped_header h }
  ]

  -- `ctdb_ltdb_store`, which the daemon directs to this function.
  unfoldable pub ctdb_ltdb_store_server : Node e.State → Header → List ℕ → Stored
  ctdb_ltdb_store_server n h body = elim (keep_record n h body) [
    | drop ↦ remove n h
    | keep ↦ write n h body (schedules n h body keep)
    | keep_and_schedule ↦ write n h body true
  ]

  unfoldable pub ltdb_initial_header : Node e.State → Header
  ltdb_initial_header n = record {
    rsn = 0;
    dmaster = lmaster n;
    flags = record no_flags { automatic = true };
  }

  pub record Fetched : Type 0 where
    pub node : Node e.State
    pub header : Header
    pub body : List ℕ

  -- A missing record is made on its lmaster, and in a persistent database; a failure is ignored.
  unfoldable pub fetch_missing : Node e.State → Fetched
  fetch_missing n =
      let h = ltdb_initial_header n in
      if n.persistent || (h.dmaster == n.pnn)
      then (let s = ctdb_ltdb_store_server n h [] in
          record { node = s.node; header = s.header; body = [] })
      else record { node = n; header = h; body = [] }

  unfoldable pub ctdb_ltdb_fetch : Node e.State → Fetched
  ctdb_ltdb_fetch n = elim (e.fetch n.store) [
    | none ↦ fetch_missing n
    | some r ↦ record { node = n; header = r.header; body = r.body }
  ]
