-- ===== src/Marshall/Buffer.antt =====
-- common/ctdb_util.c: ctdb_marshall_add, ctdb_marshall_finish and ctdb_marshall_loop_next. Memory is always
-- had.
use ctdb.Base.{
  ℕ, zero, suc, ◌+◌, Bool, ltb, none, some, Option, List, [], ◌∷◌, ◌++◌, take, drop, if◌then◌else◌,
  u32,
}
use ctdb.PacketQueue.Word.{load32, bytes32}
use ctdb.Marshall.Record.{header_size, rec_data_size, Entry, ctdb_marshall_record}

-- `struct ctdb_marshall_buffer`
pub record MarshallBuffer : Type 0 where
  pub db_id : ℕ
  pub count : ℕ
  pub bytes : List ℕ

-- A buffer that is not there yet is made.
unfoldable pub ctdb_marshall_add : ℕ → Entry → Option MarshallBuffer → MarshallBuffer
ctdb_marshall_add db_id e none = record { db_id = db_id; count = 1; bytes = ctdb_marshall_record e }
ctdb_marshall_add db_id e (some m) = record m {
  count = u32 (m.count + 1);
  bytes = m.bytes ++ ctdb_marshall_record e;
}

unfoldable pub ctdb_marshall_finish : MarshallBuffer → List ℕ
ctdb_marshall_finish m = bytes32 m.db_id ++ bytes32 m.count ++ m.bytes

-- The record whose bytes start here: the request, the key, and the data with its header, if that is asked
-- for. A record that is too short for a header is an error.
unfoldable pub read_entry :
    (with_header : Bool) (reqid datalen : ℕ) (key value : List ℕ) → Option Entry
read_entry with_header reqid datalen key value =
    if with_header
    then (if ltb datalen header_size
        then none
        else some (record {
          reqid = reqid;
          key = key;
          header = some (take header_size value);
          body = drop header_size value;
        }))
    else some (record { reqid = reqid; key = key; header = none; body = value })

unfoldable pub read_parts : (with_header : Bool) (reqid keylen datalen : ℕ) → List ℕ → Option Entry
read_parts with_header reqid keylen datalen bytes =
    read_entry with_header reqid datalen (take keylen bytes) (take datalen (drop keylen bytes))

unfoldable pub read_record : (with_header : Bool) → List ℕ → Option Entry
read_record with_header r =
    read_parts with_header (load32 (drop 4 r)) (load32 (drop 8 r)) (load32 (drop 12 r))
      (drop rec_data_size r)

-- The record that comes next in the bytes: the first one, or the one behind.
unfoldable pub ctdb_marshall_loop_next : List ℕ → Option ℕ → ℕ
ctdb_marshall_loop_next bytes none = 0
ctdb_marshall_loop_next bytes (some r) = r + load32 (drop r bytes)

unfoldable pub with_rest : Option Entry → Option (List Entry) → Option (List Entry)
with_rest none rest = none
with_rest (some e) none = none
with_rest (some e) (some es) = some (e ∷ es)

-- The loop over a buffer, as often as its count says, as in ctdb_persistent_store of
-- server/ctdb_update_record.c.
unfoldable pub loop_from : (with_header : Bool) → ℕ → List ℕ → Option ℕ → Option (List Entry)
loop_from with_header zero bytes r = some []
loop_from with_header (suc n) bytes r =
    let next = ctdb_marshall_loop_next bytes r in
    let rest = loop_from with_header n bytes (some next) in
    with_rest (read_record with_header (drop next bytes)) rest
