-- ===== src/Marshall/Record.antt =====
-- common/ctdb_util.c: ctdb_marshall_record. A struct ctdb_rec_data is four words of 32 bits, then the key
-- and the data.
use ctdb.Base.{ℕ, ◌+◌, none, some, Option, List, ◌++◌, length}
use ctdb.PacketQueue.Word.{bytes32}

-- sizeof(struct ctdb_ltdb_header), and the offset of the data in struct ctdb_rec_data
abbrev pub header_size : ℕ
header_size = 24

abbrev pub rec_data_size : ℕ
rec_data_size = 16

-- A record to send; the header is the 24 bytes of its structure.
pub record Entry : Type 0 where
  pub reqid : ℕ
  pub key : List ℕ
  pub header : Option (List ℕ)
  pub body : List ℕ

-- The header, if there is one, stands in front of the data.
unfoldable pub payload : Option (List ℕ) → List ℕ → List ℕ
payload none body = body
payload (some header) body = header ++ body

unfoldable pub header_length : Option (List ℕ) → ℕ
header_length none = 0
header_length (some header) = header_size

unfoldable pub ctdb_marshall_record : Entry → List ℕ
ctdb_marshall_record e =
    bytes32 (rec_data_size + length e.key + length e.body + header_length e.header)
    ++ bytes32 e.reqid
    ++ bytes32 (length e.key)
    ++ bytes32 (length e.body + header_length e.header)
    ++ e.key
    ++ payload e.header e.body
