-- ===== src/Dmaster/Header.antt =====
-- include/ctdb_protocol.h: the header of a record, and the packets of the dmaster protocol. Flags are
-- one field to a bit. A key stands for its bytes: keys are only hashed and compared.
use ctdb.Base.{ℕ, Bool, false, ◌||◌, Option, List, ◌%◌, ◌^◌}

-- CTDB_REC_FLAG_* and CTDB_REC_RO_*
pub record RecFlags : Type 0 where
  pub migrated_with_data : Bool
  pub vacuum_migrated : Bool
  pub automatic : Bool
  pub ro_have_delegations : Bool
  pub ro_have_readonly : Bool
  pub ro_revoking_readonly : Bool
  pub ro_revoke_complete : Bool

abbrev pub no_flags : RecFlags
no_flags = record {
  migrated_with_data = false;
  vacuum_migrated = false;
  automatic = false;
  ro_have_delegations = false;
  ro_have_readonly = false;
  ro_revoking_readonly = false;
  ro_revoke_complete = false;
}

-- `flags & CTDB_REC_RO_FLAGS`
abbrev pub ro_flags : RecFlags → Bool
ro_flags f =
    f.ro_have_delegations || f.ro_have_readonly || f.ro_revoking_readonly || f.ro_revoke_complete

-- `struct ctdb_ltdb_header`; `rsn` is 64 bits wide.
pub record Header : Type 0 where
  pub rsn : ℕ
  pub dmaster : ℕ
  pub flags : RecFlags

abbrev pub u64 : ℕ → ℕ
u64 x = x % 2 ^ 64

-- A value of the database: the header, and the data behind it.
pub record Rec : Type 0 where
  pub header : Header
  pub body : List ℕ

pub record ReqCall : Type 0 where
  pub destnode : ℕ
  pub srcnode : ℕ
  pub reqid : ℕ
  pub key : ℕ
  pub callid : ℕ
  pub want_readonly : Bool
  pub hopcount : ℕ

pub record ReqDmaster : Type 0 where
  pub destnode : ℕ
  pub srcnode : ℕ
  pub reqid : ℕ
  pub key : ℕ
  pub rsn : ℕ
  pub dmaster : ℕ
  pub record_flags : RecFlags
  pub body : List ℕ

pub record ReplyDmaster : Type 0 where
  pub destnode : ℕ
  pub reqid : ℕ
  pub key : ℕ
  pub rsn : ℕ
  pub record_flags : RecFlags
  pub body : List ℕ

-- The reply data; a read-only delegation has the record's header in front.
pub record ReplyCall : Type 0 where
  pub destnode : ℕ
  pub reqid : ℕ
  pub status : ℕ
  pub delegation : Option Header
  pub body : List ℕ

pub record ReplyError : Type 0 where
  pub destnode : ℕ
  pub reqid : ℕ
  pub status : ℕ

pub data Packet : Type 0 where
  req_call : ReqCall → Packet
  req_dmaster : ReqDmaster → Packet
  reply_dmaster : ReplyDmaster → Packet
  reply_call : ReplyCall → Packet
  reply_error : ReplyError → Packet
