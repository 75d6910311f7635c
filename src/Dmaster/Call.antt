-- ===== src/Dmaster/Call.antt =====
-- server/ctdb_call.c and ctdb_call_local of client/ctdb_client.c: the handlers of the packets that ask
-- for a record and hand it over. `none` is ctdb_fatal, which ends the process.
use ctdb.Base.{
  ℕ, zero, suc, ◌+◌, ◌-◌, ◌/◌, Bool, true, false, ◌&&◌, ◌||◌, not, Option, none, some, List, [],
  ◌∷◌, ◌==◌, leb, if◌then◌else◌, u32, u32_mod,
}
use ctdb.Dmaster.Header.{
  RecFlags, Header, ReqCall, ReqDmaster, ReplyDmaster, ReplyError, req_call, req_dmaster,
  reply_dmaster, reply_error,
}
use ctdb.Dmaster.Node.{Env, Node, CallState, CallStatus, CallResult, Lock, send, lock, unlock}
use ctdb.Dmaster.Store.{lmaster, is_empty, Fetched, ctdb_ltdb_store_server, ctdb_ltdb_fetch}

-- CTDB_FETCH_WITH_HEADER_FUNC
abbrev pub fetch_with_header_func : ℕ
fetch_with_header_func = 0xff000003

-- A status of -1
abbrev pub minus_one : ℕ
minus_one = u32_mod - 1

-- `while (tmp_count) { tmp_count >>= 2; bucket++; }` for a count below 2 ^ 31, which is not negative as an
-- int, and MAX_COUNT_BUCKETS.
bucket_of : ℕ → ℕ → ℕ
bucket_of zero count = 0
bucket_of (suc rounds) count = elim (count == 0) [
  | true ↦ 0
  | false ↦ suc (bucket_of rounds (count / 4))
]

unfoldable pub hop_count_bucket : ℕ → ℕ
unfolding bucket_of
hop_count_bucket hopcount = let b = bucket_of 16 hopcount in if leb 16 b then 15 else b

module _ (e : Env) where
  abbrev pub N : Type 0
  N = Node e.State

  unfoldable pub ctdb_send_error : ℕ → ℕ → N → N
  ctdb_send_error srcnode reqid n =
      if n.transport
      then send (reply_error (record { destnode = srcnode; reqid = reqid; status = minus_one })) n
      else n

  -- The reply of a call that is run on this node: its data and status, or a failure.
  pub record Ran : Type 0 where
    pub node : N
    pub reply_data : List ℕ
    pub status : ℕ

  -- The body that `ctdb_call_local` writes.
  abbrev pub new_body : CallResult → List ℕ → List ℕ
  new_body r body = elim r.new_data [ none ↦ body | some d ↦ d ]

  abbrev pub failed_call : N → Ran
  failed_call n = record { node = n; reply_data = []; status = minus_one }

  -- Its callers set the status -1 on a failure, or read neither.
  unfoldable pub ctdb_call_local : N → ℕ → Header → List ℕ → Ran
  ctdb_call_local n callid h body = elim (e.call_fn callid) [
    | none ↦ failed_call n
    | some fn ↦ elim (fn h body) [
      | none ↦ failed_call n
      | some r ↦
          let s = ctdb_ltdb_store_server e n h (new_body r body) in
          if s.ok
          then record { node = s.node; reply_data = r.reply_data; status = r.status }
          else failed_call s.node
    ]
  ]

  unfoldable pub ctdb_call_send_redirect : N → ReqCall → Header → N
  ctdb_call_send_redirect n c h =
      send
        (req_call (record c {
          destnode = if n.pnn == lmaster e n then h.dmaster else lmaster e n;
          hopcount = u32 (c.hopcount + 1);
        }))
        n

  unfoldable pub ctdb_send_dmaster_reply : N → Header → List ℕ → ℕ → ℕ → Option N
  ctdb_send_dmaster_reply n h body new_dmaster reqid =
      if not (n.pnn == lmaster e n)
      then some n
      else (let s = ctdb_ltdb_store_server e n (record h { dmaster = new_dmaster }) body in
          if s.ok && n.transport
          then some (
              send
                (reply_dmaster (record {
                  destnode = new_dmaster;
                  reqid = reqid;
                  key = e.key;
                  rsn = s.header.rsn;
                  record_flags = s.header.flags;
                  body = body;
                }))
                s.node)
          else none)

  -- `header->flags |= CTDB_REC_FLAG_MIGRATED_WITH_DATA` if there are data
  abbrev pub mark_migrated : Header → List ℕ → Header
  mark_migrated h body =
      if is_empty body then h else record h { flags = record h.flags { migrated_with_data = true } }

  unfoldable pub ctdb_call_send_dmaster : N → ReqCall → Header → List ℕ → Option N
  ctdb_call_send_dmaster n c header body =
      let h = mark_migrated header body in
      if not n.transport
      then none
      else if lmaster e n == n.pnn
      then ctdb_send_dmaster_reply n h body c.srcnode c.reqid
      else (let s = ctdb_ltdb_store_server e n (record h { dmaster = c.srcnode }) body in
          if s.ok
          then some (
              send
                (req_dmaster (record {
                  destnode = lmaster e n;
                  srcnode = n.pnn;
                  reqid = c.reqid;
                  key = e.key;
                  rsn = h.rsn;
                  dmaster = c.srcnode;
                  record_flags = h.flags;
                  body = body;
                }))
                s.node)
          else none)

  -- A sticky record that is not pinned down yet becomes so.
  unfoldable pub ctdb_set_sticky_pindown : N → N
  ctdb_set_sticky_pindown n = elim n.sticky_record [
    | none ↦ n
    | some pindown ↦ record n { sticky_record = some true }
  ]

  unfoldable pub ctdb_make_record_sticky : N → N
  ctdb_make_record_sticky n = elim n.sticky_record [
    | none ↦ record n { sticky_record = some false }
    | some pindown ↦ n
  ]

  -- The state of the call is done; what its callback does is outside.
  unfoldable pub finish_call : ℕ → CallState → N → N
  finish_call reqid state n = record n {
    find_call = λ id.
        if id == reqid then some (record state { status = CallStatus.done }) else n.find_call id;
  }

  -- The call that waits for the record runs, if the packet is its answer.
  unfoldable pub run_waiting_call : N → (reqid key : ℕ) → Option CallState → Header → List ℕ → N
  run_waiting_call n reqid key none h body = unlock n
  run_waiting_call n reqid key (some state) h body =
      if (key == state.key) && (reqid == state.reqid)
      then finish_call reqid state (unlock (ctdb_call_local n state.callid h body).node)
      else unlock n

  abbrev pub is_vacuum_migration : Option CallState → Bool
  is_vacuum_migration none = false
  is_vacuum_migration (some state) = state.vacuum_migration

  -- The header with which a node takes the record over.
  unfoldable pub owned_header : N → ℕ → ℕ → RecFlags → Header
  owned_header n reqid rsn record_flags = record {
    rsn = rsn;
    dmaster = n.pnn;
    flags =
        if is_vacuum_migration (n.find_call reqid)
        then record record_flags { vacuum_migrated = true }
        else record_flags;
  }

  unfoldable pub ctdb_become_dmaster :
      N → (reqid key : ℕ) → List ℕ → (rsn : ℕ) → RecFlags → Option N
  ctdb_become_dmaster n reqid key body rsn record_flags =
      let s = ctdb_ltdb_store_server e n (owned_header n reqid rsn record_flags) body in
      if s.ok
      then some (
          run_waiting_call (if n.sticky then ctdb_set_sticky_pindown s.node else s.node) reqid key
            (n.find_call reqid) s.header body)
      else none

  -- A dmaster request, with the record fetched under its lock.
  unfoldable pub accept_dmaster : Fetched e → ReqDmaster → Option N
  accept_dmaster f c =
      if not (f.header.dmaster == c.srcnode)
        && (not (f.header.rsn == 0) || not (f.header.dmaster == f.node.pnn))
      then some (unlock (record (f.node) { recovery = true }))
      else if c.dmaster == f.node.pnn
      then ctdb_become_dmaster f.node c.reqid c.key c.body c.rsn c.record_flags
      else elim (ctdb_send_dmaster_reply f.node
          (record { rsn = c.rsn; dmaster = f.header.dmaster; flags = c.record_flags }) c.body
          c.dmaster c.reqid) [ none ↦ none | some n ↦ some (unlock n) ]

  unfoldable pub ctdb_request_dmaster : N → Lock → ReqDmaster → Option N
  ctdb_request_dmaster n l c =
      if not n.attached then some (ctdb_send_error c.srcnode c.reqid n) else elim l [
        | Lock.failed ↦ none
        | Lock.contended ↦ some (record n { waiting = req_dmaster c ∷ n.waiting })
        | Lock.got ↦
            if not (lmaster e n == n.pnn)
            then none
            else accept_dmaster (ctdb_ltdb_fetch e (lock n)) c
      ]

  unfoldable pub ctdb_reply_dmaster : N → Lock → ReplyDmaster → Option N
  ctdb_reply_dmaster n l c = if not n.attached then some n else elim l [
    | Lock.failed ↦ some n
    | Lock.contended ↦ some (record n { waiting = reply_dmaster c ∷ n.waiting })
    | Lock.got ↦ ctdb_become_dmaster (lock n) c.reqid c.key c.body c.rsn c.record_flags
  ]

  unfoldable pub ctdb_reply_error : N → ReplyError → N
  ctdb_reply_error n c = elim (n.find_call c.reqid) [
    | none ↦ n
    | some state ↦
        if c.reqid == state.reqid
        then record n {
          find_call = λ id.
              if id == c.reqid
              then some (record state { status = CallStatus.error })
              else n.find_call id;
        }
        else n
  ]
