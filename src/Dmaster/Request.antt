-- ===== src/Dmaster/Request.antt =====
-- server/ctdb_call.c: `ctdb_request_call`, what a node does with a request for the record.
use ctdb.Base.{
  ◌+◌, ◌-◌, Bool, true, false, ◌&&◌, ◌||◌, not, Option, none, some, [], ◌∷◌, ◌==◌, leb,
  if◌then◌else◌, ◌^◌,
}
use ctdb.Dmaster.Header.{Header, ReqCall, req_call, reply_call, u64}
use ctdb.Dmaster.Node.{
  Env, Lock, ro_revoke, ro_delegation, hops, start_revoke, send, note, lock, unlock,
}
use ctdb.Dmaster.Store.{Fetched, ctdb_ltdb_store_server, ctdb_ltdb_fetch}
use ctdb.Dmaster.Call.{
  N, fetch_with_header_func, hop_count_bucket, ctdb_send_error, ctdb_call_local,
  ctdb_call_send_redirect, ctdb_call_send_dmaster, ctdb_make_record_sticky,
}

module _ (e : Env) where
  -- `ctdb_defer_pinned_down_request` returns 0.
  abbrev pub is_pinned_down : N e → Bool
  is_pinned_down n = elim n.sticky_record [ none ↦ false | some pindown ↦ pindown ]

  unfoldable pub defer : ReqCall → N e → N e
  defer c n = record n { deferred = req_call c ∷ n.deferred }

  -- `header.flags &= ~CTDB_REC_RO_FLAGS`
  abbrev pub clear_ro : Header → Header
  clear_ro h = record h {
    flags = record h.flags {
      ro_have_delegations = false;
      ro_have_readonly = false;
      ro_revoking_readonly = false;
      ro_revoke_complete = false;
    };
  }

  -- A revoke that has completed is cleared from the header, with the tracking data.
  unfoldable pub clear_revoked : Fetched e → Option (Fetched e)
  clear_revoked f =
      if f.header.flags.ro_revoke_complete
      then (let s = ctdb_ltdb_store_server e f.node (clear_ro f.header) f.body in
          if s.ok
          then some (record {
            node = record (note ro_revoke s.node) { tracking = [] };
            header = s.header;
            body = f.body;
          })
          else none)
      else some f

  -- Delegations are taken back before the record can change: the call waits for that.
  unfoldable pub revoke : Fetched e → ReqCall → Option (N e)
  revoke f c =
      let s =
        ctdb_ltdb_store_server e f.node
          (record f.header { flags = record f.header.flags { ro_revoking_readonly = true } })
          f.body in
      if s.ok then some (defer c (note (start_revoke s.header f.body) (unlock s.node))) else none

  -- The reply with a read-only copy; `header.rsn -= 2` wraps.
  unfoldable pub send_delegation : Fetched e → ReqCall → N e
  send_delegation f c =
      let n = record (f.node) { tracking = c.srcnode ∷ f.node.tracking } in
      note ro_delegation (
        send
          (reply_call (record {
            destnode = c.srcnode;
            reqid = c.reqid;
            status = 0;
            delegation = some (record f.header {
              rsn = u64 (f.header.rsn + 2 ^ 64 - 2);
              flags = record f.header.flags {
                ro_have_readonly = true;
                ro_have_delegations = false;
              };
            });
            body = f.body;
          }))
          (unlock n))

  -- The first delegation raises the rsn and marks the record.
  unfoldable pub delegate : Fetched e → ReqCall → Option (N e)
  delegate f c =
      if f.header.flags.ro_have_delegations
      then some (send_delegation f c)
      else (let s =
            ctdb_ltdb_store_server e f.node
              (record f.header {
                rsn = u64 (f.header.rsn + 3);
                flags = record f.header.flags { ro_have_delegations = true };
              })
              f.body in
          if s.ok
          then some (send_delegation (record { node = s.node; header = s.header; body = f.body }) c)
          else none)

  -- The statistics of the hops, and the sticky mark of a record that is asked for from far away.
  unfoldable pub count_hops : N e → ReqCall → N e
  count_hops n c =
      let counted = note (hops c.hopcount (hop_count_bucket c.hopcount)) n in
      if counted.sticky && leb counted.hopcount_make_sticky c.hopcount
      then ctdb_make_record_sticky e counted
      else counted

  unfoldable pub answer_locally : Fetched e → ReqCall → N e
  answer_locally f c =
      let r = ctdb_call_local e f.node c.callid f.header f.body in
      send
        (reply_call (record {
          destnode = c.srcnode;
          reqid = c.reqid;
          status = r.status;
          delegation = none;
          body = r.reply_data;
        }))
        (unlock r.node)

  -- A request of another node takes the record there, unless a transaction holds it: then the source
  -- returns with no reply, and with the lock held.
  unfoldable pub migrate_or_answer : Fetched e → ReqCall → Option (N e)
  migrate_or_answer f c =
      if not (c.srcnode == f.node.pnn)
      then (if f.node.transaction
          then some f.node
          else elim (ctdb_call_send_dmaster e f.node c f.header f.body) [
            | none ↦ none
            | some n ↦ some (unlock n)
          ])
      else some (answer_locally f c)

  unfoldable pub serve_call : Fetched e → ReqCall → Option (N e)
  serve_call f c =
      if f.header.flags.ro_revoking_readonly
      then some (defer c (unlock f.node))
      else if not (f.header.dmaster == f.node.pnn) && not f.header.flags.ro_have_delegations
      then some (unlock (ctdb_call_send_redirect e f.node c f.header))
      else if not c.want_readonly
          && (f.header.flags.ro_have_delegations || f.header.flags.ro_have_readonly)
      then revoke f c
      else if c.want_readonly && (c.callid == fetch_with_header_func)
      then delegate f c
      else migrate_or_answer (record f { node = count_hops f.node c }) c

  -- Without a tracking database there is no read-only access.
  unfoldable pub locked_call : Fetched e → ReqCall → Option (N e)
  locked_call f c = elim (clear_revoked f) [
    | none ↦ none
    | some g ↦ serve_call g (record c { want_readonly = c.want_readonly && g.node.readonly })
  ]

  unfoldable pub ctdb_request_call : N e → Lock → ReqCall → Option (N e)
  ctdb_request_call n l c =
      if not n.transport
      then some n
      else if not n.attached
      then some (ctdb_send_error e c.srcnode c.reqid n)
      else if n.sticky && is_pinned_down n
      then some (defer c n)
      else elim l [
        | Lock.failed ↦ some (ctdb_send_error e c.srcnode c.reqid n)
        | Lock.contended ↦ some (record n { waiting = req_call c ∷ n.waiting })
        | Lock.got ↦ locked_call (ctdb_ltdb_fetch e (lock n)) c
      ]
