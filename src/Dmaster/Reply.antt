-- ===== src/Dmaster/Reply.antt =====
-- server/ctdb_call.c: `ctdb_reply_call`, with which a call that another node has answered ends.
use ctdb.Base.{not, Option, none, some, ◌∷◌, ◌==◌, leb, if◌then◌else◌}
use ctdb.Dmaster.Header.{Header, ReplyCall, reply_call}
use ctdb.Dmaster.Node.{Env, CallState, Lock, lock, unlock}
use ctdb.Dmaster.Store.{Fetched, ctdb_ltdb_store_server, ctdb_ltdb_fetch}
use ctdb.Dmaster.Call.{N, fetch_with_header_func, finish_call}

module _ (e : Env) where
  -- A copy that is newer than the record is stored; a write that fails is ignored.
  unfoldable pub store_copy : Fetched e → Header → ReplyCall → N e
  store_copy f h c =
      if leb h.rsn f.header.rsn
      then unlock f.node
      else unlock (ctdb_ltdb_store_server e f.node h c.body).node

  -- The header in front of a fetch-with-header reply is read if it is that of a read-only copy. The call
  -- is not finished if the record's lock is not got.
  unfoldable pub take_copy : N e → Lock → CallState → Option Header → ReplyCall → N e
  take_copy n l state none c = finish_call e c.reqid state n
  take_copy n l state (some h) c =
      if not h.flags.ro_have_readonly then finish_call e c.reqid state n else elim l [
        | Lock.contended ↦ record n { waiting = reply_call c ∷ n.waiting }
        | Lock.failed ↦ n
        | Lock.got ↦ finish_call e c.reqid state (store_copy (ctdb_ltdb_fetch e (lock n)) h c)
      ]

  unfoldable pub ctdb_reply_call : N e → Lock → ReplyCall → N e
  ctdb_reply_call n l c = elim (n.find_call c.reqid) [
    | none ↦ n
    | some state ↦
        if not (c.reqid == state.reqid)
        then n
        else if state.callid == fetch_with_header_func
        then take_copy n l state c.delegation c
        else finish_call e c.reqid state n
  ]
