-- ===== src/Persistent/Commit.antt =====
-- server/ctdb_persistent.c: the commit of a transaction on a persistent database.
use ctdb.Base.{
  u32_mod, u32, ℕ, ◌+◌, ◌-◌, Bool, true, false, not, ◌&&◌, none, some, Option, List, [], ◌∷◌, ◌++◌,
  ◌==◌, if◌then◌else◌,
}

-- What came back for a control that was sent to a node; replies during a recovery are ignored.
pub data Outcome : Type 0 where
  waiting acknowledged refused ignored : Outcome

pub record SentControl : Type 0 where
  pub pnn : ℕ
  pub outcome : Outcome

-- `struct ctdb_persistent_state`, with the request `c`, the client, and the controls that were sent.
pub record PersistentState : Type 0 where
  pub c : ℕ
  pub client : ℕ
  pub num_pending : ℕ
  pub num_sent : ℕ
  pub num_failed : ℕ
  pub controls : List SentControl

-- The reply to a request, with the controls that had been sent for it.
pub record CommitReply : Type 0 where
  pub c : ℕ
  pub status : ℕ
  pub controls : List SentControl

-- `struct ctdb_client`; the db_id is 0 if no commit is active.
pub record Client : Type 0 where
  pub db_id : ℕ
  pub num_persistent_updates : ℕ

pub record Daemon : Type 0 where
  pub recovery_normal : Bool
  pub clients : ℕ → Option Client
  pub db_list : List ℕ
  pub persistent_state : ℕ → Option PersistentState
  pub replies : List CommitReply

-- A node of the vnn map, and whether it is inactive.
pub record VnnNode : Type 0 where
  pub pnn : ℕ
  pub inactive : Bool

-- A status of -1
abbrev pub failed_status : ℕ
failed_status = u32_mod - 1

abbrev pub contains : ℕ → List ℕ → Bool
contains x [] = false
contains x (y ∷ ys) = let rest = contains x ys in if y == x then true else rest

abbrev pub set_state : ℕ → Option PersistentState → Daemon → Daemon
set_state db st s = record s {
  persistent_state = λ d. if d == db then st else s.persistent_state d;
}

-- `client->db_id = id`, for a client that is there.
abbrev pub set_client : ℕ → ℕ → Daemon → Daemon
set_client client id s = record s {
  clients = λ k.
      if k == client
      then (elim (s.clients k) [ none ↦ none | some i ↦ some (record i { db_id = id }) ])
      else s.clients k;
}

-- talloc_free of a state, whose destructor this is.
unfoldable pub ctdb_persistent_state_destructor : (db : ℕ) → PersistentState → Daemon → Daemon
ctdb_persistent_state_destructor db st s = set_state db none (set_client st.client 0 s)

abbrev pub reply : PersistentState → ℕ → Daemon → Daemon
reply st status s = record s {
  replies = s.replies ++ record { c = st.c; status = status; controls = st.controls } ∷ [];
}

abbrev pub is_waiting : Outcome → Bool
is_waiting waiting = true
is_waiting acknowledged = false
is_waiting refused = false
is_waiting ignored = false

abbrev pub behind : SentControl → Option (List SentControl) → Option (List SentControl)
behind k none = none
behind k (some ks) = some (k ∷ ks)

-- The first control to the node that waits has its outcome; `none` if there is no such control.
unfoldable pub answer_control : ℕ → Outcome → List SentControl → Option (List SentControl)
answer_control pnn o [] = none
answer_control pnn o (k ∷ cs) =
    let rest = answer_control pnn o cs in
    if is_waiting k.outcome && (k.pnn == pnn)
    then some ((record k { outcome = o }) ∷ cs)
    else behind k rest

-- The replies of the callback: a state that stays, or one that is freed.
unfoldable pub persistent_callback : (db : ℕ) → (ok : Bool) → PersistentState → Daemon → Daemon
persistent_callback db ok st s =
    let next = record st { num_pending = st.num_pending - 1 } in
    if not s.recovery_normal
    then set_state db (some st) s
    else if not ok
    then set_state db (some (record st { num_failed = st.num_failed + 1 }))
        (record s { recovery_normal = false })
    else if not (next.num_pending == 0)
    then set_state db (some next) s
    else ctdb_persistent_state_destructor db next (reply next 0 s)

abbrev pub outcome_of : (recovery_normal ok : Bool) → Outcome
outcome_of false ok = ignored
outcome_of true true = acknowledged
outcome_of true false = refused

abbrev pub with_controls :
    (db : ℕ) → (ok : Bool) → PersistentState → Option (List SentControl) → Daemon → Daemon
with_controls db ok st none s = s
with_controls db ok st (some cs) s = persistent_callback db ok (record st { controls = cs }) s

abbrev pub callback_at : (db pnn : ℕ) → (ok : Bool) → Option PersistentState → Daemon → Daemon
callback_at db pnn ok none s = s
callback_at db pnn ok (some st) s =
    with_controls db ok st (answer_control pnn (outcome_of s.recovery_normal ok) st.controls) s

-- A node answers its control: `ok` is a status of 0.
unfoldable pub ctdb_persistent_callback : (db pnn : ℕ) → (ok : Bool) → Daemon → Daemon
unfolding answer_control persistent_callback
ctdb_persistent_callback db pnn ok s = callback_at db pnn ok (s.persistent_state db) s

abbrev pub timeout_at : (db : ℕ) → Option PersistentState → Daemon → Daemon
timeout_at db none s = s
timeout_at db (some st) s =
    if not s.recovery_normal then s else ctdb_persistent_state_destructor db st (reply st 1 s)

unfoldable pub ctdb_persistent_store_timeout : (db : ℕ) → Daemon → Daemon
ctdb_persistent_store_timeout db s = timeout_at db (s.persistent_state db) s

abbrev pub finish_one : (db : ℕ) → Option PersistentState → Daemon → Daemon
finish_one db none s = s
finish_one db (some st) s = ctdb_persistent_state_destructor db st (reply st 2 s)

unfoldable pub finish_all : List ℕ → Daemon → Daemon
finish_all [] s = s
finish_all (db ∷ dbs) s = finish_all dbs (finish_one db (s.persistent_state db) s)

unfoldable pub ctdb_persistent_finish_trans3_commits : Daemon → Daemon
unfolding finish_all
ctdb_persistent_finish_trans3_commits s =
    if not s.recovery_normal then s else finish_all s.db_list s

-- The loop over the vnn map: `sends` says whether a control can be sent to a node.
unfoldable pub send_updates :
    (sends : ℕ → Bool) → List VnnNode → PersistentState → Option PersistentState
send_updates sends [] st = some st
send_updates sends (v ∷ vs) st =
    let past = send_updates sends vs st in
    let next = send_updates sends vs (record st {
      num_pending = st.num_pending + 1;
      num_sent = st.num_sent + 1;
      controls = st.controls ++ record { pnn = v.pnn; outcome = waiting } ∷ [];
    }) in
    if v.inactive then past else if not (sends v.pnn) then none else next

-- An error, a result at once, with the controls that had been sent for it, or a reply that comes later.
pub data CommitResult : Type 0 where
  failed : CommitResult
  done : List SentControl → CommitResult
  async : CommitResult

abbrev pub new_state : (c client : ℕ) → PersistentState
new_state c client = record {
  c = c;
  client = client;
  num_pending = 0;
  num_sent = 0;
  num_failed = 0;
  controls = [];
}

abbrev pub committed :
    (db : ℕ) → PersistentState → Option PersistentState → Daemon → CommitResult × Daemon
committed db st none s = (failed, ctdb_persistent_state_destructor db st s)
committed db st (some sent) s =
    if sent.num_pending == 0
    then (done sent.controls, ctdb_persistent_state_destructor db sent s)
    else (async, set_state db (some sent) s)

abbrev pub is_none {ℓ} : {A : Type ℓ} → Option A → Bool
is_none none = true
is_none (some a) = false

abbrev pub commit_of :
    (sends : ℕ → Bool)
    → List VnnNode
    → (c client db : ℕ) → (found : Option Client) → Daemon
    → CommitResult × Daemon
commit_of sends vnn_map c client db none s = (failed, s)
commit_of sends vnn_map c client db (some found) s =
    let st = new_state c client in
    if not (found.db_id == 0)
    then (failed, s)
    else if not (contains db s.db_list)
    then (failed, s)
    else if not (is_none (s.persistent_state db))
    then (failed, s)
    else committed db st (send_updates sends vnn_map st)
        (set_client client db (set_state db (some st) s))

unfoldable pub ctdb_control_trans3_commit :
    (sends : ℕ → Bool) → List VnnNode → (c client db : ℕ) → Daemon → CommitResult × Daemon
unfolding send_updates ctdb_persistent_state_destructor
ctdb_control_trans3_commit sends vnn_map c client db s =
    if not s.recovery_normal
    then (failed, s)
    else commit_of sends vnn_map c client db (s.clients client) s

-- server/ctdb_control.c, for this control: the daemon replies at once, unless the reply comes later.
abbrev pub reply_at_once : (c : ℕ) → CommitResult × Daemon → Daemon
reply_at_once c (failed, s) = record s {
  replies = s.replies ++ record { c = c; status = failed_status; controls = [] } ∷ [];
}
reply_at_once c (done controls, s) = record s {
  replies = s.replies ++ record { c = c; status = 0; controls = controls } ∷ [];
}
reply_at_once c (async, s) = s

unfoldable pub ctdb_request_control :
    (sends : ℕ → Bool) → List VnnNode → (c client db : ℕ) → Daemon → Daemon
unfolding ctdb_control_trans3_commit
ctdb_request_control sends vnn_map c client db s =
    reply_at_once c (ctdb_control_trans3_commit sends vnn_map c client db s)

-- server/ctdb_daemon.c: a client that goes away ends its commit and forces a recovery.
abbrev pub end_commit : (db : ℕ) → Option PersistentState → Daemon → Daemon
end_commit db none s = s
end_commit db (some st) s = ctdb_persistent_state_destructor db st s

abbrev pub disconnected : Option Client → Daemon → Daemon
disconnected none s = s
disconnected (some client) s =
    let t =
      if not (client.num_persistent_updates == 0)
      then (record s { recovery_normal = false })
      else s in
    if contains client.db_id s.db_list
    then end_commit client.db_id (t.persistent_state client.db_id)
        (record t { recovery_normal = false })
    else t

unfoldable pub ctdb_client_destructor : (client : ℕ) → Daemon → Daemon
unfolding ctdb_persistent_state_destructor
ctdb_client_destructor client s =
    let t = disconnected (s.clients client) s in
    record t { clients = λ k. if k == client then none else t.clients k }

abbrev pub set_updates : (client : ℕ) → Option Client → (ℕ → ℕ) → Daemon → Bool × Daemon
set_updates client none f s = (false, s)
set_updates client (some found) f s =
    let updated = record found { num_persistent_updates = f found.num_persistent_updates } in
    (true, record s { clients = λ k. if k == client then some updated else s.clients k })

unfoldable pub ctdb_control_start_persistent_update : (client : ℕ) → Daemon → Bool × Daemon
ctdb_control_start_persistent_update client s =
    set_updates client (s.clients client) (λ n. u32 (n + 1)) s

-- The count stays at 0.
unfoldable pub ctdb_control_cancel_persistent_update : (client : ℕ) → Daemon → Bool × Daemon
ctdb_control_cancel_persistent_update client s =
    set_updates client (s.clients client) (λ n. n - 1) s
