-- ===== src/Persistent/Acknowledged.antt =====
-- server/ctdb_persistent.c: when a client is told that its transaction is committed.

use ctdb.Base.{
  sym, arith, if◌then◌else◌, In, All-In, ℕ, ◌≡◌, inl, inr, refl, ap, ◌∙◌, Bool, false, not, none,
  some, Option, List, [], ◌++◌, ◌==◌, All, if-elim,
}
use ctdb.Persistent.Commit.{
  ctdb_control_start_persistent_update, ctdb_control_cancel_persistent_update, set_updates, Client,
  PersistentState, CommitReply, Daemon, VnnNode, contains, ctdb_persistent_callback,
  ctdb_persistent_store_timeout, ctdb_persistent_finish_trans3_commits, send_updates, new_state,
  CommitResult, failed, done, async, failed_status, reply_at_once, ctdb_request_control, committed,
  commit_of, is_none, ctdb_control_trans3_commit, end_commit, disconnected, ctdb_client_destructor,
}
use ctdb.Persistent.Controls.{Acknowledged, pnns, none_left, active, SentAs, send_updates-SentAs}
use ctdb.Persistent.Steps.{
  start_update, cancel_update, Reached, start, commit, callback, timeout, finish, disconnect,
  recovery,
}
use ctdb.Persistent.Invariant.{
  Holds, mode-Holds, destructor-Holds, callback_at-Holds, timeout_at-Holds, finish_all-Holds,
  with_reply-Holds, HoldsBut, placed-HoldsBut, set_client-HoldsBut, replaced-Holds, freed-Holds,
  Sound,
}

module _ (vnn_map : List VnnNode) where
  -- The controls of a result at once were all acknowledged.
  abbrev AtOnce : CommitResult → Type 0
  AtOnce failed = Unit
  AtOnce (done controls) = All Acknowledged controls × (pnns controls ≡ active vnn_map)
  AtOnce async = Unit

  abbrev Ends : CommitResult × Daemon → Type 0
  Ends q = AtOnce q.0 × Holds vnn_map q.1

  committed-Ends :
      (db : ℕ) (st : PersistentState) (r : Option PersistentState) (s : Daemon)
      → st.controls ≡ []
      → SentAs st r (active vnn_map)
      → HoldsBut vnn_map db s
      → Ends (committed db st r s)
  committed-Ends db st none s e c h = (tt, freed-Holds vnn_map db st s h)
  committed-Ends db st (some sent) s e c h =
      let covers = c.1 ∙ ap (λ ks. pnns ks ++ active vnn_map) e in
      if-elim Ends (sent.num_pending == 0) _ _
        (λ zero. (
          (none_left sent.controls (sym c.0 ∙ ground (arith, zero)), covers),
          freed-Holds vnn_map db sent s h,
        ))
        (λ _. (
          tt,
          replaced-Holds vnn_map db (some sent) s (record { pending = c.0; covers = covers }) h,
        ))

  commit_of-Ends :
      (sends : ℕ → Bool) (c client db : ℕ) (o : Option Client) (s : Daemon)
      → Holds vnn_map s
      → Ends (commit_of sends vnn_map c client db o s)
  commit_of-Ends sends c client db none s h = (tt, h)
  commit_of-Ends sends c client db (some found) s h =
      let st = new_state c client in
      if-elim Ends (not (found.db_id == 0)) _ _ (λ _. (tt, h))
        (λ _.
          if-elim Ends (not (contains db s.db_list)) _ _ (λ _. (tt, h))
            (λ _.
              if-elim Ends (not (is_none (s.persistent_state db))) _ _ (λ _. (tt, h))
                (λ _.
                  committed-Ends db st (send_updates sends vnn_map st) _ refl
                    (send_updates-SentAs sends vnn_map st refl)
                    (set_client-HoldsBut vnn_map db client db _
                      (placed-HoldsBut vnn_map db (some st) s h)))))

  trans3_commit-Ends :
      (sends : ℕ → Bool) (c client db : ℕ) (s : Daemon)
      → Holds vnn_map s
      → Ends (ctdb_control_trans3_commit sends vnn_map c client db s)
  unfolding ctdb_control_trans3_commit
  trans3_commit-Ends sends c client db s h =
      if-elim Ends (not s.recovery_normal) _ _ (λ _. (tt, h))
        (λ _. commit_of-Ends sends c client db (s.clients client) s h)

  reply_at_once-Holds :
      (c : ℕ) (q : CommitResult × Daemon) → Ends q → Holds vnn_map (reply_at_once c q)
  reply_at_once-Holds c (failed, s) h =
      with_reply-Holds vnn_map (record { c = c; status = failed_status; controls = [] }) s
        (inl (λ e. absurd (omega (arith, e)))) h.1
  reply_at_once-Holds c (done controls, s) h =
      with_reply-Holds vnn_map (record { c = c; status = 0; controls = controls }) s (inr h.0) h.1
  reply_at_once-Holds c (async, s) h = h.1

  commit-Holds :
      (sends : ℕ → Bool) (c client db : ℕ) (s : Daemon)
      → Holds vnn_map s
      → Holds vnn_map (ctdb_request_control sends vnn_map c client db s)
  unfolding ctdb_request_control
  commit-Holds sends c client db s h =
      reply_at_once-Holds c _ (trans3_commit-Ends sends c client db s h)

  end_commit-Holds :
      (db : ℕ) (o : Option PersistentState) (s : Daemon)
      → Holds vnn_map s
      → Holds vnn_map (end_commit db o s)
  end_commit-Holds db none s h = h
  end_commit-Holds db (some st) s h = destructor-Holds vnn_map db st s h

  disconnected-Holds :
      (o : Option Client) (s : Daemon) → Holds vnn_map s → Holds vnn_map (disconnected o s)
  disconnected-Holds none s h = h
  disconnected-Holds (some client) s h =
      let t : Daemon =
        if not (client.num_persistent_updates == 0)
        then (record s { recovery_normal = false })
        else s in
      let k : Holds vnn_map t =
        if-elim (Holds vnn_map) (not (client.num_persistent_updates == 0)) _ _
          (λ _. mode-Holds vnn_map false s h) (λ _. h) in
      if-elim (Holds vnn_map) (contains client.db_id s.db_list) _ _
        (λ _.
          end_commit-Holds client.db_id (t.persistent_state client.db_id) _
            (mode-Holds vnn_map false t k))
        (λ _. k)

  set_updates-Holds :
      (client : ℕ) (o : Option Client) (f : ℕ → ℕ) (s : Daemon)
      → Holds vnn_map s
      → Holds vnn_map (set_updates client o f s).1
  set_updates-Holds client none f s h = h
  set_updates-Holds client (some found) f s h = record { counted = h.counted; sound = h.sound }

  start_update-Holds :
      (client : ℕ) (s : Daemon)
      → Holds vnn_map s
      → Holds vnn_map (ctdb_control_start_persistent_update client s).1
  unfolding ctdb_control_start_persistent_update
  start_update-Holds client s h = set_updates-Holds client (s.clients client) _ s h

  cancel_update-Holds :
      (client : ℕ) (s : Daemon)
      → Holds vnn_map s
      → Holds vnn_map (ctdb_control_cancel_persistent_update client s).1
  unfolding ctdb_control_cancel_persistent_update
  cancel_update-Holds client s h = set_updates-Holds client (s.clients client) _ s h

  ctdb_client_destructor-Holds :
      (client : ℕ) (s : Daemon) → Holds vnn_map s → Holds vnn_map (ctdb_client_destructor client s)
  unfolding ctdb_client_destructor
  ctdb_client_destructor-Holds client s h =
      let t = disconnected-Holds (s.clients client) s h in
      record { counted = t.counted; sound = t.sound }

  finish-Holds :
      (s : Daemon) → Holds vnn_map s → Holds vnn_map (ctdb_persistent_finish_trans3_commits s)
  unfolding ctdb_persistent_finish_trans3_commits
  finish-Holds s h =
      if-elim (Holds vnn_map) (not s.recovery_normal) _ _ (λ _. h)
        (λ _. finish_all-Holds vnn_map s.db_list s h)

  callback_of-Holds :
      (db pnn : ℕ) (ok : Bool) (s : Daemon)
      → Holds vnn_map s
      → Holds vnn_map (ctdb_persistent_callback db pnn ok s)
  unfolding ctdb_persistent_callback
  callback_of-Holds db pnn ok s h =
      callback_at-Holds vnn_map db pnn ok (s.persistent_state db) s (h.counted db) h

  timeout-Holds :
      (db : ℕ) (s : Daemon) → Holds vnn_map s → Holds vnn_map (ctdb_persistent_store_timeout db s)
  unfolding ctdb_persistent_store_timeout
  timeout-Holds db s h = timeout_at-Holds vnn_map db (s.persistent_state db) s h

  Reached-Holds : (s : Daemon) → Reached vnn_map s → Holds vnn_map s
  Reached-Holds s (start dbs clients) = record { counted = λ db. tt; sound = tt }
  Reached-Holds _ (commit sends c client db r) =
      commit-Holds sends c client db _ (Reached-Holds _ r)
  Reached-Holds _ (callback db pnn ok r) = callback_of-Holds db pnn ok _ (Reached-Holds _ r)
  Reached-Holds _ (timeout db r) = timeout-Holds db _ (Reached-Holds _ r)
  Reached-Holds _ (finish r) = finish-Holds _ (Reached-Holds _ r)
  Reached-Holds _ (disconnect client r) = ctdb_client_destructor-Holds client _ (Reached-Holds _ r)
  Reached-Holds _ (start_update client r) = start_update-Holds client _ (Reached-Holds _ r)
  Reached-Holds _ (cancel_update client r) = cancel_update-Holds client _ (Reached-Holds _ r)
  Reached-Holds _ (recovery normal r) = mode-Holds vnn_map normal _ (Reached-Holds _ r)

-- With the vnn map and the flags of its nodes fixed, in all states that commits, the answers of nodes, timeouts, recoveries
-- that begin and end at any time, updates and clients that go away lead to: a client that is told that its commit
-- succeeded, at once or later, is told so when a control had been sent to each active node of the vnn map and to no other, and all of
-- these were acknowledged.
pub status_0-Acknowledged :
    (vnn_map : List VnnNode) (s : Daemon) (r : CommitReply)
    → Reached vnn_map s
    → In r s.replies
    → r.status ≡ 0
    → All Acknowledged r.controls × (pnns r.controls ≡ active vnn_map)
status_0-Acknowledged vnn_map s r run i e =
    elim (All-In (Sound vnn_map) s.replies r (Reached-Holds vnn_map s run).sound i) [
      | inl other ↦ absurd (other e)
      | inr all ↦ all
    ]
