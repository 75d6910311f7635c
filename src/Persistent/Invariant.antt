-- ===== src/Persistent/Invariant.antt =====
-- server/ctdb_persistent.c: the counts of a commit, and what the replies to it say, through its callbacks.

use ctdb.Base.{
  ◌++◌, ℕ, ◌+◌, ◌-◌, ◌≡◌, ◌≢◌, ◌⊎◌, inl, inr, refl, sym, ◌∙◌, subst, arith, Bool, true, false, not,
  none, some, Option, List, [], ◌∷◌, ◌==◌, All, All-append, if◌then◌else◌, if-elim,
}
use ctdb.Persistent.Commit.{
  SentControl, PersistentState, CommitReply, Daemon, VnnNode, set_state, set_client,
  ctdb_persistent_state_destructor, reply, with_controls, callback_at, timeout_at,
  persistent_callback, outcome_of, finish_one, finish_all,
}
use ctdb.Persistent.Controls.{
  Acknowledged, unacknowledged, pnns, active, none_left, is_acknowledged, Answered,
  answer_control-Answered, was_false, was_true,
}

module _ (vnn_map : List VnnNode) where
  -- Each control that was not acknowledged is counted, and the controls go to the active nodes.
  pub record Counted (st : PersistentState) : Type 0 where
    pub pending : st.num_pending ≡ unacknowledged st.controls
    pub covers : pnns st.controls ≡ active vnn_map

  abbrev pub CountedAt : Option PersistentState → Type 0
  CountedAt none = Unit
  CountedAt (some st) = Counted st

  -- A reply with another status, or one to a request that all active nodes acknowledged.
  abbrev pub Sound : CommitReply → Type 0
  Sound r = (r.status ≢ 0) ⊎ (All Acknowledged r.controls × (pnns r.controls ≡ active vnn_map))

  pub record Holds (s : Daemon) : Type 0 where
    pub counted : (db : ℕ) → CountedAt (s.persistent_state db)
    pub sound : All Sound s.replies

  pub set_state-Holds :
      (db : ℕ) (st : Option PersistentState) (s : Daemon)
      → CountedAt st
      → Holds s
      → Holds (set_state db st s)
  set_state-Holds db st s c h = record {
    counted =
        λ d. if-elim CountedAt (d == db) st (s.persistent_state d) (λ _. c) (λ _. h.counted d);
    sound = h.sound;
  }

  pub set_client-Holds : (client id : ℕ) (s : Daemon) → Holds s → Holds (set_client client id s)
  set_client-Holds client id s h = record { counted = h.counted; sound = h.sound }

  pub with_reply-Holds :
      (r : CommitReply) (s : Daemon)
      → Sound r
      → Holds s
      → Holds (record s { replies = s.replies ++ r ∷ [] })
  with_reply-Holds r s k h = record {
    counted = h.counted;
    sound = All-append Sound s.replies (r ∷ []) h.sound (k, tt);
  }

  reply-Holds :
      (st : PersistentState) (status : ℕ) (s : Daemon)
      → Sound (record { c = st.c; status = status; controls = st.controls })
      → Holds s
      → Holds (reply st status s)
  reply-Holds st status s =
      with_reply-Holds (record { c = st.c; status = status; controls = st.controls }) s

  pub mode-Holds :
      (normal : Bool) (s : Daemon) → Holds s → Holds (record s { recovery_normal = normal })
  mode-Holds normal s h = record { counted = h.counted; sound = h.sound }

  pub destructor-Holds :
      (db : ℕ) (st : PersistentState) (s : Daemon)
      → Holds s
      → Holds (ctdb_persistent_state_destructor db st s)
  unfolding ctdb_persistent_state_destructor
  destructor-Holds db st s h = set_state-Holds db none _ tt (set_client-Holds st.client 0 s h)

  callback-Holds :
      (db : ℕ) (ok : Bool) (st : PersistentState) (cs : List SentControl) (s : Daemon)
      → Answered (outcome_of s.recovery_normal ok) st.controls (some cs)
      → Counted st
      → Holds s
      → Holds (persistent_callback db ok (record st { controls = cs }) s)
  unfolding persistent_callback
  callback-Holds db ok st cs s a c h =
      let next : PersistentState = record st { num_pending = st.num_pending - 1; controls = cs } in
      let covers = a.0 ∙ c.covers in
      let count : (b : Bool) (o : Bool)
          → s.recovery_normal ≡ b
          → ok ≡ o
          → unacknowledged cs + (if is_acknowledged (outcome_of b o) then 1 else 0)
            ≡ unacknowledged st.controls =
        λ b o e f.
          subst
            (λ x.
              unacknowledged cs + (if is_acknowledged (outcome_of x o) then 1 else 0)
              ≡ unacknowledged st.controls)
            e
            (subst
              (λ x.
                unacknowledged cs
                  + (if is_acknowledged (outcome_of s.recovery_normal x) then 1 else 0)
                ≡ unacknowledged st.controls)
              f a.1) in
      if-elim Holds (not s.recovery_normal) _ _
        (λ off.
          set_state-Holds db _ s
            (record {
              pending =
                  omega (arith, count false ok (was_false s.recovery_normal off) refl, c.pending);
              covers = covers;
            })
            h)
        (λ on.
          if-elim Holds (not ok) _ _
            (λ bad.
              set_state-Holds db _ _
                (record {
                  pending = omega (
                    arith,
                    count true false (was_true s.recovery_normal on) (was_false ok bad),
                    c.pending,
                  );
                  covers = covers;
                })
                (mode-Holds false s h))
            (λ good.
              let counted : next.num_pending ≡ unacknowledged cs = omega (
                arith,
                count true true (was_true s.recovery_normal on) (was_true ok good),
                c.pending,
              ) in
              if-elim Holds (not (next.num_pending == 0)) _ _
                (λ _. set_state-Holds db _ s (record { pending = counted; covers = covers }) h)
                (λ zero. destructor-Holds db next _ (
                  reply-Holds next 0 s
                    (inr (none_left cs (sym counted ∙ ground (arith, zero)), covers)) h))))

  with_controls-Holds :
      (db : ℕ) (ok : Bool) (st : PersistentState) (r : Option (List SentControl)) (s : Daemon)
      → Answered (outcome_of s.recovery_normal ok) st.controls r
      → Counted st
      → Holds s
      → Holds (with_controls db ok st r s)
  with_controls-Holds db ok st none s a c h = h
  with_controls-Holds db ok st (some cs) s a c h = callback-Holds db ok st cs s a c h

  pub callback_at-Holds :
      (db pnn : ℕ) (ok : Bool) (o : Option PersistentState) (s : Daemon)
      → CountedAt o
      → Holds s
      → Holds (callback_at db pnn ok o s)
  callback_at-Holds db pnn ok none s c h = h
  callback_at-Holds db pnn ok (some st) s c h =
      with_controls-Holds db ok st _ s
        (answer_control-Answered pnn (outcome_of s.recovery_normal ok) st.controls) c h

  pub timeout_at-Holds :
      (db : ℕ) (o : Option PersistentState) (s : Daemon) → Holds s → Holds (timeout_at db o s)
  timeout_at-Holds db none s h = h
  timeout_at-Holds db (some st) s h =
      if-elim Holds (not s.recovery_normal) _ _ (λ _. h)
        (λ _.
          destructor-Holds db st _ (reply-Holds st 1 s (inl (λ e. absurd (omega (arith, e)))) h))

  finish_one-Holds :
      (db : ℕ) (o : Option PersistentState) (s : Daemon) → Holds s → Holds (finish_one db o s)
  finish_one-Holds db none s h = h
  finish_one-Holds db (some st) s h =
      destructor-Holds db st _ (reply-Holds st 2 s (inl (λ e. absurd (omega (arith, e)))) h)

  pub finish_all-Holds : (dbs : List ℕ) (s : Daemon) → Holds s → Holds (finish_all dbs s)
  unfolding finish_all
  finish_all-Holds [] s h = h
  finish_all-Holds (db ∷ dbs) s h =
      finish_all-Holds dbs _ (finish_one-Holds db (s.persistent_state db) s h)

  -- The invariant without the commit on one database, which is about to be replaced.
  pub record HoldsBut (db : ℕ) (s : Daemon) : Type 0 where
    pub others : (d : ℕ) → d ≢ db → CountedAt (s.persistent_state d)
    pub sound : All Sound s.replies

  pub placed-HoldsBut :
      (db : ℕ) (st : Option PersistentState) (s : Daemon)
      → Holds s
      → HoldsBut db (set_state db st s)
  placed-HoldsBut db st s h = record {
    others = λ d ne.
        if-elim CountedAt (d == db) st (s.persistent_state d) (λ e. absurd (ne (ground (arith, e))))
          (λ _. h.counted d);
    sound = h.sound;
  }

  pub set_client-HoldsBut :
      (db client id : ℕ) (s : Daemon) → HoldsBut db s → HoldsBut db (set_client client id s)
  set_client-HoldsBut db client id s h = record { others = h.others; sound = h.sound }

  pub replaced-Holds :
      (db : ℕ) (st : Option PersistentState) (s : Daemon)
      → CountedAt st
      → HoldsBut db s
      → Holds (set_state db st s)
  replaced-Holds db st s c h = record {
    counted = λ d.
        if-elim CountedAt (d == db) st (s.persistent_state d) (λ _. c)
          (λ e. h.others d (ground (arith, e)));
    sound = h.sound;
  }

  pub freed-Holds :
      (db : ℕ) (st : PersistentState) (s : Daemon)
      → HoldsBut db s
      → Holds (ctdb_persistent_state_destructor db st s)
  unfolding ctdb_persistent_state_destructor
  freed-Holds db st s h = replaced-Holds db none _ tt (set_client-HoldsBut db st.client 0 s h)
