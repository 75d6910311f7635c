-- ===== src/Dmaster/Data.antt =====
-- server/ctdb_call.c: the data of a record that a node takes over.
use ctdb.Base.{
  ℕ, ◌≡◌, refl, sym, ◌∙◌, inl, inr, arith, Bool, true, ◌&&◌, Option, none, some, List, [], ◌∷◌,
  ◌==◌, Option-cases, Bool-cases, if◌then◌else◌,
}
use ctdb.Dmaster.Header.{Header, Rec, ReplyDmaster}
use ctdb.Dmaster.Node.{Env, CallState, CallResult, unlock, note}
use ctdb.Dmaster.Store.{
  Stored, is_empty, write, remove, drop, keep, keep_and_schedule, keep_record, stored_header,
  schedules, ctdb_ltdb_store_server,
}
use ctdb.Dmaster.Call.{
  N, new_body, ctdb_call_local, finish_call, run_waiting_call, ctdb_set_sticky_pindown,
}
use ctdb.Dmaster.Ownership.{pinned_down}
use ctdb.Dmaster.Reliable.{Reliable, store-ok}

module _ (e : Env) where
  -- The data that the node has for the record; a record that is not there has none.
  unfoldable pub data_at : N e → List ℕ
  data_at n = elim (e.fetch n.store) [ none ↦ [] | some r ↦ r.body ]

  -- What a call makes of the data.
  abbrev pub made_by : Option (Header → List ℕ → Option CallResult) → Header → List ℕ → List ℕ
  made_by none h body = body
  made_by (some fn) h body = elim (fn h body) [
    | none ↦ body
    | some r ↦ elim r.new_data [ none ↦ body | some d ↦ d ]
  ]

  -- What the call that waits for the packet makes of the data, if there is one.
  abbrev pub after_call : Option CallState → (reqid key : ℕ) → Header → List ℕ → List ℕ
  after_call none reqid key h body = body
  after_call (some state) reqid key h body =
      if (key == state.key) && (reqid == state.reqid)
      then made_by (e.call_fn state.callid) h body
      else body

  empty_body : (body : List ℕ) → is_empty body ≡ true → body ≡ []
  empty_body [] q = refl
  empty_body (x ∷ xs) q = cc

  drop-is_empty :
      (n : N e) (h : Header) (body : List ℕ) → keep_record e n h body ≡ drop → is_empty body ≡ true
  unfolding keep_record
  drop-is_empty n h body q = ground arith

  write-data :
      (n : N e) (h : Header) (body : List ℕ) (b : Bool)
      → Reliable e
      → data_at (write e n h body b).node ≡ body
  unfolding write data_at note
  write-data n h body b sure =
      let r : Rec = record { header = stored_header e n h; body = body } in
      let (t, q) = sure.store n.store r in
      rw (q, write) (let f = e.fetch-store n.store t r q in rw (f, data_at) refl)

  remove-data : (n : N e) (h : Header) → Reliable e → data_at (remove e n h).node ≡ []
  unfolding remove data_at
  remove-data n h sure =
      let (t, q) = sure.delete n.store in
      rw (q, remove) (let f = e.fetch-delete n.store t q in rw (f, data_at) refl)

  pub store-data :
      (n : N e) (h : Header) (body : List ℕ)
      → Reliable e
      → data_at (ctdb_ltdb_store_server e n h body).node ≡ body
  unfolding ctdb_ltdb_store_server
  store-data n h body sure =
      elim (keep_record e n h body)
          as (λ k.
            keep_record e n h body ≡ k
            → data_at
                (elim k as (λ j. Stored e) [
                  | drop ↦ remove e n h
                  | keep ↦ write e n h body (schedules e n h body keep)
                  | keep_and_schedule ↦ write e n h body true
                ]).node
              ≡ body) [
                | drop ↦
                    λ q. remove-data n h sure ∙ sym (empty_body body (drop-is_empty n h body q))
                | keep ↦ λ q. write-data n h body (schedules e n h body keep) sure
                | keep_and_schedule ↦ λ q. write-data n h body true sure
              ]
        refl

  call_local-data :
      (n : N e) (callid : ℕ) (h : Header) (body : List ℕ)
      → Reliable e
      → data_at n ≡ body
      → data_at (ctdb_call_local e n callid h body).node ≡ made_by (e.call_fn callid) h body
  unfolding ctdb_call_local
  call_local-data n callid h body sure own = elim (Option-cases (e.call_fn callid)) [
    | inl q ↦ rw (q, ctdb_call_local) own
    | inr (fn, q) ↦ elim (Option-cases (fn h body)) [
      | inl k ↦ rw (q, ctdb_call_local, k) own
      | inr (r, k) ↦
          let ok = store-ok e n h (new_body e r body) sure in
          rw (q, ctdb_call_local, k, ok) (store-data n h (new_body e r body) sure)
    ]
  ]

  pub run_waiting_call-data :
      (n : N e) (reqid key : ℕ) (state : Option CallState) (h : Header) (body : List ℕ)
      → Reliable e
      → data_at n ≡ body
      → data_at (run_waiting_call e n reqid key state h body) ≡ after_call state reqid key h body
  unfolding run_waiting_call finish_call unlock data_at
  run_waiting_call-data n reqid key none h body sure own = own
  run_waiting_call-data n reqid key (some state) h body sure own =
      elim (Bool-cases ((key == state.key) && (reqid == state.reqid))) [
        | inl y ↦ rw y (call_local-data n state.callid h body sure own)
        | inr y ↦ rw y own
      ]

  pub pinned_down-data : (n m : N e) → data_at (pinned_down e n m) ≡ data_at m
  unfolding ctdb_set_sticky_pindown data_at
  pinned_down-data n m = elim (Bool-cases n.sticky) [
    | inr y ↦ rw y refl
    | inl y ↦ elim (Option-cases m.sticky_record) [
      | inl q ↦ rw (y, q, ctdb_set_sticky_pindown) refl
      | inr (p, q) ↦ rw (y, q, ctdb_set_sticky_pindown) refl
    ]
  ]

  -- The node that is given the record has its data, or what the waiting call makes of them.
  abbrev pub Has : (n n' : N e) → ReplyDmaster → List ℕ → Type 0
  Has n n' p body =
      (h : Header) × (h.dmaster ≡ n.pnn)
      × (data_at n' ≡ after_call (n.find_call p.reqid) p.reqid p.key h body)
