-- ===== src/Message/Refinement.antt =====
-- common/ctdb_message.c: the index and the lists in memory are a table of handlers.
use ctdb.Base.{
  ℕ, ◌≡◌, refl, sym, ap, ◌∙◌, Bool, true, false, not, none, some, Option, List, [], ◌∷◌, ◌++◌,
  if◌then◌else◌,
}
use ctdb.Message.Index.{IndexTdb, Messages, message_list_db_fetch}
use ctdb.Message.Handlers.{
  srvid_all, is_nil, call_handlers, handlers_at, ctdb_dispatch_message,
  ctdb_register_message_handler, ctdb_deregister_message_handler, ctdb_check_message_handler,
  check_at,
}
use ctdb.Message.Table.{Table, empty, Request, register, deregister, free, answer, delivered}
use ctdb.Message.Lists.{Refines, index_of, unlisted}
use ctdb.Message.Agreement.{
  Agrees, free_at, register_at-Agrees, deregister_at-Agrees, free_at-Agrees,
}

module _ (d : IndexTdb) where
  abbrev pub at_start : Messages d
  at_start = record {
    message_list_indexdb = none;
    message_list_header = [];
    heap = λ a. none;
    next_address = 1;
  }

  unfoldable pub run_request : Request → Messages d → Bool × Messages d
  run_request (register opens k m) s = ctdb_register_message_handler d opens k m s
  run_request (deregister k private) s = ctdb_deregister_message_handler d k private s
  run_request (free k id) s = free_at d id s (message_list_db_fetch d k s)

  request-Agrees :
      (q : Request) (s : Messages d) (t : Table)
      → Refines d s t
      → Agrees d (run_request q s) (answer (run_request q s).0 q t)
  unfolding run_request answer ctdb_register_message_handler ctdb_deregister_message_handler
      message_list_db_fetch
  request-Agrees (register opens k m) s t r =
      register_at-Agrees d opens k m (index_of d k s) s t r refl
  request-Agrees (deregister k private) s t r =
      deregister_at-Agrees d k private (index_of d k s) s t r refl
  request-Agrees (free k id) s t r = free_at-Agrees d k id (index_of d k s) s t r refl

  -- The results of the requests, and the state after them.
  unfoldable pub run : List Request → Messages d → List Bool × Messages d
  run [] s = ([], s)
  run (q ∷ qs) s = let (ok, s') = run_request q s in let (oks, end) = run qs s' in (ok ∷ oks, end)

-- The same on the table: a new srvid can be entered in the index when it was.
unfoldable pub replay : List Request → List Bool → Table → List Bool × Table
replay [] oks t = ([], t)
replay (q ∷ qs) [] t = ([], t)
replay (q ∷ qs) (room ∷ rooms) t =
    let (ok, t') = answer room q t in let (oks, end) = replay qs rooms t' in (ok ∷ oks, end)

if_not : (b : Bool) → (if b then false else true) ≡ not b
if_not true = refl
if_not false = refl

module _ (d : IndexTdb) where
  start-Refines : Refines d (at_start d) empty
  unfolding handlers_at
  start-Refines = (record { at_srvid = λ k a e. cc; given = λ k a e. cc }, λ k. refl)

  run-Agrees :
      (qs : List Request) (s : Messages d) (t : Table)
      → Refines d s t
      → (let (oks, s') = run d qs s in
          let (results, t') = replay qs oks t in (results ≡ oks) × Refines d s' t')
  unfolding run replay
  run-Agrees [] s t r = (refl, r)
  run-Agrees (q ∷ qs) s t r =
      let (ok, s') = run_request d q s in
      let (same, r') = request-Agrees d q s t r in
      let (rest, end) = run-Agrees qs s' (answer ok q t).1 r' in
      (
        ap (λ b. b ∷ (replay qs (run d qs s').0 (answer ok q t).1).0) (sym same) ∙ ap (◌∷◌ ok) rest,
        end,
      )

  dispatch-delivered :
      (s : Messages d) (t : Table) (k : ℕ)
      → Refines d s t
      → ctdb_dispatch_message d s k ≡ delivered t k
  unfolding ctdb_dispatch_message delivered message_list_db_fetch
  dispatch-delivered s t k r =
      ap (λ l. call_handlers k l ++ call_handlers k (handlers_at d s (index_of d srvid_all s)))
        (r.1 k)
      ∙ ap (λ l. call_handlers k (t k) ++ call_handlers k l) (r.1 srvid_all)

  check_at-nil :
      (s : Messages d) (t : Table) (k : ℕ) (o : Option ℕ)
      → Refines d s t
      → index_of d k s ≡ o
      → check_at d s o ≡ not (is_nil (t k))
  check_at-nil s t k none r e = ap (λ l. not (is_nil l)) (sym (unlisted d k s t r e))
  check_at-nil s t k (some a) r e =
      let same : handlers_at d s (some a) ≡ t k = ap (handlers_at d s) (sym e) ∙ r.1 k in
      ap (λ l. if is_nil l then false else true) same ∙ if_not (is_nil (t k))

  check-nil :
      (s : Messages d) (t : Table) (k : ℕ)
      → Refines d s t
      → ctdb_check_message_handler d k s ≡ not (is_nil (t k))
  unfolding ctdb_check_message_handler message_list_db_fetch
  check-nil s t k r = check_at-nil s t k (index_of d k s) r refl

  -- After any requests from the start, each request had the result that it has on a table of handlers, where a srvid
  -- without handlers can be entered when it was, a message leads to the calls of the handlers of its srvid and of those
  -- of all messages in the table, and a srvid is found to have a handler when it has one in the table.
  pub run-refines :
      (qs : List Request)
      → (let (oks, s) = run d qs (at_start d) in
          let (results, t) = replay qs oks empty in
          (results ≡ oks)
          × ((k : ℕ) → ctdb_dispatch_message d s k ≡ delivered t k)
          × ((k : ℕ) → ctdb_check_message_handler d k s ≡ not (is_nil (t k))))
  run-refines qs =
      let (same, r) = run-Agrees qs (at_start d) empty start-Refines in
      (same, λ k. dispatch-delivered _ _ k r, λ k. check-nil _ _ k r)
