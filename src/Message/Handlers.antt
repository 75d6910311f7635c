-- ===== src/Message/Handlers.antt =====
-- common/ctdb_message.c: handlers are registered, taken back and freed, and messages are dispatched to them.
use ctdb.Base.{
  ℕ, ◌+◌, Bool, true, false, none, some, Option, List, [], ◌∷◌, ◌++◌, ◌==◌, if◌then◌else◌,
}
use ctdb.Message.Index.{
  IndexTdb, MessageList, MessageListHeader, Messages, put, message_list_db_add,
  message_list_db_delete, message_list_db_fetch,
}

-- CTDB_SRVID_ALL
abbrev pub srvid_all : ℕ
srvid_all = 18446744073709551615

-- DLIST_REMOVE by address, of a handler and of a header.
unfoldable pub remove_handler : ℕ → List MessageList → List MessageList
remove_handler id [] = []
remove_handler id (m ∷ ms) = let rest = remove_handler id ms in if m.id == id then ms else m ∷ rest

unfoldable pub remove_header : ℕ → List ℕ → List ℕ
remove_header a [] = []
remove_header a (b ∷ bs) = let rest = remove_header a bs in if b == a then bs else b ∷ rest

-- The first handler with this argument.
unfoldable pub find_private : ℕ → List MessageList → Option MessageList
find_private private [] = none
find_private private (m ∷ ms) =
    let rest = find_private private ms in if m.message_private == private then some m else rest

-- A call of a handler: its function, the srvid of the message, and its argument.
pub record Call : Type 0 where
  pub message_handler : ℕ
  pub srvid : ℕ
  pub message_private : ℕ

unfoldable pub call_handlers : ℕ → List MessageList → List Call
call_handlers srvid [] = []
call_handlers srvid (m ∷ ms) =
    record {
      message_handler = m.message_handler;
      srvid = srvid;
      message_private = m.message_private;
    }
    ∷ call_handlers srvid ms

abbrev pub is_nil : List MessageList → Bool
is_nil [] = true
is_nil (m ∷ ms) = false

module _ (d : IndexTdb) where
  abbrev pub handlers_of : Option MessageListHeader → List MessageList
  handlers_of none = []
  handlers_of (some h) = h.m

  -- The handlers in the list at the address that the index gives.
  unfoldable pub handlers_at : Messages d → Option ℕ → List MessageList
  handlers_at s none = []
  handlers_at s (some a) = handlers_of (s.heap a)

  -- The calls that a message leads to, in their order.
  unfoldable pub ctdb_dispatch_message : Messages d → ℕ → List Call
  unfolding handlers_at call_handlers
  ctdb_dispatch_message s srvid =
      call_handlers srvid (handlers_at s (message_list_db_fetch d srvid s))
      ++ call_handlers srvid (handlers_at s (message_list_db_fetch d srvid_all s))

  abbrev pub set_handlers : ℕ → MessageListHeader → List MessageList → Messages d → Messages d
  set_handlers a h ms s = record s { heap = put d a (some (record h { m = ms })) s.heap }

  -- The loop over the handlers. The destructor of a handler that is freed here finds it out of the list, and its
  -- talloc_free of the header is refused, since the header is being freed.
  abbrev pub free_handlers : ℕ → MessageListHeader → List MessageList → Messages d → Messages d
  free_handlers a h [] s = s
  free_handlers a h (m ∷ ms) s = free_handlers a h ms (set_handlers a h ms s)

  abbrev pub emptied : ℕ → Option MessageListHeader → Messages d → Messages d
  emptied a none s = s
  emptied a (some h) s = free_handlers a h h.m s

  unfoldable pub message_header_destructor : (a srvid : ℕ) → Messages d → Messages d
  unfolding remove_header
  message_header_destructor a srvid s =
      let t = message_list_db_delete d srvid (emptied a (s.heap a) s) in
      record t {
        message_list_header = remove_header a t.message_list_header;
        heap = put d a none t.heap;
      }

  abbrev pub after_removal : ℕ → MessageListHeader → List MessageList → Messages d → Messages d
  after_removal a h [] s = message_header_destructor a h.srvid (set_handlers a h [] s)
  after_removal a h (m ∷ ms) s = set_handlers a h (m ∷ ms) s

  -- A handler that is freed: `a` is the address of its header.
  unfoldable pub message_handler_destructor : (a id : ℕ) → Messages d → Messages d
  unfolding remove_handler message_header_destructor
  message_handler_destructor a id s = elim (s.heap a) [
    | none ↦ s
    | some h ↦ after_removal a h (remove_handler id h.m) s
  ]

  -- DLIST_ADD to the handlers of a header.
  unfoldable pub add_handler : ℕ → MessageList → Messages d → Messages d
  add_handler a m s = elim (s.heap a) [ none ↦ s | some h ↦ set_handlers a h (m ∷ h.m) s ]

  abbrev pub add_header : ℕ → Bool × Messages d → Bool × Messages d
  add_header srvid (false, s) = (false, s)
  add_header srvid (true, s) = (
    true,
    record s {
      message_list_header = s.next_address ∷ s.message_list_header;
      heap = put d s.next_address (some (record { srvid = srvid; m = [] })) s.heap;
      next_address = s.next_address + 1;
    },
  )

  abbrev pub add_to_new : ℕ → MessageList → Bool × Messages d → Bool × Messages d
  add_to_new a m (false, s) = (false, s)
  add_to_new a m (true, s) = (true, add_handler a m s)

  abbrev pub register_at :
      (opens : Bool) → (srvid : ℕ) → MessageList → Messages d → Option ℕ → Bool × Messages d
  register_at opens srvid m s (some a) = (true, add_handler a m s)
  register_at opens srvid m s none =
      add_to_new s.next_address m
        (add_header srvid (message_list_db_add d opens srvid s.next_address s))

  unfoldable pub ctdb_register_message_handler :
      (opens : Bool) → (srvid : ℕ) → MessageList → Messages d → Bool × Messages d
  unfolding add_handler
  ctdb_register_message_handler opens srvid m s =
      register_at opens srvid m s (message_list_db_fetch d srvid s)

  abbrev pub free_found : ℕ → Option MessageList → Messages d → Bool × Messages d
  free_found a none s = (false, s)
  free_found a (some m) s = (true, message_handler_destructor a m.id s)

  abbrev pub deregister_at : (private : ℕ) → Messages d → Option ℕ → Bool × Messages d
  deregister_at private s none = (false, s)
  deregister_at private s (some a) = free_found a (find_private private (handlers_at s (some a))) s

  unfoldable pub ctdb_deregister_message_handler :
      (srvid private : ℕ) → Messages d → Bool × Messages d
  unfolding find_private message_handler_destructor handlers_at
  ctdb_deregister_message_handler srvid private s =
      deregister_at private s (message_list_db_fetch d srvid s)

  abbrev pub check_at : Messages d → Option ℕ → Bool
  check_at s none = false
  check_at s (some a) = if is_nil (handlers_at s (some a)) then false else true

  unfoldable pub ctdb_check_message_handler : ℕ → Messages d → Bool
  unfolding handlers_at
  ctdb_check_message_handler srvid s = check_at s (message_list_db_fetch d srvid s)
