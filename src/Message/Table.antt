-- ===== src/Message/Table.antt =====
-- What common/ctdb_message.c promises: a list of handlers for each srvid.
use ctdb.Base.{ℕ, Bool, true, false, none, some, Option, List, [], ◌∷◌, ◌++◌, ◌==◌, if◌then◌else◌}
use ctdb.Message.Index.{MessageList}
use ctdb.Message.Handlers.{srvid_all, remove_handler, find_private, is_nil, Call, call_handlers}

abbrev pub Table : Type 0
Table = ℕ → List MessageList

abbrev pub empty : Table
empty k = []

abbrev pub update : ℕ → List MessageList → Table → Table
update k ms t j = if j == k then ms else t j

-- What clients do: a handler is registered, where `opens` is whether the index can be opened; the first handler with
-- an argument is taken back; a handler is freed with its owner.
pub data Request : Type 0 where
  register : (opens : Bool) → (srvid : ℕ) → MessageList → Request
  deregister : (srvid private : ℕ) → Request
  free : (srvid id : ℕ) → Request

-- `room` is whether a srvid that has no handler yet can be entered in the index.
unfoldable pub registered : (room : Bool) → ℕ → MessageList → Table → Bool × Table
registered room k m t =
    if is_nil (t k)
    then (if room then (true, update k (m ∷ t k) t) else (false, t))
    else (true, update k (m ∷ t k) t)

abbrev pub taken_back : ℕ → Option MessageList → Table → Bool × Table
taken_back k none t = (false, t)
taken_back k (some m) t = (true, update k (remove_handler m.id (t k)) t)

-- The result of a request, and the table after it.
unfoldable pub answer : (room : Bool) → Request → Table → Bool × Table
answer room (register opens k m) t = registered room k m t
answer room (deregister k private) t = taken_back k (find_private private (t k)) t
answer room (free k id) t = (true, update k (remove_handler id (t k)) t)

-- The handlers of the srvid of a message are called, and then those of all messages.
unfoldable pub delivered : Table → ℕ → List Call
delivered t k = call_handlers k (t k) ++ call_handlers k (t srvid_all)
