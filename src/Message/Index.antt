-- ===== src/Message/Index.antt =====
-- common/ctdb_message.c: the lists of handlers in memory, and the tdb file that has the address of the list of each
-- srvid.
use ctdb.Base.{ℕ, ◌≡◌, ◌≢◌, Bool, true, false, none, some, Option, List, ◌==◌, if◌then◌else◌}

-- The library tdb, for a file in memory with addresses as its values. tdb_store with TDB_INSERT fails for a key that
-- is there, and may fail; tdb_delete succeeds for a key that is there.
pub record IndexTdb : Type 1 where
  pub State : Type 0
  pub empty : State
  pub fetch : State → ℕ → Option ℕ
  pub insert : State → ℕ → ℕ → Option State
  pub delete : State → ℕ → Option State
  pub fetch-empty : (k : ℕ) → fetch empty k ≡ none
  pub fetch-insert : (s t : State) (k a : ℕ) → insert s k a ≡ some t → fetch t k ≡ some a
  pub fetch-insert_other :
      (s t : State) (k j a : ℕ) → insert s k a ≡ some t → j ≢ k → fetch t j ≡ fetch s j
  pub delete_present :
      (s : State) (k a : ℕ) → fetch s k ≡ some a → (t : State) × (delete s k ≡ some t)
  pub fetch-delete : (s t : State) (k : ℕ) → delete s k ≡ some t → fetch t k ≡ none
  pub fetch-delete_other :
      (s t : State) (k j : ℕ) → delete s k ≡ some t → j ≢ k → fetch t j ≡ fetch s j

-- `struct ctdb_message_list`: a handler, by its address, its function and the argument of the function.
pub record MessageList : Type 0 where
  pub id : ℕ
  pub message_handler : ℕ
  pub message_private : ℕ

-- `struct ctdb_message_list_header`
pub record MessageListHeader : Type 0 where
  pub srvid : ℕ
  pub m : List MessageList

module _ (d : IndexTdb) where
  -- `index` is NULL until a handler is registered. `heap` is what is at an address.
  pub record Messages : Type 0 where
    pub message_list_indexdb : Option d.State
    pub message_list_header : List ℕ
    pub heap : ℕ → Option MessageListHeader
    pub next_address : ℕ

  abbrev pub put :
      ℕ → Option MessageListHeader → (ℕ → Option MessageListHeader) → ℕ → Option MessageListHeader
  put a h heap b = if b == a then h else heap b

  -- `opens` is whether tdb_open succeeds.
  unfoldable pub message_list_db_init : (opens : Bool) → Messages → Option (d.State × Messages)
  message_list_db_init true s = some (d.empty, record s { message_list_indexdb = some d.empty })
  message_list_db_init false s = none

  abbrev pub insert_in : ℕ → ℕ → d.State × Messages → Bool × Messages
  insert_in srvid h (i, s) = elim (d.insert i srvid h) [
    | none ↦ (false, s)
    | some j ↦ (true, record s { message_list_indexdb = some j })
  ]

  abbrev pub opened : Bool → Option d.State → Messages → Option (d.State × Messages)
  opened opens none s = message_list_db_init opens s
  opened opens (some i) s = some (i, s)

  abbrev pub add_to : ℕ → ℕ → Messages → Option (d.State × Messages) → Bool × Messages
  add_to srvid h s none = (false, s)
  add_to srvid h s (some p) = insert_in srvid h p

  unfoldable pub message_list_db_add : (opens : Bool) → (srvid h : ℕ) → Messages → Bool × Messages
  unfolding message_list_db_init
  message_list_db_add opens srvid h s = add_to srvid h s (opened opens s.message_list_indexdb s)

  abbrev pub delete_in : ℕ → Option d.State → Messages → Messages
  delete_in srvid none s = s
  delete_in srvid (some i) s = elim (d.delete i srvid) [
    | none ↦ s
    | some j ↦ record s { message_list_indexdb = some j }
  ]

  unfoldable pub message_list_db_delete : ℕ → Messages → Messages
  message_list_db_delete srvid s = delete_in srvid s.message_list_indexdb s

  abbrev pub fetch_in : ℕ → Option d.State → Option ℕ
  fetch_in srvid none = none
  fetch_in srvid (some i) = d.fetch i srvid

  unfoldable pub message_list_db_fetch : ℕ → Messages → Option ℕ
  message_list_db_fetch srvid s = fetch_in srvid s.message_list_indexdb
