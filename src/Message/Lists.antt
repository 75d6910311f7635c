-- ===== src/Message/Lists.antt =====
-- common/ctdb_message.c: the lists in memory change as the table does.
use ctdb.Base.{
  ℕ, ◌<◌, ◌≡◌, ◌≢◌, inl, inr, refl, sym, ap, ◌∙◌, subst, arith, false, none, some, Option, List, [],
  ◌∷◌,
}
use ctdb.Message.Index.{
  IndexTdb, MessageList, MessageListHeader, Messages, put, delete_in, message_list_db_delete,
  fetch_in,
}
use ctdb.Message.Handlers.{
  remove_handler, is_nil, handlers_of, handlers_at, remove_header, message_header_destructor,
  emptied, set_handlers, after_removal, message_handler_destructor,
}
use ctdb.Message.Table.{Table, update}
use ctdb.Message.Indexed.{Indexed, Holds, owner, Changed, changed-Indexed, changed-Holds}

pub put_same :
    (a : ℕ) (h : Option MessageListHeader) (heap : ℕ → Option MessageListHeader) (d : IndexTdb)
    → put d a h heap a ≡ h
put_same a h heap d = ground arith

pub put_other :
    (a b : ℕ) (h : Option MessageListHeader) (heap : ℕ → Option MessageListHeader) (d : IndexTdb)
    → b ≢ a
    → put d a h heap b ≡ heap b
put_other a b h heap d ne = ground (arith, ne)

module _ (d : IndexTdb) where
  -- The index and the lists in memory stand for the table.
  abbrev pub Refines : Messages d → Table → Type 0
  Refines s t = Indexed d s × Holds d s t

  abbrev pub index_of : ℕ → Messages d → Option ℕ
  index_of k s = fetch_in d k s.message_list_indexdb

  -- The list of a srvid that is in the index.
  abbrev pub Listed : ℕ → ℕ → Messages d → Table → Type 0
  Listed k a s t =
      (ns : List MessageList) × (s.heap a ≡ some (record { srvid = k; m = ns }))
      × (is_nil ns ≡ false)
      × (t k ≡ ns)
      × (a < s.next_address)

  pub listed :
      (k a : ℕ) (s : Messages d) (t : Table) → Refines s t → index_of k s ≡ some a → Listed k a s t
  unfolding handlers_at
  listed k a s t (x, h) e =
      let (ns, there, full) = x.at_srvid k a e in
      (
        ns,
        there,
        full,
        sym (h k) ∙ ap (handlers_at d s) e ∙ ap (handlers_of d) there,
        x.given k a e,
      )

  pub unlisted : (k : ℕ) (s : Messages d) (t : Table) → Refines s t → index_of k s ≡ none → t k ≡ []
  unfolding handlers_at
  unlisted k s t (x, h) e = sym (h k) ∙ ap (handlers_at d s) e

  pub changed :
      (k a : ℕ) (ms : List MessageList) (s s' : Messages d) (t : Table)
      → Refines s t
      → Changed d k a ms s s'
      → Refines s' (update k ms t)
  changed k a ms s s' t (x, h) c =
      (changed-Indexed d k a ms s s' c x, changed-Holds d k a ms s s' c x t h)

  -- A list that is written and does not become empty.
  pub written-Refines :
      (k a : ℕ) (ns ms : List MessageList) (s : Messages d) (t : Table)
      → Refines s t
      → index_of k s ≡ some a
      → is_nil ms ≡ false
      → Refines (set_handlers d a (record { srvid = k; m = ns }) ms s) (update k ms t)
  written-Refines k a ns ms s t (x, h) e full =
      changed k a ms s (set_handlers d a (record { srvid = k; m = ns }) ms s) t (x, h)
        (record {
          own = inr (e, put_same a _ s.heap d, full, x.given k a e);
          rest = λ l ne. refl;
          far = λ b ne. put_other a b _ s.heap d ne;
          mine = λ l b ne f same. ne (owner d s l k a x (f ∙ ap some same) e);
          grows = omega arith;
        })

  abbrev ended : ℕ → Messages d → Messages d
  ended a u = record u {
    message_list_header = remove_header a u.message_list_header;
    heap = put d a none u.heap;
  }

  deleted :
      (k a : ℕ) (i : Option d.State) (s : Messages d)
      → fetch_in d k i ≡ some a
      → (j : d.State) × (delete_in d k i s ≡ record s { message_list_indexdb = some j })
        × (fetch_in d k (some j) ≡ none)
        × ((l : ℕ) → l ≢ k → fetch_in d l (some j) ≡ fetch_in d l i)
  deleted k a none s e = cc
  deleted k a (some i) s e =
      let (j, ok) = d.delete_present i k a e in
      (
        j,
        rw (ok, delete_in) refl,
        d.fetch-delete i j k ok,
        λ l ne. d.fetch-delete_other i j k l ok ne,
      )

  -- A header that is freed with its last handler.
  freed-Refines :
      (k a : ℕ) (ns : List MessageList) (s : Messages d) (t : Table)
      → Refines s t
      → index_of k s ≡ some a
      → Refines
          (message_header_destructor d a k (set_handlers d a (record { srvid = k; m = ns }) [] s))
          (update k [] t)
  unfolding message_header_destructor message_list_db_delete
  freed-Refines k a ns s t (x, h) e =
      let s1 = set_handlers d a (record { srvid = k; m = ns }) [] s in
      let (j, now, gone, rest) = deleted k a s.message_list_indexdb s1 e in
      let nothing_left : emptied d a (s1.heap a) s1 ≡ s1 =
        ap (λ o. emptied d a o s1) (put_same a _ s.heap d) in
      subst (λ u. Refines (ended a u) (update k [] t))
        (sym (ap (message_list_db_delete d k) nothing_left ∙ now))
        (changed k a [] s (ended a (record s1 { message_list_indexdb = some j })) t (x, h)
          (record {
            own = inl (gone, refl);
            rest = rest;
            far = λ b ne. put_other a b _ s1.heap d ne ∙ put_other a b _ s.heap d ne;
            mine = λ l b ne f same. ne (owner d s l k a x (f ∙ ap some same) e);
            grows = omega arith;
          }))

  after_removal-Refines :
      (k a : ℕ) (ns left : List MessageList) (s : Messages d) (t : Table)
      → Refines s t
      → index_of k s ≡ some a
      → Refines (after_removal d a (record { srvid = k; m = ns }) left s) (update k left t)
  after_removal-Refines k a ns [] s t r e = freed-Refines k a ns s t r e
  after_removal-Refines k a ns (m ∷ ms) s t r e = written-Refines k a ns (m ∷ ms) s t r e refl

  pub handler_destructor-Refines :
      (k a id : ℕ) (s : Messages d) (t : Table)
      → Refines s t
      → index_of k s ≡ some a
      → Refines (message_handler_destructor d a id s) (update k (remove_handler id (t k)) t)
  handler_destructor-Refines k a id s t r e =
      let (ns, there, full, same, below) = listed k a s t r e in
      let freeing : message_handler_destructor d a id s
          ≡ after_removal d a (record { srvid = k; m = ns }) (remove_handler id ns) s =
        (unfold message_handler_destructor in rw (there, message_handler_destructor) refl) in
      subst (λ u. Refines u (update k (remove_handler id (t k)) t)) (sym freeing)
        (subst
          (λ l.
            Refines (after_removal d a (record { srvid = k; m = ns }) (remove_handler id ns) s)
              (update k (remove_handler id l) t))
          (sym same) (after_removal-Refines k a ns (remove_handler id ns) s t r e))
