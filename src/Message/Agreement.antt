-- ===== src/Message/Agreement.antt =====
-- common/ctdb_message.c: each request has the result that it has on the table.
use ctdb.Base.{
  ℕ, ◌≡◌, ◌≢◌, inl, inr, refl, sym, ap, ◌∙◌, subst, arith, Bool, true, false, none, some, Option,
  List, [], ◌∷◌, ◌==◌, if◌then◌else◌, if-elim, ==_iff,
}
use ctdb.Message.Index.{IndexTdb, MessageList, MessageListHeader, Messages, fetch_in}
use ctdb.Message.Handlers.{
  remove_handler, find_private, is_nil, handlers_at, set_handlers, message_handler_destructor,
  add_handler, add_header, add_to_new, register_at, deregister_at, free_found,
}
use ctdb.Message.Table.{Table, update, registered, taken_back}
use ctdb.Message.Indexed.{add-Entered}
use ctdb.Message.Lists.{
  put_same, put_other, Refines, index_of, listed, unlisted, changed, written-Refines,
  handler_destructor-Refines,
}

module _ (d : IndexTdb) where
  -- A result with its state agrees with that of the table.
  abbrev pub Agrees : Bool × Messages d → Bool × Table → Type 0
  Agrees r q = (r.0 ≡ q.0) × Refines d r.1 q.1

  listed-registered :
      (room : Bool) (k : ℕ) (m : MessageList) (t : Table)
      → is_nil (t k) ≡ false
      → registered room k m t ≡ (true, update k (m ∷ t k) t)
  unfolding registered
  listed-registered room k m t full = rw full refl

  unlisted-registered :
      (room : Bool) (k : ℕ) (m : MessageList) (t : Table)
      → t k ≡ []
      → registered room k m t ≡ (if room then (true, update k (m ∷ []) t) else (false, t))
  unfolding registered
  unlisted-registered room k m t none_yet =
      ap
        (λ (l : List MessageList).
          if is_nil l
          then (if room then (true, update k (m ∷ l) t) else (false, t))
          else (true, update k (m ∷ l) t))
        none_yet

  add_handler-Agrees :
      (room : Bool) (k a : ℕ) (m : MessageList) (s : Messages d) (t : Table)
      → Refines d s t
      → index_of d k s ≡ some a
      → Agrees (true, add_handler d a m s) (registered room k m t)
  unfolding add_handler
  add_handler-Agrees room k a m s t r e =
      let (ns, there, full, same, below) = listed d k a s t r e in
      let adding : add_handler d a m s
          ≡ set_handlers d a (record { srvid = k; m = ns }) (m ∷ ns) s =
        rw (there, add_handler) refl in
      subst (Agrees (true, add_handler d a m s))
        (sym (listed-registered room k m t (ap is_nil same ∙ full)))
        (
          refl,
          subst (λ u. Refines d u (update k (m ∷ t k) t)) (sym adding)
              (subst
                (λ l.
                  Refines d (set_handlers d a (record { srvid = k; m = ns }) (m ∷ ns) s)
                    (update k (m ∷ l) t))
                (sym same) (written-Refines d k a ns (m ∷ ns) s t r e refl)),
        )

  taken-Agrees :
      (k a : ℕ) (o : Option MessageList) (s : Messages d) (t : Table)
      → Refines d s t
      → index_of d k s ≡ some a
      → Agrees (free_found d a o s) (taken_back k o t)
  taken-Agrees k a none s t r e = (refl, r)
  taken-Agrees k a (some m) s t r e = (refl, handler_destructor-Refines d k a m.id s t r e)

  pub deregister_at-Agrees :
      (k private : ℕ) (o : Option ℕ) (s : Messages d) (t : Table)
      → Refines d s t
      → index_of d k s ≡ o
      → Agrees (deregister_at d private s o) (taken_back k (find_private private (t k)) t)
  deregister_at-Agrees k private none s t r e =
      let nothing : none ≡ find_private private (t k) =
        (unfold find_private in ap (find_private private) (sym (unlisted d k s t r e))) in
      subst (λ o. Agrees (false, s) (taken_back k o t)) nothing (refl, r)
  deregister_at-Agrees k private (some a) s t r e =
      let same : t k ≡ handlers_at d s (some a) = sym (r.1 k) ∙ ap (handlers_at d s) e in
      subst
        (λ l. Agrees (deregister_at d private s (some a)) (taken_back k (find_private private l) t))
        (sym same) (taken-Agrees k a (find_private private (handlers_at d s (some a))) s t r e)

  -- A handler that is freed with its owner; its header is the one of its srvid.
  abbrev pub free_at : (id : ℕ) → Messages d → Option ℕ → Bool × Messages d
  free_at id s none = (true, s)
  free_at id s (some a) = (true, message_handler_destructor d a id s)

  unchanged :
      (k : ℕ) (ms : List MessageList) (t : Table) → t k ≡ ms → (l : ℕ) → t l ≡ update k ms t l
  unchanged k ms t e l =
      if-elim (λ x. t l ≡ x) (l == k) _ _ (λ same. ap t ((==_iff l k).0 same) ∙ e) (λ _. refl)

  pub free_at-Agrees :
      (k id : ℕ) (o : Option ℕ) (s : Messages d) (t : Table)
      → Refines d s t
      → index_of d k s ≡ o
      → Agrees (free_at id s o) (true, update k (remove_handler id (t k)) t)
  free_at-Agrees k id none s t r e =
      let nothing : [] ≡ remove_handler id (t k) =
        (unfold remove_handler in ap (remove_handler id) (sym (unlisted d k s t r e))) in
      (refl, (r.0, λ l. r.1 l ∙ unchanged k _ t (unlisted d k s t r e ∙ nothing) l))
  free_at-Agrees k id (some a) s t r e = (refl, handler_destructor-Refines d k a id s t r e)

  -- A header at a new address, with its first handler.
  abbrev with_header : ℕ → Option d.State → Messages d → Messages d
  with_header k j s = (add_header d k (true, record s { message_list_indexdb = j })).1

  first_handler-Refines :
      (k : ℕ) (m : MessageList) (j : Option d.State) (s : Messages d) (t : Table)
      → Refines d s t
      → fetch_in d k j ≡ some s.next_address
      → ((l : ℕ) → l ≢ k → fetch_in d l j ≡ index_of d l s)
      → Refines d (add_handler d s.next_address m (with_header k j s)) (update k (m ∷ []) t)
  first_handler-Refines k m j s t (x, h) entered others =
      let a = s.next_address in
      let s2 = with_header k j s in
      let header : MessageListHeader = record { srvid = k; m = [] } in
      let adding : add_handler d a m s2 ≡ set_handlers d a header (m ∷ []) s2 =
        (unfold add_handler in rw (put_same a (some header) s.heap d, add_handler) refl) in
      subst (λ u. Refines d u (update k (m ∷ []) t)) (sym adding)
        (changed d k a (m ∷ []) s (set_handlers d a header (m ∷ []) s2) t (x, h)
          (record {
            own = inr (entered, put_same a _ s2.heap d, refl, omega arith);
            rest = others;
            far = λ b ne. put_other a b _ s2.heap d ne ∙ put_other a b _ s.heap d ne;
            mine = λ l b ne f same. absurd (omega (arith, x.given l b f, same));
            grows = omega arith;
          }))

  same_index-Refines :
      (j : Option d.State) (s : Messages d) (t : Table)
      → Refines d s t
      → ((l : ℕ) → fetch_in d l j ≡ index_of d l s)
      → Refines d (record s { message_list_indexdb = j }) t
  unfolding handlers_at
  same_index-Refines j s t (x, h) same = (
    record {
      at_srvid = λ k a e. x.at_srvid k a (sym (same k) ∙ e);
      given = λ k a e. x.given k a (sym (same k) ∙ e);
    },
    λ l. ap (handlers_at d s) (same l) ∙ h l,
  )

  register_new-Agrees :
      (opens : Bool) (k : ℕ) (m : MessageList) (s : Messages d) (t : Table)
      → Refines d s t
      → index_of d k s ≡ none
      → Agrees
          (register_at d opens k m s none)
          (registered (register_at d opens k m s none).0 k m t)
  register_new-Agrees opens k m s t r e =
      let a = s.next_address in
      let (j, outcome) = add-Entered d opens k a s in
      let finish : Bool × Messages d → Bool × Messages d =
        λ p. add_to_new d a m (add_header d k p) in
      elim outcome [
        | inl (done, entered, others) ↦
            subst (λ q. Agrees q (registered q.0 k m t)) (sym (ap finish done))
              (subst (Agrees (true, add_handler d a m (with_header k j s)))
                (sym (unlisted-registered true k m t (unlisted d k s t r e)))
                (refl, first_handler-Refines k m j s t r entered others))
        | inr (failed, same) ↦
            subst (λ q. Agrees q (registered q.0 k m t)) (sym (ap finish failed))
              (subst (Agrees (false, record s { message_list_indexdb = j }))
                (sym (unlisted-registered false k m t (unlisted d k s t r e)))
                (refl, same_index-Refines j s t r same))
      ]

  pub register_at-Agrees :
      (opens : Bool) (k : ℕ) (m : MessageList) (o : Option ℕ) (s : Messages d) (t : Table)
      → Refines d s t
      → index_of d k s ≡ o
      → Agrees (register_at d opens k m s o) (registered (register_at d opens k m s o).0 k m t)
  register_at-Agrees opens k m none s t r e = register_new-Agrees opens k m s t r e
  register_at-Agrees opens k m (some a) s t r e = add_handler-Agrees true k a m s t r e
