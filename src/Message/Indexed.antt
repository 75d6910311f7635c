-- ===== src/Message/Indexed.antt =====
-- common/ctdb_message.c: the index leads to the lists of handlers in memory, before and after a change.
use ctdb.Base.{
  ℕ, ◌<◌, ◌≤◌, ◌≡◌, ◌≢◌, ◌⊎◌, inl, inr, refl, sym, ap, ◌∙◌, subst, arith, Bool, true, false, none,
  some, Option, List, [], ◌==◌, if-elim, Option-cases, ==_iff, ℕ_discrete,
}
use ctdb.Message.Index.{
  IndexTdb, MessageList, Messages, insert_in, opened, add_to, message_list_db_add, fetch_in,
  message_list_db_fetch,
}
use ctdb.Message.Handlers.{is_nil, handlers_of, handlers_at}
use ctdb.Message.Table.{Table, update}

module _ (d : IndexTdb) where
  -- What an attempt to enter a srvid in an index makes of it.
  abbrev pub Entered : (k a : ℕ) → Option d.State → Messages d → Bool × Messages d → Type 0
  Entered k a i s r =
      (j : Option d.State) × (((r ≡ (true, record s { message_list_indexdb = j }))
          × (fetch_in d k j ≡ some a)
          × ((l : ℕ) → l ≢ k → fetch_in d l j ≡ fetch_in d l i))
        ⊎ ((r ≡ (false, record s { message_list_indexdb = j }))
            × ((l : ℕ) → fetch_in d l j ≡ fetch_in d l i)))

  insert_in-Entered :
      (k a : ℕ) (i : d.State) (s : Messages d)
      → s.message_list_indexdb ≡ some i
      → Entered k a (some i) s (insert_in d k a (i, s))
  insert_in-Entered k a i s e = elim (Option-cases (d.insert i k a)) [
    | inl failed ↦ (
      some i,
      inr (
        rw (failed, insert_in) (ap (λ x. (false, record s { message_list_indexdb = x })) e),
        λ l. refl,
      ),
    )
    | inr (j, ok) ↦ (
      some j,
      inl (
        rw (ok, insert_in) refl,
        d.fetch-insert i j k a ok,
        λ l ne. d.fetch-insert_other i j k l a ok ne,
      ),
    )
  ]

  pub add-Entered :
      (opens : Bool) (k a : ℕ) (s : Messages d)
      → Entered k a s.message_list_indexdb s (message_list_db_add d opens k a s)
  unfolding message_list_db_add
  add-Entered opens k a s = enter opens s.message_list_indexdb refl
    where
      enter :
          (opens' : Bool) (i : Option d.State)
          → s.message_list_indexdb ≡ i
          → Entered k a i s (add_to d k a s (opened d opens' i s))
      enter opens' (some i) e = insert_in-Entered k a i s e
      enter false none e =
          (none, inr (ap (λ x. (false, record s { message_list_indexdb = x })) e, λ l. refl))
      enter true none e =
          let fresh : Messages d = record s { message_list_indexdb = some d.empty } in
          let (j, result) = insert_in-Entered k a d.empty fresh refl in
          (
            j,
            elim result [
              | inl (r, at', others) ↦ inl (r, at', λ l ne. others l ne ∙ d.fetch-empty l)
              | inr (r, same) ↦ inr (r, λ l. same l ∙ d.fetch-empty l)
            ],
          )

  fetch_with :
      (k : ℕ) (s : Messages d) → message_list_db_fetch d k s ≡ fetch_in d k s.message_list_indexdb
  unfolding message_list_db_fetch
  fetch_with k s = refl

  -- Each srvid of the index has its header, which has handlers, and all addresses were given out before.
  pub record Indexed (s : Messages d) : Type 0 where
    pub at_srvid :
        (k a : ℕ)
        → fetch_in d k s.message_list_indexdb ≡ some a
        → (ms : List MessageList) × (s.heap a ≡ some (record { srvid = k; m = ms }))
          × (is_nil ms ≡ false)
    pub given : (k a : ℕ) → fetch_in d k s.message_list_indexdb ≡ some a → a < s.next_address

  -- The handlers that the index leads to.
  abbrev pub Holds : Messages d → Table → Type 0
  Holds s t = (k : ℕ) → handlers_at d s (fetch_in d k s.message_list_indexdb) ≡ t k

  -- Two srvids do not share a header.
  pub owner :
      (s : Messages d) (k l a : ℕ)
      → Indexed s
      → fetch_in d k s.message_list_indexdb ≡ some a
      → fetch_in d l s.message_list_indexdb ≡ some a
      → k ≡ l
  owner s k l a x e f =
      let (ms, at_k, _) = x.at_srvid k a e in
      let (ns, at_l, _) = x.at_srvid l a f in cc (at_k, at_l)

  abbrev pub Own : ℕ → ℕ → List MessageList → Messages d → Type 0
  Own k a ms s =
      ((fetch_in d k s.message_list_indexdb ≡ none) × (ms ≡ []))
      ⊎ ((fetch_in d k s.message_list_indexdb ≡ some a)
          × (s.heap a ≡ some (record { srvid = k; m = ms }))
          × (is_nil ms ≡ false)
          × (a < s.next_address))

  -- A change of the handlers of one srvid, whose header is at an address that no other srvid has.
  pub record Changed (k a : ℕ) (ms : List MessageList) (s s' : Messages d) : Type 0 where
    pub own : Own k a ms s'
    pub rest :
        (l : ℕ) → l ≢ k → fetch_in d l s'.message_list_indexdb ≡ fetch_in d l s.message_list_indexdb
    pub far : (b : ℕ) → b ≢ a → s'.heap b ≡ s.heap b
    pub mine : (l b : ℕ) → l ≢ k → fetch_in d l s.message_list_indexdb ≡ some b → b ≢ a
    pub grows : s.next_address ≤ s'.next_address

  module _ (k a : ℕ) (ms : List MessageList) (s s' : Messages d) (c : Changed k a ms s s')
      (x : Indexed s) where
    abbrev AtSrvid : ℕ → ℕ → Type 0
    AtSrvid l b =
        (ns : List MessageList) × (s'.heap b ≡ some (record { srvid = l; m = ns }))
        × (is_nil ns ≡ false)

    own-at :
        (b : ℕ)
        → fetch_in d k s'.message_list_indexdb ≡ some b
        → AtSrvid k b × (b < s'.next_address)
    own-at b e = elim c.own [
      | inl (missing, _) ↦ cc (missing, e)
      | inr (found, there, full, below) ↦
          let same : a ≡ b = cc (found, e) in
          subst (λ b'. AtSrvid k b' × (b' < s'.next_address)) same ((ms, there, full), below)
    ]

    other-at :
        (l b : ℕ)
        → l ≢ k
        → fetch_in d l s'.message_list_indexdb ≡ some b
        → AtSrvid l b × (b < s'.next_address)
    other-at l b ne e =
        let f = sym (c.rest l ne) ∙ e in
        let (ns, there, full) = x.at_srvid l b f in
        ((ns, c.far b (c.mine l b ne f) ∙ there, full), omega (arith, x.given l b f, c.grows))

    changed-at :
        (l b : ℕ)
        → fetch_in d l s'.message_list_indexdb ≡ some b
        → AtSrvid l b × (b < s'.next_address)
    changed-at l b e = elim (ℕ_discrete l k) [
      | yes same ↦
          subst (λ j. AtSrvid j b × (b < s'.next_address)) (sym same)
            (own-at b (subst (λ j. fetch_in d j s'.message_list_indexdb ≡ some b) same e))
      | no ne ↦ other-at l b ne e
    ]

    pub changed-Indexed : Indexed s'
    changed-Indexed = record {
      at_srvid = λ l b e. (changed-at l b e).0;
      given = λ l b e. (changed-at l b e).1;
    }

    own-Holds : handlers_at d s' (fetch_in d k s'.message_list_indexdb) ≡ ms
    unfolding handlers_at
    own-Holds = elim c.own [
      | inl (missing, empty) ↦ ap (handlers_at d s') missing ∙ sym empty
      | inr (found, there, _, _) ↦ ap (handlers_at d s') found ∙ ap (handlers_of d) there
    ]

    other-Holds :
        (l : ℕ)
        → l ≢ k
        → handlers_at d s' (fetch_in d l s'.message_list_indexdb)
          ≡ handlers_at d s (fetch_in d l s.message_list_indexdb)
    unfolding handlers_at
    other-Holds l ne =
        ap (handlers_at d s') (c.rest l ne)
        ∙ elim (Option-cases (fetch_in d l s.message_list_indexdb)) [
          | inl missing ↦ ap (handlers_at d s') missing ∙ sym (ap (handlers_at d s) missing)
          | inr (b, found) ↦
              ap (handlers_at d s') found
              ∙ ap (handlers_of d) (c.far b (c.mine l b ne found))
              ∙ sym (ap (handlers_at d s) found)
        ]

    pub changed-Holds : (t : Table) → Holds s t → Holds s' (update k ms t)
    changed-Holds t h l =
        if-elim (λ ns. handlers_at d s' (fetch_in d l s'.message_list_indexdb) ≡ ns) (l == k) _ _
          (λ same.
            subst (λ j. handlers_at d s' (fetch_in d j s'.message_list_indexdb) ≡ ms)
              (sym ((==_iff l k).0 same)) own-Holds)
          (λ other. other-Holds l (λ same. cc ((==_iff l k).1 same, other)) ∙ h l)
