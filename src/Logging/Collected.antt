-- ===== src/Logging/Collected.antt =====
-- common/ctdb_logging.c: what is collected from the ring buffer.
use ctdb.Base.{
  length, ℕ, zero, suc, ◌+◌, ◌%◌, ◌<◌, ◌≡◌, refl, sym, ap, ◌∙◌, subst, arith, not, none, some,
  Option, List, [], ◌∷◌, ◌==◌, if◌then◌else◌, if-elim,
}
use ctdb.Logging.Buffer.{
  ℤ, ltb_ℤ, debug_err, LogEntry, LogRing, cut, is_blank, allocated, enter_at, log_ringbuffer_v,
  collect, collect_at, ctdb_collect_log, ctdb_clear_log,
}
use ctdb.Logging.Ring.{length-Shows, push, view, Shows, enter-Shows}

-- A message that comes: its level, its time and its text.
pub record LogMessage : Type 0 where
  pub level : ℤ
  pub t : ℕ
  pub text : List ℕ

abbrev pub entry_of : LogMessage → LogEntry
entry_of m = record { level = m.level; t = m.t; message = cut m.text }

-- The entries that are printed at a level.
abbrev pub visible : ℤ → List LogEntry → List LogEntry
visible level [] = []
visible level (e ∷ es) =
    let rest = visible level es in
    if ltb_ℤ level e.level then rest else if is_blank e.message then rest else e ∷ rest

module _ (size : ℕ) where
  unfoldable pub log_all : (fresh : ℕ → LogEntry) → List LogMessage → LogRing → LogRing
  log_all fresh [] r = r
  log_all fresh (m ∷ ms) r =
      log_all fresh ms (log_ringbuffer_v size fresh m.level m.t (some m.text) r)

  abbrev pub push_all : List LogMessage → List LogEntry → List LogEntry
  push_all [] q = q
  push_all (m ∷ ms) q = push_all ms (push size (entry_of m) q)

  collect-visible :
      (b : ℕ → LogEntry) (f : ℕ) (level : ℤ) (i n : ℕ)
      → collect size b f level i n ≡ visible level (view size b (f + i) n)
  unfolding collect view
  collect-visible b f level i zero = refl
  collect-visible b f level i (suc n) =
      let e = b ((f + i) % size) in
      ap
        (λ rest.
          if ltb_ℤ level e.level then rest else if is_blank e.message then rest else e ∷ rest)
        (collect-visible b f level (suc i) n
          ∙ ap (λ a. visible level (view size b a n)) (omega arith))

  abbrev ShowsAt : Option (ℕ → LogEntry) → LogRing → List LogEntry → Type 0
  ShowsAt none r q = (q ≡ []) × (r.ringbuf_count ≡ 0) × (r.first_entry < size)
  ShowsAt (some b) r q = Shows size b r q

  allocated-ShowsAt :
      (fresh : ℕ → LogEntry) (o : Option (ℕ → LogEntry)) (r : LogRing) (q : List LogEntry)
      → 0 < size
      → ShowsAt o r q
      → (b : ℕ → LogEntry) × (allocated size fresh o ≡ some b) × Shows size b r q
  unfolding view
  allocated-ShowsAt fresh none r q l (empty, zero', first) = (
    fresh,
    if-elim (λ x. x ≡ some fresh) (not (size == 0)) _ _ (λ _. refl)
        (λ h. absurd (ground (arith, h, l))),
    record {
      first = first;
      bound = omega (arith, zero');
      shows = ap (view size fresh r.first_entry) zero' ∙ sym empty;
    },
  )
  allocated-ShowsAt fresh (some b) r q l s = (b, refl, s)

  log-Shows :
      (fresh : ℕ → LogEntry) (m : LogMessage) (r : LogRing) (q : List LogEntry)
      → 0 < size
      → ShowsAt r.log_entries r q
      → let s = log_ringbuffer_v size fresh m.level m.t (some m.text) r in
        ShowsAt s.log_entries s (push size (entry_of m) q)
  unfolding log_ringbuffer_v
  log-Shows fresh m r q l s =
      let (b, same, shows) = allocated-ShowsAt fresh r.log_entries r q l s in
      subst
        (λ o.
          let z = enter_at size m.level m.t (some m.text) o r in
          ShowsAt z.log_entries z (push size (entry_of m) q))
        (sym same) (enter-Shows size b r q m.level m.t m.text shows)

  log_all-Shows :
      (fresh : ℕ → LogEntry) (ms : List LogMessage) (r : LogRing) (q : List LogEntry)
      → 0 < size
      → ShowsAt r.log_entries r q
      → ShowsAt (log_all fresh ms r).log_entries (log_all fresh ms r) (push_all ms q)
  unfolding log_all
  log_all-Shows fresh [] r q l s = s
  log_all-Shows fresh (m ∷ ms) r q l s = log_all-Shows fresh ms _ _ l (log-Shows fresh m r q l s)

  collected :
      (level : ℤ) (o : Option (ℕ → LogEntry)) (r : LogRing) (q : List LogEntry)
      → ShowsAt o r q
      → collect_at size level o r ≡ visible level q
  collected level none r q (empty, none_yet, first) = ap (visible level) (sym empty)
  collected level (some b) r q s =
      collect-visible b r.first_entry level 0 r.ringbuf_count
      ∙ ap (λ a. visible level (view size b a r.ringbuf_count)) (omega arith)
      ∙ ap (visible level) s.shows

  cleared :
      (o : Option (ℕ → LogEntry))
      → 0 < size
      → ShowsAt o (record { log_entries = o; first_entry = 0; ringbuf_count = 0 }) []
  unfolding view
  cleared none l = (refl, refl, l)
  cleared (some b) l = record { first = l; bound = omega arith; shows = refl }

  counted :
      (o : Option (ℕ → LogEntry)) (r : LogRing) (q : List LogEntry)
      → ShowsAt o r q
      → r.ringbuf_count ≡ length q
  counted none r q (empty, none_yet, first) = none_yet ∙ ap length (sym empty)
  counted (some b) r q s = sym (length-Shows size b r q s)

  -- For a ring buffer of at least one entry: after messages that can be formatted came to a buffer that was cleared,
  -- what is collected at a level is, in order, those entries of the level that a list of bounded length holds after
  -- these messages and the message about their number that the collection logs first; of that list the oldest entry goes
  -- when another one comes. Entries with an empty message are left out.
  pub collect-push_all :
      (fresh : ℕ → LogEntry) (ms : List LogMessage) (r : LogRing) (t : ℕ) (text : ℕ → List ℕ)
      (level : ℤ)
      → 0 < size
      → ctdb_collect_log size fresh t text level (log_all fresh ms (ctdb_clear_log r))
        ≡ visible level (
            push size
              (record { level = debug_err; t = t; message = cut (text (length (push_all ms []))) })
              (push_all ms []))
  unfolding ctdb_collect_log ctdb_clear_log
  collect-push_all fresh ms r t text level l =
      let q = push_all ms [] in
      let before = log_all fresh ms (ctdb_clear_log r) in
      let s = log_all-Shows fresh ms (ctdb_clear_log r) [] l (cleared r.log_entries l) in
      let own : LogMessage = record {
        level = debug_err;
        t = t;
        text = text before.ringbuf_count;
      } in
      let after = log_ringbuffer_v size fresh debug_err t (some own.text) before in
      collected level after.log_entries after (push size (entry_of own) q)
        (log-Shows fresh own before q l s)
      ∙ ap
          (λ n.
            visible level
              (push size (record { level = debug_err; t = t; message = cut (text n) }) q))
          (counted before.log_entries before q s)
