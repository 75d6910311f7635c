-- ===== src/Logging/Ring.antt =====
-- common/ctdb_logging.c: the ring buffer as a list of bounded length.
use native.Mathlib.Nat.{
  mod-lt, mod-eq_of_lt, mod-add-mod, mod-eq-sub-mod, suc-mod, add-mod_right, mod-mod,
}
use ctdb.Base.{
  ℕ, zero, suc, ◌+◌, ◌-◌, ◌%◌, ◌<◌, ◌≤◌, ◌≡◌, ◌≢◌, refl, sym, ap, ◌∙◌, subst, arith, Bool, some,
  List, [], ◌∷◌, ◌++◌, ◌==◌, ltb, length, if◌then◌else◌, if-elim, dec_lt, ◌&&◌,
}
use ctdb.Logging.Buffer.{ℤ, LogEntry, LogRing, set_entry, cut, next_entry, moved_first, enter}

module _ (size : ℕ) where
  abbrev pub behind_first : List LogEntry → List LogEntry
  behind_first [] = []
  behind_first (e ∷ es) = es

  -- A list of at most `size` entries, of which the oldest goes when another one comes.
  abbrev pub push : LogEntry → List LogEntry → List LogEntry
  push e q = (if ltb (length q) size then q else behind_first q) ++ e ∷ []

  -- The n entries from the a-th on.
  unfoldable pub view : (ℕ → LogEntry) → ℕ → ℕ → List LogEntry
  view b a zero = []
  view b a (suc n) = b (a % size) ∷ view b (suc a) n

  pub length-view : (b : ℕ → LogEntry) (a n : ℕ) → length (view b a n) ≡ n
  unfolding view
  length-view b a zero = refl
  length-view b a (suc n) = ap suc (length-view b (suc a) n)

  view-end : (b : ℕ → LogEntry) (a n : ℕ) → view b a (suc n) ≡ view b a n ++ b ((a + n) % size) ∷ []
  unfolding view
  view-end b a zero = ap (λ x. b (x % size) ∷ []) (omega arith)
  view-end b a (suc n) =
      ap (λ v. b (a % size) ∷ v)
        (view-end b (suc a) n ∙ ap (λ x. view b (suc a) n ++ b (x % size) ∷ []) (omega arith))

  view-same : (b : ℕ → LogEntry) (a c n : ℕ) → a % size ≡ c % size → view b a n ≡ view b c n
  unfolding view
  view-same b a c zero e = refl
  view-same b a c (suc n) e =
      ap (λ x. b x ∷ view b (suc a) n) e
      ∙ ap (λ v. b (c % size) ∷ v)
          (view-same b (suc a) (suc c) n
            (suc-mod a size ∙ ap (λ x. suc x % size) e ∙ sym (suc-mod c size)))

  set_entry_other : (b : ℕ → LogEntry) (p j : ℕ) (e : LogEntry) → j ≢ p → set_entry p e b j ≡ b j
  set_entry_other b p j e ne =
      if-elim (λ x. x ≡ b j) (j == p) _ _ (λ h. absurd (ne (ground (arith, h)))) (λ _. refl)

  set_entry_same : (b : ℕ → LogEntry) (p : ℕ) (e : LogEntry) → set_entry p e b p ≡ e
  set_entry_same b p e =
      if-elim (λ x. x ≡ e) (p == p) _ _ (λ _. refl) (λ h. absurd (ground (arith, h)))

  view-set_entry :
      (b : ℕ → LogEntry) (p a n : ℕ) (e : LogEntry)
      → ((i : ℕ) → a ≤ i → i < a + n → i % size ≢ p)
      → view (set_entry p e b) a n ≡ view b a n
  unfolding view
  view-set_entry b p a zero e ne = refl
  view-set_entry b p a (suc n) e ne =
      ap (λ x. x ∷ view (set_entry p e b) (suc a) n)
        (set_entry_other b p (a % size) e (ne a (omega arith) (omega arith)))
      ∙ ap (λ v. b (a % size) ∷ v)
          (view-set_entry b p (suc a) n e (λ i l h. ne i (omega (arith, l)) (omega (arith, h))))

  -- Indices that are less than the size apart are different places.
  apart : (x y : ℕ) → x < y → y < x + size → x % size ≢ y % size
  apart x y l h e =
      let r = x % size in
      let dist = y - x in
      let low : r < size = mod-lt x (omega (arith, l, h)) in
      let same : (r + dist) % size ≡ r =
        mod-add-mod x size dist ∙ ap (λ z. z % size) (omega (arith, l)) ∙ sym e in
      elim (dec_lt (r + dist) size) [
        | yes small ↦ absurd (omega (arith, sym (mod-eq_of_lt small) ∙ same, l))
        | no large ↦
            let wrapped : r + dist - size ≡ r =
              sym (mod-eq_of_lt (omega (arith, low, h, l, large)))
              ∙ sym (mod-eq-sub-mod (omega (arith, large)))
              ∙ same in
            absurd (omega (arith, wrapped, large, h, l))
      ]

  pub record Shows (b : ℕ → LogEntry) (r : LogRing) (q : List LogEntry) : Type 0 where
    pub first : r.first_entry < size
    pub bound : r.ringbuf_count ≤ size
    pub shows : view b r.first_entry r.ringbuf_count ≡ q

  -- One entry more, and one entry that takes the place of the first one.
  added :
      (b : ℕ → LogEntry) (f n p : ℕ) (e : LogEntry)
      → n < size
      → p ≡ (f + n) % size
      → view (set_entry p e b) f (suc n) ≡ view b f n ++ e ∷ []
  added b f n p e l at =
      view-end (set_entry p e b) f n
      ∙ ap (λ v. v ++ set_entry p e b ((f + n) % size) ∷ [])
          (view-set_entry b p f n e (λ i le h q. apart i (f + n) h (omega (arith, le, l)) (q ∙ at)))
      ∙ ap (λ j. view b f n ++ set_entry p e b j ∷ []) (sym at)
      ∙ ap (λ x. view b f n ++ x ∷ []) (set_entry_same b p e)

  replaced :
      (b : ℕ → LogEntry) (f n p : ℕ) (e : LogEntry)
      → suc n ≡ size
      → p ≡ (f + size) % size
      → view (set_entry p e b) ((f + 1) % size) (suc n) ≡ behind_first (view b f (suc n)) ++ e ∷ []
  unfolding view
  replaced b f n p e full at =
      view-same (set_entry p e b) ((f + 1) % size) (suc f) (suc n)
        (mod-mod (f + 1) size ∙ ap (λ x. x % size) (omega arith))
      ∙ added b (suc f) n p e (omega (arith, full)) (at ∙ ap (λ x. x % size) (omega (arith, full)))

  pub length-Shows :
      (b : ℕ → LogEntry) (r : LogRing) (q : List LogEntry)
      → Shows b r q
      → length q ≡ r.ringbuf_count
  length-Shows b r q s = sym (ap length s.shows) ∙ length-view b r.first_entry r.ringbuf_count

  stays :
      (r : LogRing)
      → r.first_entry < size
      → r.ringbuf_count < size
      → moved_first size r ≡ r.first_entry
  stays r lf lc =
      let f = r.first_entry in
      let c = r.ringbuf_count in
      let next : ℕ = (f + c) % size in
      if-elim (λ x. x ≡ f) (ltb 0 c && (f == next)) _ _
        (λ h. absurd (
          apart f (f + c) (ground (arith, h)) (omega (arith, lc))
            (mod-eq_of_lt lf ∙ ground (arith, h))))
        (λ _. refl)

  moves :
      (r : LogRing)
      → r.first_entry < size
      → r.ringbuf_count ≡ size
      → moved_first size r ≡ (r.first_entry + 1) % size
  moves r lf full =
      let f = r.first_entry in
      let c = r.ringbuf_count in
      let next : ℕ = (f + c) % size in
      let same : next ≡ f =
        ap (λ x. (f + x) % size) full ∙ add-mod_right f size ∙ mod-eq_of_lt lf in
      if-elim (λ x. x ≡ (f + 1) % size) (ltb 0 c && (f == next)) _ _ (λ _. refl)
        (λ h. absurd (ground (arith, h, same, lf, full)))

  -- A message that is entered is the last one of the list.
  pub enter-Shows :
      (b : ℕ → LogEntry) (r : LogRing) (q : List LogEntry) (level : ℤ) (t : ℕ) (text : List ℕ)
      → Shows b r q
      → let e : LogEntry = record { level = level; t = t; message = cut text } in
        Shows (set_entry (next_entry size r) e b) (enter size level t (some text) b r) (push e q)
  enter-Shows b r q level t text s =
      let e : LogEntry = record { level = level; t = t; message = cut text } in
      let f = r.first_entry in
      let c = r.ringbuf_count in
      let p = next_entry size r in
      let positive : 0 < size = omega (arith, s.first) in
      let tested : ltb (length q) size ≡ ltb c size = ap (λ n. ltb n size) (length-Shows b r q s) in
      let pushed = λ (x : Bool). (if x then q else behind_first q) ++ e ∷ [] in
      if-elim
        (λ (x : ℕ).
          ltb c size ≡ ltb c size
          → Shows (set_entry p e b)
              (record (enter size level t (some text) b r) { ringbuf_count = x }) (push e q))
        (ltb c size) (c + 1) c
        (λ room _.
          let less : c < size = ground (arith, room) in
          record {
            first = subst (λ x. x < size) (sym (stays r s.first less)) s.first;
            bound = omega (arith, less);
            shows =
                ap (λ x. view (set_entry p e b) x (c + 1)) (stays r s.first less)
                ∙ ap (view (set_entry p e b) f) (omega arith)
                ∙ added b f c p e less refl
                ∙ ap (λ v. v ++ e ∷ []) s.shows
                ∙ ap pushed (sym (tested ∙ room));
          })
        (λ none_left _.
          let full : c ≡ size = ground (arith, none_left, s.bound) in
          let n = c - 1 in
          let counted : c ≡ suc n = omega (arith, full, positive) in
          record {
            first = subst (λ x. x < size) (sym (moves r s.first full)) (mod-lt (f + 1) positive);
            bound = s.bound;
            shows =
                ap (λ x. view (set_entry p e b) x c) (moves r s.first full)
                ∙ ap (view (set_entry p e b) ((f + 1) % size)) counted
                ∙ replaced b f n p e (sym counted ∙ full) (ap (λ x. (f + x) % size) full)
                ∙ ap (λ x. behind_first (view b f x) ++ e ∷ []) (sym counted)
                ∙ ap (λ v. behind_first v ++ e ∷ []) s.shows
                ∙ ap pushed (sym (tested ∙ none_left));
          })
        refl
