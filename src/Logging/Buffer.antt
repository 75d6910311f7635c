-- ===== src/Logging/Buffer.antt =====
-- common/ctdb_logging.c: log_ringbuffer_v, ctdb_collect_log and ctdb_clear_log. Memory is always had.
use ctdb.Base.{
  ℕ, zero, suc, ◌+◌, ◌%◌, Bool, true, false, not, ◌&&◌, none, some, Option, List, [], ◌∷◌, ◌++◌,
  ◌==◌, ltb, leb, length, take, if◌then◌else◌,
}

-- The integers, as the library has them.
pub data ℤ : Type 0 where
  pos negsuc : ℕ → ℤ

abbrev pub ltb_ℤ : ℤ → ℤ → Bool
ltb_ℤ (pos m) (pos n) = ltb m n
ltb_ℤ (pos m) (negsuc n) = false
ltb_ℤ (negsuc m) (pos n) = true
ltb_ℤ (negsuc m) (negsuc n) = ltb n m

-- DEBUG_ERR
abbrev pub debug_err : ℤ
debug_err = pos 0

-- `struct ctdb_log_entry`; the message ends before its first zero byte.
pub record LogEntry : Type 0 where
  pub level : ℤ
  pub t : ℕ
  pub message : List ℕ

-- The static variables of the file. The entries are a function on the indices below `log_ringbuf_size`.
pub record LogRing : Type 0 where
  pub log_entries : Option (ℕ → LogEntry)
  pub first_entry : ℕ
  pub ringbuf_count : ℕ

abbrev pub set_entry : ℕ → LogEntry → (ℕ → LogEntry) → ℕ → LogEntry
set_entry k e b j = if j == k then e else b j

-- MAX_LOG_SIZE is 128: a longer text is cut, and ends in a newline.
abbrev pub cut : List ℕ → List ℕ
cut text = if leb 128 (length text) then take 126 text ++ 10 ∷ [] else text

abbrev pub is_blank : List ℕ → Bool
is_blank [] = true
is_blank (c ∷ cs) = false

module _ (log_ringbuf_size : ℕ) where
  abbrev pub next_entry : LogRing → ℕ
  next_entry r = (r.first_entry + r.ringbuf_count) % log_ringbuf_size

  abbrev pub moved_first : LogRing → ℕ
  moved_first r =
      if ltb 0 r.ringbuf_count && (r.first_entry == next_entry r)
      then (r.first_entry + 1) % log_ringbuf_size
      else r.first_entry

  -- A text that `vsnprintf` cannot make, and one that it makes.
  abbrev pub enter : (level : ℤ) (t : ℕ) → Option (List ℕ) → (ℕ → LogEntry) → LogRing → LogRing
  enter level t none b r = record r {
    log_entries = some (set_entry (next_entry r) (record (b (next_entry r)) { message = [] }) b);
    first_entry = moved_first r;
  }
  enter level t (some text) b r = record {
    log_entries =
        some (set_entry (next_entry r) (record { level = level; t = t; message = cut text }) b);
    first_entry = moved_first r;
    ringbuf_count =
        if ltb r.ringbuf_count log_ringbuf_size then r.ringbuf_count + 1 else r.ringbuf_count;
  }

  -- `fresh` is what the memory that is allocated holds.
  abbrev pub allocated : (fresh : ℕ → LogEntry) → Option (ℕ → LogEntry) → Option (ℕ → LogEntry)
  allocated fresh none = if not (log_ringbuf_size == 0) then some fresh else none
  allocated fresh (some b) = some b

  abbrev pub enter_at :
      (level : ℤ) (t : ℕ) → Option (List ℕ) → Option (ℕ → LogEntry) → LogRing → LogRing
  enter_at level t text none r = r
  enter_at level t text (some b) r = enter level t text b r

  unfoldable pub log_ringbuffer_v :
      (fresh : ℕ → LogEntry) (level : ℤ) (t : ℕ) → Option (List ℕ) → LogRing → LogRing
  log_ringbuffer_v fresh level t text r = enter_at level t text (allocated fresh r.log_entries) r

  -- The entries that the loop prints, from the i-th on.
  unfoldable pub collect :
      (b : ℕ → LogEntry) (first_entry : ℕ) (level : ℤ) (i : ℕ) → ℕ → List LogEntry
  collect b first_entry level i zero = []
  collect b first_entry level i (suc n) =
      let e = b ((first_entry + i) % log_ringbuf_size) in
      let rest = collect b first_entry level (suc i) n in
      if ltb_ℤ level e.level then rest else if is_blank e.message then rest else e ∷ rest

  abbrev pub collect_at : (level : ℤ) → Option (ℕ → LogEntry) → LogRing → List LogEntry
  collect_at level none r = []
  collect_at level (some b) r = collect b r.first_entry level 0 r.ringbuf_count

  -- The function first logs the number of entries at the level DEBUG_ERR, which enters a message of its own; `text` is
  -- what the format makes of that number, and t is the time.
  unfoldable pub ctdb_collect_log :
      (fresh : ℕ → LogEntry) (t : ℕ) (text : ℕ → List ℕ) (level : ℤ) → LogRing → List LogEntry
  unfolding collect log_ringbuffer_v
  ctdb_collect_log fresh t text level r =
      let s = log_ringbuffer_v fresh debug_err t (some (text r.ringbuf_count)) r in
      collect_at level s.log_entries s

unfoldable pub ctdb_clear_log : LogRing → LogRing
ctdb_clear_log r = record r { first_entry = 0; ringbuf_count = 0 }
