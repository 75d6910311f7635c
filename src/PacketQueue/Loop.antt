-- ===== src/PacketQueue/Loop.antt =====
-- The event loop around the input side of common/ctdb_io.c: immediate events run before the socket is
-- read again, and the loop ends when nothing is left to do.
use Prim.Native.Nat.{min}
use ctdb.Base.{
  ℕ, zero, suc, ◌+◌, ◌-◌, ◌*◌, ◌≤◌, ◌<◌, ◌≡◌, refl, sym, ◌∙◌, ap, ◌⊎◌, inl, inr, arith, Bool, true,
  false, not, List, [], ◌∷◌, ◌++◌, ◌==◌, ltb, if◌then◌else◌, All, length, take, drop, concat, map,
  Bool-cases, if-elim, length-append, length-drop, length-take_le,
}
use mathlib.Core.List.{append-nil}
use ctdb.PacketQueue.Word.{load32}
use ctdb.PacketQueue.Input.{
  queue_buffer_size, Callback, Input, call, keep_rest, extract, queue_process, queue_process_event,
  prepare, Read, queue_io_read,
}
use ctdb.PacketQueue.Frames.{IsPacket, first_packet}
use ctdb.PacketQueue.Reading.{Reads, Incomplete, Awake, Processed, queue_process-Processed}
use ctdb.PacketQueue.Socket.{queue_io_read-Processed, queue_io_read-progress}

abbrev pub fresh : Input
fresh = record {
  contents = [];
  allocated = false;
  size = 0;
  extend = 0;
  scheduled = false;
  calls = [];
}

-- How many bytes are ready and how many a read gives is up to the socket: one at least, and what is there
-- at most.
module _ (ready given : ℕ → ℕ) where
  abbrev read_some : ℕ → Input → List ℕ → Read
  read_some i q unread =
      queue_io_read (min (suc (ready i)) (length unread)) (suc (given i)) q unread

  unfoldable pub event_loop : ℕ → Input → List ℕ → Read
  event_loop zero q unread = record { queue = q; unread = unread }
  event_loop (suc fuel) q unread = elim q.scheduled [
    | true ↦ event_loop fuel (queue_process_event q) unread
    | false ↦ elim unread [
      | [] ↦ record { queue = q; unread = [] }
      | b ∷ bs ↦
          event_loop fuel (read_some fuel q (b ∷ bs)).queue (read_some fuel q (b ∷ bs)).unread
    ]
  ]

abbrev pending : Bool → ℕ
pending b = if b then 1 else 0

-- What is left to do: every byte is read and handed over once, and an event may be pending.
work : Input → List ℕ → ℕ
work q unread = 4 * length unread + 2 * length q.contents + pending q.scheduled

extract-contents : (k : ℕ) (q : Input) → (extract k q).contents ≡ drop k q.contents
unfolding extract keep_rest call
extract-contents k q =
    let rest = drop k q.contents in
    if-elim (λ (m : Input). m.contents ≡ rest) (ltb 0 (length rest)) _ _ (λ h. refl)
      (λ h.
        if-elim (λ (m : Input). m.contents ≡ rest) (ltb queue_buffer_size q.size) _ _ (λ h. refl)
          (λ h. refl))

-- Processing leaves the bytes alone and schedules nothing, or takes a packet out.
process-shrinks :
    (q : Input)
    → (((queue_process q).scheduled ≡ q.scheduled) × ((queue_process q).contents ≡ q.contents))
      ⊎ (length (queue_process q).contents < length q.contents)
unfolding queue_process call
process-shrinks q =
    let k = load32 q.contents in
    let P : Input → Type 0 = λ m.
      ((m.scheduled ≡ q.scheduled) × (m.contents ≡ q.contents))
      ⊎ (length m.contents < length q.contents) in
    if-elim P (ltb (length q.contents) 4) _ _ (λ few. inl (refl, refl))
      (λ four.
        if-elim P (k == 0) _ _ (λ zero. inl (refl, refl))
          (λ nonzero.
            if-elim P (ltb (length q.contents) k) _ _
              (λ part.
                if-elim P (ltb queue_buffer_size k) _ _ (λ h. inl (refl, refl))
                  (λ h. inl (refl, refl)))
              (λ whole. inr (
                ground (
                  arith,
                  four,
                  nonzero,
                  ap length (extract-contents k q),
                  length-drop k q.contents,
                )))))

pending_le : (b : Bool) → pending b ≤ 1
pending_le true = omega arith
pending_le false = omega arith

event-work :
    (q : Input) (unread : List ℕ)
    → q.scheduled ≡ true
    → work (queue_process_event q) unread < work q unread
unfolding work queue_process_event
event-work q unread h =
    let p : Input = record q { scheduled = false } in
    let b = pending_le (queue_process p).scheduled in
    let on : pending q.scheduled ≡ 1 = ap pending h in
    elim (process-shrinks p) [
      | inl (s, c) ↦
          let off : pending (queue_process p).scheduled ≡ 0 = ap pending s in
          let len : length (queue_process p).contents ≡ length q.contents = ap length c in
          omega arith
      | inr less ↦ omega arith
    ]

event-Processed :
    (sent left : List (List ℕ)) (q : Input) (unread : List ℕ)
    → Reads sent left q unread
    → Processed sent (queue_process_event q) unread
unfolding queue_process_event
event-Processed sent left q unread r =
    queue_process-Processed sent left (record q { scheduled = false }) unread
      (record {
        handed = r.handed;
        calls = r.calls;
        all = r.all;
        bytes = r.bytes;
        left-IsPacket = r.left-IsPacket;
        fits = r.fits;
        enough = r.enough;
        none = r.none;
        extends = r.extends;
      })

-- The bytes that are not handed over yet, in the buffer and in the socket.
Reads-bytes :
    (sent left : List (List ℕ)) (q : Input) (unread : List ℕ)
    → Reads sent left q unread
    → length q.contents + length unread ≡ length (concat left)
Reads-bytes sent left q unread r =
    let b = r.bytes in omega (arith, ap length b, length-append q.contents unread)

-- When nothing is pending and the socket is empty, everything is handed over.
all-handed :
    (sent left : List (List ℕ)) (q : Input)
    → Reads sent left q []
    → Incomplete q
    → q.calls ≡ map Callback.packet sent
all-handed sent [] q r i = r.calls ∙ ap (map Callback.packet) (sym (append-nil r.handed) ∙ r.all)
all-handed sent (p ∷ left) q r i =
    let bytes = Reads-bytes sent (p ∷ left) q [] r in
    let w = r.left-IsPacket in
    let four = w.0.1 in
    let len = length-append p (concat left) in
    let f = first_packet q.contents [] (p ∷ left) r.bytes w (omega arith) in
    let size = f.size in
    let head : f.first ≡ p = let e = f.left_lem in cc in
    let l : length f.first ≡ length p = ap length head in
    elim i [ inl few ↦ absurd (omega arith) | inr (part, long) ↦ absurd (omega arith) ]

process-contents_le : (q : Input) → length (queue_process q).contents ≤ length q.contents
process-contents_le q = elim (process-shrinks q) [
  | inl (s, c) ↦ omega (arith, ap length c)
  | inr less ↦ omega arith
]

prepare-contents : (q : Input) → (prepare q).contents ≡ q.contents
unfolding prepare
prepare-contents q =
    if-elim (λ (p : Input). p.contents ≡ q.contents) (not q.allocated) _ _ (λ h. refl)
      (λ h.
        if-elim (λ (p : Input). p.contents ≡ q.contents) (ltb 0 q.extend) _ _ (λ k. refl)
          (λ k. refl))

-- A read makes no bytes.
read-bytes :
    (num_ready nread : ℕ) (q : Input) (unread : List ℕ)
    → num_ready ≤ length unread
    → length (queue_io_read num_ready nread q unread).queue.contents
        + length (queue_io_read num_ready nread q unread).unread
      ≤ length q.contents + length unread
unfolding queue_io_read call
read-bytes num_ready nread q unread ready =
    let p = prepare q in
    let same : length p.contents ≡ length q.contents = ap length (prepare-contents q) in
    let count = min num_ready (p.size - length p.contents) in
    let got = min nread count in
    let more : Input = record p { contents = p.contents ++ take got unread } in
    let P : Read → Type 0 =
      λ x. length x.queue.contents + length x.unread ≤ length q.contents + length unread in
    if-elim P (num_ready == 0) _ _ (λ none. omega arith)
      (λ ok.
        if-elim P (count == 0) _ _ (λ full. omega (arith, process-contents_le p))
          (λ room.
            if-elim P (got == 0) _ _ (λ fail. omega arith)
              (λ taken. omega (
                arith,
                process-contents_le more,
                length-append p.contents (take got unread),
                length-take_le got unread (omega arith),
                length-drop got unread,
              ))))

module _ (ready given : ℕ → ℕ) where
  read-work :
      (sent left : List (List ℕ)) (i : ℕ) (q : Input) (b : ℕ) (bs : List ℕ)
      → Reads sent left q (b ∷ bs)
      → Incomplete q
      → q.scheduled ≡ false
      → work (read_some ready given i q (b ∷ bs)).queue (read_some ready given i q (b ∷ bs)).unread
        < work q (b ∷ bs)
  unfolding work
  read-work sent left i q b bs r inc off =
      let unread = b ∷ bs in
      let n = min (suc (ready i)) (length unread) in
      let x = queue_io_read n (suc (given i)) q unread in
      let one = pending_le x.queue.scheduled in
      omega (
        arith,
        read-bytes n (suc (given i)) q unread (omega arith),
        queue_io_read-progress sent left n (suc (given i)) q unread r inc (omega arith)
            (omega arith) (omega arith),
      )

  -- Whatever the socket makes of the stream, the loop hands over all packets.
  event_loop-hands_over :
      (sent left : List (List ℕ)) (fuel : ℕ) (q : Input) (unread : List ℕ)
      → Reads sent left q unread
      → Awake q
      → work q unread < fuel
      → (event_loop ready given fuel q unread).queue.calls ≡ map Callback.packet sent
  unfolding event_loop
  event_loop-hands_over sent left zero q unread r a h = absurd (omega arith)
  event_loop-hands_over sent left (suc fuel) q [] r a h = elim (Bool-cases q.scheduled) [
    | inl on ↦
        let (left', r', a') = event-Processed sent left q [] r in
        rw (on, event_loop)
          (event_loop-hands_over sent left' fuel (queue_process_event q) [] r' a'
            (let w = event-work q [] on in omega arith))
    | inr off ↦ rw (off, event_loop) (all-handed sent left q r (a off))
  ]
  event_loop-hands_over sent left (suc fuel) q (b ∷ bs) r a h = elim (Bool-cases q.scheduled) [
    | inl on ↦
        let (left', r', a') = event-Processed sent left q (b ∷ bs) r in
        rw (on, event_loop)
          (event_loop-hands_over sent left' fuel (queue_process_event q) (b ∷ bs) r' a'
            (let w = event-work q (b ∷ bs) on in omega arith))
    | inr off ↦
        let unread = b ∷ bs in
        let n = min (suc (ready fuel)) (length unread) in
        let x = read_some ready given fuel q unread in
        let (left', r', a') =
          queue_io_read-Processed sent left n (suc (given fuel)) q unread r (omega arith)
            (omega arith) (omega arith) in
        let w = read-work sent left fuel q b bs r (a off) off in
        rw (off, event_loop)
          (event_loop-hands_over sent left' fuel x.queue x.unread r' a' (omega arith))
  ]

  fresh-Reads : (sent : List (List ℕ)) → All IsPacket sent → Reads sent sent fresh (concat sent)
  fresh-Reads sent a = record {
    handed = [];
    calls = refl;
    all = refl;
    bytes = refl;
    left-IsPacket = a;
    fits = omega arith;
    enough = λ h. cc;
    none = λ h. refl;
    extends = λ h. absurd (omega arith);
  }

  -- A stream of packets, each with its length in front, is handed over packet for packet and in order,
  -- whatever numbers of bytes are ready and are read at a time, in four steps for a byte of the stream.
  pub event_loop-receives :
      (sent : List (List ℕ)) (fuel : ℕ)
      → All IsPacket sent
      → 4 * length (concat sent) < fuel
      → (event_loop ready given fuel fresh (concat sent)).queue.calls ≡ map Callback.packet sent
  unfolding work
  event_loop-receives sent fuel a h =
      event_loop-hands_over sent sent fuel fresh (concat sent) (fresh-Reads sent a)
        (λ s. inl (omega arith)) (unfold work in omega arith)
