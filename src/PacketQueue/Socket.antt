-- ===== src/PacketQueue/Socket.antt =====
-- common/ctdb_io.c: reads from the socket lose no byte, and go on until all packets are handed over.
use Prim.Native.Nat.{min}
use ctdb.Base.{
  ℕ, ◌-◌, ◌≤◌, ◌<◌, ◌≡◌, refl, ◌∙◌, ap, subst, ◌⊎◌, inl, inr, arith, true, false, not, List, ◌++◌,
  ◌==◌, ltb, length, take, drop, Bool-cases, if-elim, length-append, length-drop, length-take_le,
  take-append-drop,
}
use mathlib.Core.List.{append_assoc, append-nil}
use ctdb.PacketQueue.Word.{load32}
use ctdb.PacketQueue.Input.{queue_buffer_size, Input, prepare, Read, queue_io_read}
use ctdb.PacketQueue.Reading.{Reads, Incomplete, Processed, queue_process-Processed}

-- A queue that is ready to read has a buffer, and room in it that no later extension takes away.
pub record Prepared (q p : Input) : Type 0 where
  pub contents : p.contents ≡ q.contents
  pub calls : p.calls ≡ q.calls
  pub allocated : p.allocated ≡ true
  pub enough : queue_buffer_size ≤ p.size
  pub fits : length p.contents ≤ p.size
  pub extend : 0 < p.extend → p.size < p.extend
  pub long : 0 < p.extend → queue_buffer_size < p.extend
  pub room :
      (q.allocated ≡ false)
      ⊎ ((0 < q.extend → p.size ≡ q.extend) × (q.extend ≡ 0 → p.size ≡ q.size))

prepare-Prepared :
    (sent left : List (List ℕ)) (q : Input) (unread : List ℕ)
    → Reads sent left q unread
    → Prepared q (prepare q)
unfolding prepare
prepare-Prepared sent left q unread r =
    if-elim (λ p. Prepared q p) (not q.allocated) _ _
      (λ fresh.
        let off : q.allocated ≡ false = ground (arith, fresh) in
        let none = r.none off in
        let fits = r.fits in
        record {
          contents = refl;
          calls = refl;
          allocated = refl;
          enough = omega arith;
          fits = omega arith;
          extend = λ h. (r.extends h).1;
          long = λ h. (r.extends h).1;
          room = inl off;
        })
      (λ old.
        let on : q.allocated ≡ true = ground (arith, old) in
        let enough = r.enough on in
        if-elim (λ p. Prepared q p) (ltb 0 q.extend) _ _
          (λ some.
            let (x, y) = r.extends (ground arith) in
            record {
              contents = refl;
              calls = refl;
              allocated = on;
              enough = omega arith;
              fits = omega arith;
              extend = λ h. absurd (omega arith);
              long = λ h. absurd (omega arith);
              room = inr (λ h. refl, λ h. absurd (ground arith));
            })
          (λ zero. record {
            contents = refl;
            calls = refl;
            allocated = on;
            enough = enough;
            fits = r.fits;
            extend = λ h. absurd (ground arith);
            long = λ h. absurd (ground arith);
            room = inr (λ h. absurd (ground arith), λ h. refl);
          }))

-- The queue with `got` more bytes of the socket.
abbrev filled : ℕ → Input → List ℕ → Input
filled got p unread = record p { contents = p.contents ++ take got unread }

filled-Reads :
    (sent left : List (List ℕ)) (q p : Input) (unread : List ℕ) (got : ℕ)
    → Reads sent left q unread
    → Prepared q p
    → got ≤ length unread
    → got ≤ p.size - length p.contents
    → Reads sent left (filled got p unread) (drop got unread)
filled-Reads sent left q p unread got r w h k =
    let len = length-append p.contents (take got unread) in
    let len' = length-take_le got unread h in
    let enough = w.enough in
    let fits = w.fits in
    record {
      handed = r.handed;
      calls = w.calls ∙ r.calls;
      all = r.all;
      bytes =
          append_assoc p.contents (take got unread) (drop got unread)
          ∙ ap (λ (l : List ℕ). p.contents ++ l) (take-append-drop got unread)
          ∙ ap (λ (l : List ℕ). l ++ unread) w.contents
          ∙ r.bytes;
      left-IsPacket = r.left-IsPacket;
      fits = omega arith;
      enough = λ a. enough;
      none = λ a. let b = w.allocated in cc;
      extends = λ e. let x = w.extend e in let y = w.long e in (omega arith, y);
    }

Prepared-Reads :
    (sent left : List (List ℕ)) (q p : Input) (unread : List ℕ)
    → Reads sent left q unread
    → Prepared q p
    → Reads sent left p unread
Prepared-Reads sent left q p unread r w =
    subst (λ (l : List ℕ). Reads sent left (record p { contents = l }) unread)
      (append-nil p.contents) (filled-Reads sent left q p unread 0 r w (omega arith) (omega arith))

-- A read gives the bytes that it takes from the socket to the queue, and what is whole is handed over.
pub queue_io_read-Processed :
    (sent left : List (List ℕ)) (num_ready nread : ℕ) (q : Input) (unread : List ℕ)
    → Reads sent left q unread
    → 0 < num_ready
    → num_ready ≤ length unread
    → 0 < nread
    → Processed sent
        (queue_io_read num_ready nread q unread).queue
        (queue_io_read num_ready nread q unread).unread
unfolding queue_io_read
queue_io_read-Processed sent left num_ready nread q unread r some ready pos =
    let p = prepare q in
    let w : Prepared q p = prepare-Prepared sent left q unread r in
    let count = min num_ready (p.size - length p.contents) in
    let got = min nread count in
    if-elim (λ (x : Read). Processed sent x.queue x.unread) (num_ready == 0) _ _
      (λ none. absurd (ground arith))
      (λ ok.
        if-elim (λ (x : Read). Processed sent x.queue x.unread) (count == 0) _ _
          (λ full.
            queue_process-Processed sent left p unread (Prepared-Reads sent left q p unread r w))
          (λ room.
            if-elim (λ (x : Read). Processed sent x.queue x.unread) (got == 0) _ _
              (λ fail. absurd (ground arith))
              (λ more.
                queue_process-Processed sent left (filled got p unread) (drop got unread)
                  (filled-Reads sent left q p unread got r w (omega arith) (omega arith)))))

-- The buffer has room whenever no event is pending.
has_room :
    (sent left : List (List ℕ)) (q p : Input) (unread : List ℕ)
    → Reads sent left q unread
    → Prepared q p
    → Incomplete q
    → length p.contents < p.size
has_room sent left q p unread r w (inl few) =
    let enough = w.enough in
    let len : length p.contents ≡ length q.contents = ap length w.contents in omega arith
has_room sent left q p unread r w (inr (part, long)) =
    let enough = w.enough in
    let fits = r.fits in
    let len : length p.contents ≡ length q.contents = ap length w.contents in
    elim w.room [
      | inl off ↦ let none = r.none off in omega arith
      | inr (ext, same) ↦ elim (Bool-cases (ltb queue_buffer_size (load32 q.contents))) [
        | inl big ↦
            let e = long (ground (arith, big)) in
            let size = ext (ground (arith, big, e)) in omega arith
        | inr small ↦ ground (arith, small)
      ]
    ]

-- So a read takes a byte at least, and the stream ends.
pub queue_io_read-progress :
    (sent left : List (List ℕ)) (num_ready nread : ℕ) (q : Input) (unread : List ℕ)
    → Reads sent left q unread
    → Incomplete q
    → 0 < num_ready
    → num_ready ≤ length unread
    → 0 < nread
    → length (queue_io_read num_ready nread q unread).unread < length unread
unfolding queue_io_read
queue_io_read-progress sent left num_ready nread q unread r i some ready pos =
    let p = prepare q in
    let w : Prepared q p = prepare-Prepared sent left q unread r in
    let room = has_room sent left q p unread r w i in
    let count = min num_ready (p.size - length p.contents) in
    let got = min nread count in
    if-elim (λ (x : Read). length x.unread < length unread) (num_ready == 0) _ _
      (λ none. absurd (ground arith))
      (λ ok.
        if-elim (λ (x : Read). length x.unread < length unread) (count == 0) _ _
          (λ full. absurd (ground (arith, full)))
          (λ more.
            if-elim (λ (x : Read). length x.unread < length unread) (got == 0) _ _
              (λ fail. absurd (ground (arith, fail)))
              (λ taken. omega (arith, length-drop got unread))))
