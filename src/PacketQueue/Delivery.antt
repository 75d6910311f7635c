-- ===== src/PacketQueue/Delivery.antt =====
-- common/ctdb_io.c on both sides of a connection: what one node sends is what the other is handed.
use ctdb.Base.{
  ℕ, ◌+◌, ◌-◌, ◌*◌, ◌≤◌, ◌<◌, ◌≡◌, refl, sym, ◌∙◌, ap, subst, arith, true, not, ◌&&◌, List, [], ◌∷◌,
  ◌++◌, ◌==◌, All, length, take, drop, replicate, concat, map, if-elim, length-append,
  take-append-drop, concat-append, length-replicate, u32_mod,
}
use mathlib.Core.List.{append_assoc, append-nil, map-append}
use native.Mathlib.Nat.{div-mul-le_self, lt-div-mul-add}
use ctdb.PacketQueue.Word.{store32, load32-append, load32-store32, length-store32}
use ctdb.PacketQueue.Input.{Callback}
use ctdb.PacketQueue.Output.{
  Write, wrote, again, failed, Pkt, Output, align, padded, no_packet, enqueue, sent, write_now,
  ctdb_queue_send, dequeue, write_packets, queue_io_write, ctdb_queue_set_fd,
}
use ctdb.PacketQueue.Frames.{IsPacket}
use ctdb.PacketQueue.Sending.{take-length, no_bytes, no_packet_lem}
use ctdb.PacketQueue.Outbound.{unconnected}
use ctdb.PacketQueue.Loop.{fresh, event_loop, event_loop-receives}

-- The alignment leaves a length as it is or makes it longer, by less than the alignment.
pub align-bounds :
    (alignment n : ℕ)
    → 0 < alignment
    → (n ≤ align alignment n) × (align alignment n < n + alignment)
unfolding align
align-bounds alignment n h =
    let m = n + (alignment - 1) in
    let below = lt-div-mul-add {a = m} h in
    let above = div-mul-le_self m alignment in (omega arith, omega arith)

-- With an alignment every packet that is sent has its own length in front.
pub padded-IsPacket :
    (alignment : ℕ) (bytes : List ℕ)
    → 0 < alignment
    → 4 ≤ length bytes
    → align alignment (length bytes) < u32_mod
    → IsPacket (padded alignment bytes)
unfolding padded
padded-IsPacket alignment bytes h four small =
    let n = align alignment (length bytes) in
    let zeros : List ℕ = replicate (n - length bytes) 0 in
    let count : length zeros ≡ n - length bytes = length-replicate (n - length bytes) 0 in
    let whole : length (store32 n bytes ++ zeros) ≡ n = omega (
      arith,
      length-append (store32 n bytes) zeros,
      count,
      length-store32 n bytes,
      align-bounds alignment (length bytes) h,
    ) in
    if-elim IsPacket (alignment == 0) _ _ (λ none. absurd (ground (arith, none)))
      (λ some. (
        load32-append (store32 n bytes) zeros (omega (arith, length-store32 n bytes))
            ∙ load32-store32 n bytes small four
            ∙ sym whole,
        omega (arith, whole, align-bounds alignment (length bytes) h),
      ))

-- The bytes that wait.
unfoldable waiting : List Pkt → List ℕ
waiting [] = []
waiting (p ∷ ps) = p.bytes ++ waiting ps

-- The bytes that went out and the bytes that are to go out.
abbrev stream : Output → List ℕ
stream q = q.wire ++ waiting q.out_queue

abbrev pub IsFine : Write → Type 0
IsFine (wrote n) = Unit
IsFine again = Unit
IsFine failed = ⊥

waiting-append : (ps qs : List Pkt) → waiting (ps ++ qs) ≡ waiting ps ++ waiting qs
unfolding waiting
waiting-append [] qs = refl
waiting-append (p ∷ ps) qs =
    ap (◌++◌ p.bytes) (waiting-append ps qs) ∙ sym (append_assoc p.bytes (waiting ps) (waiting qs))

enqueue-stream : (p : Pkt) (q : Output) → stream (enqueue p q) ≡ stream q ++ p.bytes
unfolding waiting enqueue
enqueue-stream p q =
    ap (◌++◌ q.wire)
      (waiting-append q.out_queue (p ∷ []) ∙ ap (◌++◌ (waiting q.out_queue)) (append-nil p.bytes))
    ∙ sym (append_assoc q.wire (waiting q.out_queue) p.bytes)

write_now-stream :
    (out : List ℕ) (w : Write) (q : Output)
    → IsFine w
    → q.out_queue ≡ []
    → stream (write_now out w q) ≡ stream q ++ out
unfolding write_now waiting
write_now-stream out failed q f e = elim f [ ]
write_now-stream out again q f e =
    enqueue-stream (record { bytes = out; full_length = length out }) q
write_now-stream out (wrote n) q f e =
    let empty : waiting q.out_queue ≡ [] = ap waiting e in
    let bare : stream q ≡ q.wire = ap (◌++◌ q.wire) empty ∙ append-nil q.wire in
    let whole : (q.wire ++ take n out) ++ drop n out ≡ stream q ++ out =
      append_assoc q.wire (take n out) (drop n out)
      ∙ ap (◌++◌ q.wire) (take-append-drop n out)
      ∙ ap (λ x. x ++ out) (sym bare) in
    let now : stream (sent (take n out) q) ≡ q.wire ++ take n out =
      ap (◌++◌ (q.wire ++ take n out)) empty ∙ append-nil (q.wire ++ take n out) in
    if-elim (λ (m : Output). stream m ≡ stream q ++ out) (length (drop n out) == 0) _ _
      (λ all.
        now
        ∙ sym (append-nil (q.wire ++ take n out))
        ∙ ap (◌++◌ (q.wire ++ take n out)) (sym (no_bytes (drop n out) (ground (arith, all))))
        ∙ whole)
      (λ part.
        enqueue-stream (record { bytes = drop n out; full_length = length out })
          (sent (take n out) q)
        ∙ ap (λ x. x ++ drop n out) now
        ∙ whole)

queue_send-stream :
    (alignment : ℕ) (bytes : List ℕ) (w : Write) (q : Output)
    → IsFine w
    → stream (ctdb_queue_send alignment bytes w q) ≡ stream q ++ padded alignment bytes
unfolding ctdb_queue_send
queue_send-stream alignment bytes w q f =
    let out = padded alignment bytes in
    if-elim (λ (m : Output). stream m ≡ stream q ++ out) (no_packet q.out_queue && q.connected) _ _
      (λ now. write_now-stream out w q f (no_packet_lem q.out_queue (ground (arith, now))))
      (λ later. enqueue-stream (record { bytes = out; full_length = length out }) q)

write_packets-stream :
    (ps : List Pkt) (ws : List Write) (q : Output)
    → All IsFine ws
    → q.out_queue ≡ ps
    → stream (write_packets ps ws q) ≡ q.wire ++ waiting ps
unfolding write_packets waiting
write_packets-stream [] ws q f e = ap (λ x. q.wire ++ waiting x) e
write_packets-stream (p ∷ ps) [] q f e = ap (λ x. q.wire ++ waiting x) e
write_packets-stream (p ∷ ps) (failed ∷ ws) q f e = elim f.0 [ ]
write_packets-stream (p ∷ ps) (again ∷ ws) q f e = ap (λ x. q.wire ++ waiting x) e
write_packets-stream (p ∷ ps) (wrote n ∷ ws) q f e =
    let P : Output → Type 0 = λ m. stream m ≡ q.wire ++ (p.bytes ++ waiting ps) in
    let more = sent (take n p.bytes) q in
    if-elim P (n == 0) q _ (λ none. ap (λ x. q.wire ++ waiting x) e)
      (λ some.
        if-elim P (not (n == length p.bytes)) _ _
          (λ part.
            append_assoc q.wire (take n p.bytes) (drop n p.bytes ++ waiting ps)
            ∙ ap (◌++◌ q.wire) (
                sym (append_assoc (take n p.bytes) (drop n p.bytes) (waiting ps))
                ∙ ap (λ x. x ++ waiting ps) (take-append-drop n p.bytes)))
          (λ all.
            let l : n ≡ length p.bytes = ground (arith, all) in
            write_packets-stream ps ws (dequeue ps more) f.1 refl
            ∙ append_assoc q.wire (take n p.bytes) (waiting ps)
            ∙ ap (λ x. q.wire ++ (x ++ waiting ps))
                (ap (λ k. take k p.bytes) l ∙ take-length p.bytes)))

-- A connection on which packets are sent, in order, and no write fails.
pub data Sends (alignment : ℕ) : List (List ℕ) → Output → Type 0 where
  opened : Sends alignment [] (ctdb_queue_set_fd true unconnected)
  send :
      {ps : List (List ℕ)} {q : Output} (bytes : List ℕ) (w : Write)
      → IsFine w
      → Sends alignment ps q
      → Sends alignment (ps ++ bytes ∷ []) (ctdb_queue_send alignment bytes w q)
  ready :
      {ps : List (List ℕ)} {q : Output} (ws : List Write)
      → All IsFine ws
      → Sends alignment ps q
      → Sends alignment ps (queue_io_write ws q)

Sends-stream :
    (alignment : ℕ) {ps : List (List ℕ)} {q : Output}
    → Sends alignment ps q
    → stream q ≡ concat (map (padded alignment) ps)
unfolding queue_io_write ctdb_queue_set_fd waiting
Sends-stream alignment opened = refl
Sends-stream alignment (send {ps} {q} bytes w f s) =
    queue_send-stream alignment bytes w q f
    ∙ ap (λ x. x ++ padded alignment bytes) (Sends-stream alignment s)
    ∙ ap (◌++◌ (concat (map (padded alignment) ps))) (sym (append-nil (padded alignment bytes)))
    ∙ sym (concat-append (map (padded alignment) ps) (padded alignment bytes ∷ []))
    ∙ ap concat (sym (map-append (padded alignment) ps (bytes ∷ [])))
Sends-stream alignment (ready {ps} {q} ws f s) =
    write_packets-stream q.out_queue ws q f refl ∙ Sends-stream alignment s

-- A packet has room for its length, and its length with the padding is a `uint32_t`.
abbrev pub Fits : ℕ → List ℕ → Type 0
Fits alignment bytes = (4 ≤ length bytes) × (align alignment (length bytes) < u32_mod)

padded-All :
    (alignment : ℕ) (ps : List (List ℕ))
    → 0 < alignment
    → All (Fits alignment) ps
    → All IsPacket (map (padded alignment) ps)
padded-All alignment [] h a = tt
padded-All alignment (p ∷ ps) h a =
    (padded-IsPacket alignment p h a.0.0 a.0.1, padded-All alignment ps h a.1)

-- When a connection has no error and everything that was sent has gone out, the other side is handed just
-- the packets that were sent, padded, each once and in order, however the writes and the reads cut the
-- stream.
pub Sends-received :
    (avail given : ℕ → ℕ) (alignment : ℕ) {ps : List (List ℕ)} {q : Output} (fuel : ℕ)
    → 0 < alignment
    → All (Fits alignment) ps
    → Sends alignment ps q
    → q.out_queue ≡ []
    → 4 * length q.wire < fuel
    → (event_loop avail given fuel fresh q.wire).queue.calls
      ≡ map Callback.packet (map (padded alignment) ps)
unfolding waiting
Sends-received avail given alignment {ps} {q} fuel h a s e enough =
    let wire : q.wire ≡ concat (map (padded alignment) ps) =
      sym (append-nil q.wire) ∙ ap (λ x. q.wire ++ waiting x) (sym e) ∙ Sends-stream alignment s in
    let packets = map (padded alignment) ps in
    subst (λ x. (event_loop avail given fuel fresh x).queue.calls ≡ map Callback.packet packets)
      (sym wire)
      (event_loop-receives avail given packets fuel (padded-All alignment ps h a)
        (omega (arith, enough, ap length wire)))
