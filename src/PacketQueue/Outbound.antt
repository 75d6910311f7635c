-- ===== src/PacketQueue/Outbound.antt =====
-- common/ctdb_io.c: the runs of the output side of a queue, over any number of connections.
use ctdb.Base.{
  ℕ, ◌≡◌, ◌<◌, inl, inr, refl, sym, ◌∙◌, ap, subst, arith, Bool, true, false, not, ◌&&◌, List, [],
  ◌∷◌, ◌++◌, ◌==◌, if◌then◌else◌, All, length, take, drop, Bool-cases, if-elim, length-append,
}
use ctdb.PacketQueue.Output.{
  Write, wrote, again, failed, Pkt, Output, padded, no_packet, enqueue, sent, write_now,
  ctdb_queue_send, dequeue, write_packets, queue_io_write, ctdb_queue_set_fd,
}
use ctdb.PacketQueue.Frames.{IsPacket}
use ctdb.PacketQueue.Sending.{
  IsWhole, Sound, take-length, Whole-Partial, queue_send-Sound, write_packets-Sound,
}

-- A queue of which no packet was queued and that has no socket.
abbrev pub unconnected : Output
unconnected = record {
  out_queue = [];
  out_queue_length = 0;
  connected = false;
  writeable = false;
  dying = false;
  wire = [];
}

-- What happens to a queue, when a socket is taken away only in certain states.
pub data Step (Closes : Output → Type 0) : Output → Output → Type 0 where
  send :
      (alignment : ℕ) (bytes : List ℕ) (w : Write) {q : Output}
      → IsPacket (padded alignment bytes)
      → Step Closes q (ctdb_queue_send alignment bytes w q)
  ready : (ws : List Write) {q : Output} → q.writeable ≡ true → Step Closes q (queue_io_write ws q)
  connect : {q : Output} → q.connected ≡ false → Step Closes q (ctdb_queue_set_fd true q)
  close : {q : Output} → Closes q → Step Closes q (ctdb_queue_set_fd false q)

pub data Reached (Closes : Output → Type 0) : Output → Type 0 where
  start : Reached Closes unconnected
  step : {p q : Output} → Reached Closes p → Step Closes p q → Reached Closes q

-- At any time, or while no packet is partly sent.
abbrev pub Always : Output → Type 0
Always q = Unit

abbrev pub BetweenPackets : Output → Type 0
BetweenPackets q = All IsWhole q.out_queue

-- The counter is right, and the event is asked for as long as packets wait for a socket that is there.
pub record Tidy (q : Output) : Type 0 where
  pub counted : q.out_queue_length ≡ length q.out_queue
  pub wakes : q.connected ≡ true → q.writeable ≡ not (no_packet q.out_queue)
  pub sleeps : q.connected ≡ false → q.writeable ≡ false

-- The first packet that waits asks for the event.
wakes_first :
    (ps : List Pkt) (p : Pkt) (c w : Bool)
    → c ≡ true
    → w ≡ not (no_packet ps)
    → (if no_packet ps && c then true else w) ≡ not (no_packet (ps ++ p ∷ []))
wakes_first [] p c w on e = rw on
wakes_first (r ∷ ps) p c w on e = e

no_wake : (e c w : Bool) → c ≡ false → w ≡ false → (if e && c then true else w) ≡ false
no_wake true c w off e = rw (off, e)
no_wake false c w off e = e

enqueue-Tidy : (p : Pkt) (q : Output) → Tidy q → Tidy (enqueue p q)
unfolding enqueue
enqueue-Tidy p q t = record {
  counted = let c = t.counted in omega (arith, length-append q.out_queue (p ∷ []));
  wakes = λ on. wakes_first q.out_queue p q.connected q.writeable on (t.wakes on);
  sleeps = λ off. no_wake (no_packet q.out_queue) q.connected q.writeable off (t.sleeps off);
}

write_now-Tidy :
    (out : List ℕ) (w : Write) (q : Output) → q.connected ≡ true → Tidy q → Tidy (write_now out w q)
unfolding write_now
write_now-Tidy out failed q c t = record {
  counted = t.counted;
  wakes = λ on. cc;
  sleeps = λ off. refl;
}
write_now-Tidy out again q c t = enqueue-Tidy (record { bytes = out; full_length = length out }) q t
write_now-Tidy out (wrote n) q c t =
    let s : Tidy (sent (take n out) q) = record {
      counted = t.counted;
      wakes = t.wakes;
      sleeps = t.sleeps;
    } in
    if-elim Tidy (length (drop n out) == 0) _ _ (λ all. s)
      (λ part.
        enqueue-Tidy (record { bytes = drop n out; full_length = length out }) (sent (take n out) q)
          s)

stays :
    (p : Pkt) (ps : List Pkt) (q : Output)
    → q.out_queue ≡ p ∷ ps
    → q.out_queue_length ≡ length (p ∷ ps)
    → q.connected ≡ true
    → q.writeable ≡ true
    → Tidy q
stays p ps q e l c w = record {
  counted = l ∙ ap length (sym e);
  wakes = λ on. w ∙ ap (λ x. not (no_packet x)) (sym e);
  sleeps = λ off. cc;
}

write_packets-Tidy :
    (ps : List Pkt) (ws : List Write) (q : Output)
    → q.out_queue ≡ ps
    → q.out_queue_length ≡ length ps
    → q.connected ≡ true
    → q.writeable ≡ true
    → Tidy (write_packets ps ws q)
unfolding write_packets
write_packets-Tidy [] ws q e l c w = record {
  counted = l ∙ ap length (sym e);
  wakes = λ on. ap (λ x. not (no_packet x)) (sym e);
  sleeps = λ off. refl;
}
write_packets-Tidy (p ∷ ps) [] q e l c w = stays p ps q e l c w
write_packets-Tidy (p ∷ ps) (failed ∷ ws) q e l c w =
    if-elim Tidy (not (length p.bytes == p.full_length)) _ _
      (λ partial. record { counted = omega (arith, l); wakes = λ on. cc; sleeps = λ off. refl })
      (λ whole. record { counted = l ∙ ap length (sym e); wakes = λ on. cc; sleeps = λ off. refl })
write_packets-Tidy (p ∷ ps) (again ∷ ws) q e l c w = stays p ps q e l c w
write_packets-Tidy (p ∷ ps) (wrote n ∷ ws) q e l c w =
    if-elim Tidy (n == 0) _ _ (λ none. stays p ps q e l c w)
      (λ some.
        if-elim Tidy (not (n == length p.bytes)) _ _
          (λ part. record { counted = l; wakes = λ on. w; sleeps = λ off. cc })
          (λ all.
            write_packets-Tidy ps ws (dequeue ps (sent (take n p.bytes) q)) refl (omega (arith, l))
              c w))

queue_send-Tidy :
    (alignment : ℕ) (bytes : List ℕ) (w : Write) (q : Output)
    → Tidy q
    → Tidy (ctdb_queue_send alignment bytes w q)
unfolding ctdb_queue_send
queue_send-Tidy alignment bytes w q t =
    let out = padded alignment bytes in
    if-elim Tidy (no_packet q.out_queue && q.connected) _ _
      (λ now. write_now-Tidy out w q (ground (arith, now)) t)
      (λ later. enqueue-Tidy (record { bytes = out; full_length = length out }) q t)

-- An event is asked for only with a socket.
writeable-connected : (q : Output) → Tidy q → q.writeable ≡ true → q.connected ≡ true
writeable-connected q t w = elim (Bool-cases q.connected) [
  | inl on ↦ on
  | inr off ↦ (let s = t.sleeps off in cc)
]

Step-Tidy : {Closes : Output → Type 0} {p q : Output} → Step Closes p q → Tidy p → Tidy q
unfolding queue_io_write ctdb_queue_set_fd
Step-Tidy {p = p} (send alignment bytes w i) t = queue_send-Tidy alignment bytes w p t
Step-Tidy {p = p} (ready ws w) t =
    write_packets-Tidy p.out_queue ws p refl t.counted (writeable-connected p t w) w
Step-Tidy (connect off) t = record { counted = t.counted; wakes = λ on. refl; sleeps = λ off. cc }
Step-Tidy (close a) t = record { counted = t.counted; wakes = λ on. cc; sleeps = λ off. refl }

-- Whenever sockets are taken away, also while a packet is partly sent: `out_queue_length` counts the packets that wait, and while packets wait for a socket that is there the
-- event that writes them is asked for, as it is not when nothing waits or there is no socket.
pub Reached-Tidy : {Closes : Output → Type 0} {q : Output} → Reached Closes q → Tidy q
Reached-Tidy start = record { counted = refl; wakes = λ on. cc; sleeps = λ off. refl }
Reached-Tidy (step r s) = Step-Tidy s (Reached-Tidy r)

Step-Sound : {p q : Output} → Step BetweenPackets p q → Tidy p → Sound p → Sound q
unfolding queue_io_write ctdb_queue_set_fd
Step-Sound {p} (send alignment bytes w i) t s = queue_send-Sound alignment bytes w p i s
Step-Sound {p} (ready ws w) t s =
    let on = writeable-connected p t w in write_packets-Sound p.out_queue ws p refl on (s.up on)
Step-Sound {p} (connect off) t s = record {
  up = λ on. record {
    done = [];
    part = [];
    done-IsPacket = tt;
    wire_lem = refl;
    queue-Partial = Whole-Partial p.out_queue (s.down off);
  };
  down = λ off. cc;
}
Step-Sound (close a) t s = record { up = λ on. cc; down = λ off. a }

-- Every socket that the queue ever has takes whole packets and then part of the packet that is first in
-- the queue, and while there is no socket all packets of the queue are whole: after an error the next
-- connection starts with a whole packet. A socket is taken away from outside only while no packet is partly
-- sent.
pub Reached-Sound : {q : Output} → Reached BetweenPackets q → Sound q
Reached-Sound start = record { up = λ on. cc; down = λ off. tt }
Reached-Sound (step r s) = Step-Sound s (Reached-Tidy r) (Reached-Sound r)

write_nothing : (ps : List Pkt) (q : Output) → (write_packets ps [] q).wire ≡ q.wire
unfolding write_packets
write_nothing [] q = refl
write_nothing (p ∷ ps) q = refl

write_all :
    (p : Pkt) (ps : List Pkt) (q : Output)
    → 0 < length p.bytes
    → (write_packets (p ∷ ps) (wrote (length p.bytes) ∷ []) q).wire ≡ q.wire ++ p.bytes
unfolding write_packets
write_all p ps q h =
    let n = length p.bytes in
    let P : Output → Type 0 = λ m. m.wire ≡ q.wire ++ p.bytes in
    if-elim P (n == 0) _ _ (λ none. absurd (ground (arith, none)))
      (λ some.
        if-elim P (not (n == n)) _ _ (λ part. absurd (ground (arith, part)))
          (λ all.
            write_nothing ps (dequeue ps (sent (take n p.bytes) q))
            ∙ ap (◌++◌ q.wire) (take-length p.bytes)))

-- When a socket is taken away with a packet partly sent, the next connection starts in the middle of that
-- packet.
pub reconnect-partial :
    (p : Pkt) (ps : List Pkt) (q : Output)
    → q.out_queue ≡ p ∷ ps
    → 0 < length p.bytes
    → (queue_io_write
        (wrote (length p.bytes) ∷ [])
        (ctdb_queue_set_fd true (ctdb_queue_set_fd false q))).wire
      ≡ p.bytes
unfolding queue_io_write write_packets ctdb_queue_set_fd
reconnect-partial p ps q e h =
    let fresh_socket = ctdb_queue_set_fd true (ctdb_queue_set_fd false q) in
    subst (λ x. (write_packets x (wrote (length p.bytes) ∷ []) fresh_socket).wire ≡ p.bytes) (sym e)
      (write_all p ps fresh_socket h)
