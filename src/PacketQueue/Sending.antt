-- ===== src/PacketQueue/Sending.antt =====
-- common/ctdb_io.c: the output side sends every packet whole and in order, and after an error starts the
-- next connection with a whole packet.
use ctdb.Base.{
  ℕ, ◌≡◌, refl, sym, ◌∙◌, ap, subst, arith, true, false, not, ◌&&◌, List, [], ◌∷◌, ◌++◌, ◌==◌, All,
  All-append, length, take, drop, concat, if-elim, length-append, take-append-drop, concat-append,
}
use mathlib.Core.List.{append_assoc, append-nil}
use ctdb.PacketQueue.Output.{
  Write, wrote, again, failed, Pkt, Output, padded, no_packet, enqueue, sent, write_now,
  ctdb_queue_send, dequeue, write_packets,
}
use ctdb.PacketQueue.Frames.{IsPacket}

-- No part of a packet was sent.
abbrev pub IsWhole : Pkt → Type 0
IsWhole p = IsPacket p.bytes × (p.full_length ≡ length p.bytes)

-- The socket took `part` of the first packet.
abbrev pub Partial : List ℕ → List Pkt → Type 0
Partial part [] = part ≡ []
Partial part (p ∷ ps) =
    IsPacket (part ++ p.bytes) × (p.full_length ≡ length (part ++ p.bytes)) × All IsWhole ps

-- The present socket took whole packets, and then part of the first packet of the queue.
pub record Framed (wire : List ℕ) (queue : List Pkt) : Type 0 where
  pub done : List (List ℕ)
  pub part : List ℕ
  pub done-IsPacket : All IsPacket done
  pub wire_lem : wire ≡ concat done ++ part
  pub queue-Partial : Partial part queue

-- Without a socket every packet of the queue is whole.
pub record Sound (q : Output) : Type 0 where
  pub up : q.connected ≡ true → Framed q.wire q.out_queue
  pub down : q.connected ≡ false → All IsWhole q.out_queue

Partial-append :
    (part : List ℕ) (ps : List Pkt) (p : Pkt)
    → IsWhole p
    → Partial part ps
    → Partial part (ps ++ p ∷ [])
Partial-append part [] p w e = (
  subst (λ a. IsPacket (a ++ p.bytes)) (sym e) w.0,
  w.1 ∙ ap (λ a. length (a ++ p.bytes)) (sym e),
  tt,
)
Partial-append part (r ∷ ps) p w (i, l, a) = (i, l, All-append IsWhole ps (p ∷ []) a (w, tt))

enqueue-Sound : (p : Pkt) (q : Output) → IsWhole p → Sound q → Sound (enqueue p q)
unfolding enqueue
enqueue-Sound p q w s = record {
  up = λ c.
      let f = s.up c in
      record {
        done = f.done;
        part = f.part;
        done-IsPacket = f.done-IsPacket;
        wire_lem = f.wire_lem;
        queue-Partial = Partial-append f.part q.out_queue p w f.queue-Partial;
      };
  down = λ c. All-append IsWhole q.out_queue (p ∷ []) (s.down c) (w, tt);
}

pub no_packet_lem : (ps : List Pkt) → no_packet ps ≡ true → ps ≡ []
no_packet_lem [] e = refl
no_packet_lem (p ∷ ps) e = cc

pub Whole-Partial : (ps : List Pkt) → All IsWhole ps → Partial [] ps
Whole-Partial [] a = refl
Whole-Partial (p ∷ ps) a = (a.0.0, a.0.1, a.1)

-- The rest of the first packet goes out.
Framed-rest :
    (wire : List ℕ) (p : Pkt) (ps : List Pkt) → Framed wire (p ∷ ps) → Framed (wire ++ p.bytes) ps
Framed-rest wire p ps f = record {
  done = f.done ++ (f.part ++ p.bytes) ∷ [];
  part = [];
  done-IsPacket =
      All-append IsPacket f.done ((f.part ++ p.bytes) ∷ []) f.done-IsPacket (f.queue-Partial.0, tt);
  wire_lem =
      ap (λ x. x ++ p.bytes) f.wire_lem
      ∙ append_assoc (concat f.done) f.part p.bytes
      ∙ sym (ap (◌++◌ (concat f.done)) (append-nil (f.part ++ p.bytes)))
      ∙ sym (concat-append f.done ((f.part ++ p.bytes) ∷ []))
      ∙ sym (append-nil (concat (f.done ++ (f.part ++ p.bytes) ∷ [])));
  queue-Partial = Whole-Partial ps f.queue-Partial.2;
}

-- A part of the first packet goes out.
Framed-part :
    (wire : List ℕ) (n : ℕ) (p : Pkt) (ps : List Pkt)
    → Framed wire (p ∷ ps)
    → Framed (wire ++ take n p.bytes) (record p { bytes = drop n p.bytes } ∷ ps)
Framed-part wire n p ps f =
    let whole : f.part ++ p.bytes ≡ (f.part ++ take n p.bytes) ++ drop n p.bytes =
      ap (◌++◌ f.part) (sym (take-append-drop n p.bytes))
      ∙ sym (append_assoc f.part (take n p.bytes) (drop n p.bytes)) in
    record {
      done = f.done;
      part = f.part ++ take n p.bytes;
      done-IsPacket = f.done-IsPacket;
      wire_lem =
          ap (λ x. x ++ take n p.bytes) f.wire_lem
          ∙ append_assoc (concat f.done) f.part (take n p.bytes);
      queue-Partial = (
        subst IsPacket whole f.queue-Partial.0,
        f.queue-Partial.1 ∙ ap length whole,
        f.queue-Partial.2,
      );
    }

pub no_bytes : (xs : List ℕ) → length xs ≡ 0 → xs ≡ []
no_bytes [] e = refl
no_bytes (x ∷ xs) e = absurd (omega arith)

write_now-Sound :
    (out : List ℕ) (w : Write) (q : Output)
    → IsPacket out
    → q.out_queue ≡ []
    → q.connected ≡ true
    → Sound q
    → Sound (write_now out w q)
unfolding write_now enqueue
write_now-Sound out failed q i e c s = record {
  up = λ off. cc;
  down = λ off. subst (All IsWhole) (sym e) tt;
}
write_now-Sound out again q i e c s =
    enqueue-Sound (record { bytes = out; full_length = length out }) q (i, refl) s
write_now-Sound out (wrote n) q i e c s =
    let p : Pkt = record { bytes = out; full_length = length out } in
    let f : Framed q.wire (p ∷ []) =
      (let g = s.up c in
        record {
          done = g.done;
          part = g.part;
          done-IsPacket = g.done-IsPacket;
          wire_lem = g.wire_lem;
          queue-Partial =
              Partial-append g.part [] p (i, refl) (subst (Partial g.part) e g.queue-Partial);
        }) in
    if-elim Sound (length (drop n out) == 0) _ _
      (λ all. record {
        up = λ on.
            let whole : take n out ≡ out =
              sym (append-nil (take n out))
              ∙ ap (◌++◌ (take n out)) (sym (no_bytes (drop n out) (ground (arith, all))))
              ∙ take-append-drop n out in
            subst (λ x. Framed (q.wire ++ x) q.out_queue) (sym whole)
              (subst (Framed (q.wire ++ out)) (sym e) (Framed-rest q.wire p [] f));
        down = λ off. cc;
      })
      (λ part. record {
        up = λ on.
            subst (λ ps. Framed (q.wire ++ take n out) (ps ++ record p { bytes = drop n out } ∷ []))
              (sym e) (Framed-part q.wire n p [] f);
        down = λ off. cc;
      })

-- A packet that is sent keeps the stream framed, whatever the socket does.
pub queue_send-Sound :
    (alignment : ℕ) (bytes : List ℕ) (w : Write) (q : Output)
    → IsPacket (padded alignment bytes)
    → Sound q
    → Sound (ctdb_queue_send alignment bytes w q)
unfolding ctdb_queue_send
queue_send-Sound alignment bytes w q i s =
    let out = padded alignment bytes in
    if-elim Sound (no_packet q.out_queue && q.connected) _ _
      (λ now.
        write_now-Sound out w q i (no_packet_lem q.out_queue (ground (arith, now)))
          (ground (arith, now)) s)
      (λ later. enqueue-Sound (record { bytes = out; full_length = length out }) q (i, refl) s)

pub take-length : (xs : List ℕ) → take (length xs) xs ≡ xs
take-length [] = refl
take-length (x ∷ xs) = ap (◌∷◌ x) (take-length xs)

-- When as many bytes are left as there were, none was sent.
unsent-IsWhole :
    (p : Pkt) (ps : List Pkt) (part : List ℕ)
    → Partial part (p ∷ ps)
    → length p.bytes ≡ p.full_length
    → All IsWhole (p ∷ ps)
unsent-IsWhole p ps [] (i, l, a) e = ((i, l), a)
unsent-IsWhole p ps (x ∷ part) (i, l, a) e =
    absurd (omega (arith, l, e, length-append (x ∷ part) p.bytes))

pub write_packets-Sound :
    (ps : List Pkt) (ws : List Write) (q : Output)
    → q.out_queue ≡ ps
    → q.connected ≡ true
    → Framed q.wire ps
    → Sound (write_packets ps ws q)
unfolding write_packets
write_packets-Sound [] ws q e c f = record {
  up = λ on. subst (Framed q.wire) (sym e) f;
  down = λ off. cc;
}
write_packets-Sound (p ∷ ps) [] q e c f = record {
  up = λ on. subst (Framed q.wire) (sym e) f;
  down = λ off. cc;
}
write_packets-Sound (p ∷ ps) (failed ∷ ws) q e c f =
    if-elim Sound (not (length p.bytes == p.full_length)) _ _
      (λ partial. record { up = λ on. cc; down = λ off. f.queue-Partial.2 })
      (λ whole. record {
        up = λ on. cc;
        down = λ off.
            subst (All IsWhole) (sym e)
              (unsent-IsWhole p ps f.part f.queue-Partial (ground (arith, whole)));
      })
write_packets-Sound (p ∷ ps) (again ∷ ws) q e c f = record {
  up = λ on. subst (Framed q.wire) (sym e) f;
  down = λ off. cc;
}
write_packets-Sound (p ∷ ps) (wrote n ∷ ws) q e c f =
    if-elim Sound (n == 0) _ _
      (λ none. record { up = λ on. subst (Framed q.wire) (sym e) f; down = λ off. cc })
      (λ some.
        if-elim Sound (not (n == length p.bytes)) _ _
          (λ part. record { up = λ on. Framed-part q.wire n p ps f; down = λ off. cc })
          (λ all. write_packets-Sound ps ws (dequeue ps (sent (take n p.bytes) q)) refl c (
            let l : n ≡ length p.bytes = ground (arith, all) in
            subst (λ x. Framed (q.wire ++ x) ps)
              (sym (ap (λ k. take k p.bytes) l ∙ take-length p.bytes))
              (Framed-rest q.wire p ps f))))
