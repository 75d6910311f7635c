-- ===== src/PacketQueue/Reading.antt =====
-- common/ctdb_io.c: the input side hands over the packets of the stream, in order, however they arrive.

use ctdb.Base.{
  ℕ, ◌≤◌, ◌<◌, ◌≡◌, refl, sym, ◌∙◌, ap, ◌⊎◌, inl, inr, arith, true, false, List, [], ◌∷◌, ◌++◌,
  ◌==◌, ltb, All, length, drop, concat, map, if-elim, length-drop,
}
use mathlib.Core.List.{append_assoc, map-append}
use ctdb.PacketQueue.Word.{load32}
use ctdb.PacketQueue.Input.{
  queue_buffer_size, Callback, Input, call, keep_rest, extract, queue_process,
}
use ctdb.PacketQueue.Frames.{IsPacket, first_packet, cut_packet}

-- `left` are the packets that were not handed over yet: their bytes are in the buffer and the socket.
pub record Reads (sent left : List (List ℕ)) (q : Input) (unread : List ℕ) : Type 0 where
  pub handed : List (List ℕ)
  pub calls : q.calls ≡ map Callback.packet handed
  pub all : handed ++ left ≡ sent
  pub bytes : q.contents ++ unread ≡ concat left
  pub left-IsPacket : All IsPacket left
  pub fits : length q.contents ≤ q.size
  pub enough : q.allocated ≡ true → queue_buffer_size ≤ q.size
  pub none : q.allocated ≡ false → q.size ≡ 0
  pub extends : 0 < q.extend → (length q.contents < q.extend) × (queue_buffer_size < q.extend)

-- The buffer holds no whole packet, and is going to be extended if that is too long for it.
abbrev pub Incomplete : Input → Type 0
Incomplete q =
    (length q.contents < 4)
    ⊎ ((length q.contents < load32 q.contents)
        × (queue_buffer_size < load32 q.contents → q.extend ≡ load32 q.contents))

-- Nothing that can be handed over is left without an event.
abbrev pub Awake : Input → Type 0
Awake q = q.scheduled ≡ false → Incomplete q

abbrev pub Processed : List (List ℕ) → Input → List ℕ → Type 0
Processed sent q unread = (left : List (List ℕ)) × Reads sent left q unread × Awake q

-- The packet is handed over by a queue `m` that keeps what is behind it.
hand_over-Processed :
    (sent left : List (List ℕ)) (q m : Input) (unread p rest : List ℕ) (others : List (List ℕ))
    → Reads sent left q unread
    → left ≡ p ∷ others
    → All IsPacket others
    → rest ++ unread ≡ concat others
    → m.contents ≡ rest
    → m.calls ≡ q.calls
    → length rest ≤ m.size
    → (m.allocated ≡ true → queue_buffer_size ≤ m.size)
    → (m.allocated ≡ false → m.size ≡ 0)
    → m.extend ≡ q.extend
    → length rest ≤ length q.contents
    → (m.scheduled ≡ false → length rest < 4)
    → Processed sent (call (Callback.packet p) m) unread
unfolding call
hand_over-Processed sent left q m unread p rest others r e a bytes c k fits enough none ext le
      sched =
    let rc = r.calls in
    let all = r.all in
    (
      others,
      record {
        handed = r.handed ++ p ∷ [];
        calls =
            ap (λ (l : List Callback). l ++ Callback.packet p ∷ []) (k ∙ rc)
            ∙ sym (map-append Callback.packet r.handed (p ∷ []));
        all = append_assoc r.handed (p ∷ []) others ∙ ap (λ l. r.handed ++ l) (sym e) ∙ all;
        bytes = ap (λ l. l ++ unread) c ∙ bytes;
        left-IsPacket = a;
        fits = rw c fits;
        enough = enough;
        none = none;
        extends = λ h.
            let (x, y) = r.extends (omega arith) in
            let lc : length m.contents ≡ length rest = ap length c in (omega arith, omega arith);
      },
      λ s. inl (
          let lc : length m.contents ≡ length rest = ap length c in
          let lt = sched s in omega arith),
    )

extract-Processed :
    (sent left : List (List ℕ)) (q : Input) (unread p : List ℕ) (others : List (List ℕ))
    → Reads sent left q unread
    → left ≡ p ∷ others
    → All IsPacket others
    → length p ≤ length q.contents
    → Processed sent (extract (length p) q) unread
unfolding extract keep_rest
extract-Processed sent left q unread p others r e a h =
    let (front, back) = cut_packet q.contents unread p others (r.bytes ∙ ap concat e) h in
    let rest = drop (length p) q.contents in
    let short = length-drop (length p) q.contents in
    let fits = r.fits in
    rw front (
      if-elim (λ m. Processed sent (call (Callback.packet p) m) unread) (ltb 0 (length rest)) _ _
        (λ some.
          hand_over-Processed sent left q _ unread p rest others r e a back refl refl (omega arith)
            r.enough r.none refl (omega arith) (λ x. cc))
        (λ nothing.
          if-elim (λ m. Processed sent (call (Callback.packet p) m) unread)
            (ltb queue_buffer_size q.size) _ _
            (λ large.
              hand_over-Processed sent left q _ unread p rest others r e a back refl refl
                (ground arith) (λ x. cc) (λ x. refl) refl (omega arith) (λ x. ground arith))
            (λ small.
              hand_over-Processed sent left q _ unread p rest others r e a back refl refl
                (omega arith) r.enough r.none refl (omega arith) (λ x. ground arith))))

extend-Reads :
    (sent left : List (List ℕ)) (q : Input) (unread : List ℕ) (n : ℕ)
    → Reads sent left q unread
    → length q.contents < n
    → queue_buffer_size < n
    → Reads sent left (record q { extend = n }) unread
extend-Reads sent left q unread n r h k = record {
  handed = r.handed;
  calls = r.calls;
  all = r.all;
  bytes = r.bytes;
  left-IsPacket = r.left-IsPacket;
  fits = r.fits;
  enough = r.enough;
  none = r.none;
  extends = λ z. (h, k);
}

-- Processing hands over the first packet if it is whole, and leaves nothing without an event.
pub queue_process-Processed :
    (sent left : List (List ℕ)) (q : Input) (unread : List ℕ)
    → Reads sent left q unread
    → Processed sent (queue_process q) unread
unfolding queue_process
queue_process-Processed sent left q unread r =
    if-elim (λ m. Processed sent m unread) (ltb (length q.contents) 4) _ _
      (λ few. (left, r, λ s. inl (ground arith)))
      (λ four.
        let f = first_packet q.contents unread left r.bytes r.left-IsPacket (ground arith) in
        let size = f.size in
        let w = f.first-IsPacket in
        if-elim (λ m. Processed sent m unread) (load32 q.contents == 0) _ _
          (λ zero. absurd (ground (arith, w.1)))
          (λ nonzero.
            if-elim (λ m. Processed sent m unread) (ltb (length q.contents) (load32 q.contents)) _ _
              (λ part.
                if-elim (λ m. Processed sent m unread) (ltb queue_buffer_size (load32 q.contents)) _
                  _
                  (λ long. (
                    left,
                    extend-Reads sent left q unread (load32 q.contents) r (ground arith)
                        (ground arith),
                    λ s. inr (ground arith, λ h. refl),
                  ))
                  (λ short. (left, r, λ s. inr (ground arith, λ h. absurd (ground arith)))))
              (λ whole. rw size (
                extract-Processed sent left q unread f.first f.others r f.left_lem f.others-IsPacket
                  (ground arith)))))
