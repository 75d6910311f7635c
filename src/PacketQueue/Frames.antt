-- ===== src/PacketQueue/Frames.antt =====
-- A stream of bytes that is a sequence of packets, each with its length in front: what the input side of
-- common/ctdb_io.c relies on.
use ctdb.Base.{
  ℕ, ◌≤◌, ◌≡◌, refl, sym, ◌∙◌, ap, arith, List, [], ◌∷◌, ◌++◌, All, length, take, drop, concat,
  length-append,
}
use ctdb.PacketQueue.Word.{load32, load32-append}

-- A packet has its own length in front.
abbrev pub IsPacket : List ℕ → Type 0
IsPacket p = (load32 p ≡ length p) × (4 ≤ length p)

-- A list that is no longer than the other part of the same stream is its prefix.
split_prefix :
    {A : Type 0} (ps rs xs ys : List A)
    → xs ++ ys ≡ ps ++ rs
    → length ps ≤ length xs
    → (take (length ps) xs ≡ ps) × (drop (length ps) xs ++ ys ≡ rs)
split_prefix [] rs xs ys q h = (refl, q)
split_prefix (p ∷ ps) rs [] ys q h = absurd (omega arith)
split_prefix (p ∷ ps) rs (x ∷ xs) ys q h =
    let head : x ≡ p = cc in
    let tail : xs ++ ys ≡ ps ++ rs = cc in
    let (t, d) = split_prefix ps rs xs ys tail (omega arith) in
    (ap (◌∷◌ x) t ∙ ap (λ a. a ∷ ps) head, d)

pub record First (contents unread : List ℕ) (left : List (List ℕ)) : Type 0 where
  pub first : List ℕ
  pub others : List (List ℕ)
  pub left_lem : left ≡ first ∷ others
  pub first-IsPacket : IsPacket first
  pub others-IsPacket : All IsPacket others
  pub size : load32 contents ≡ length first

-- Once four bytes are there, they are the length of the first packet.
pub first_packet :
    (contents unread : List ℕ) (left : List (List ℕ))
    → contents ++ unread ≡ concat left
    → All IsPacket left
    → 4 ≤ length contents
    → First contents unread left
first_packet contents unread [] q a h =
    absurd (omega (arith, ap length q, length-append contents unread))
first_packet contents unread (p ∷ left) q (w, a) h = record {
  first = p;
  others = left;
  left_lem = refl;
  first-IsPacket = w;
  others-IsPacket = a;
  size =
      sym (load32-append contents unread h) ∙ ap load32 q ∙ load32-append p (concat left) w.1 ∙ w.0;
}

-- Once the whole packet is there, it is cut off.
pub cut_packet :
    (contents unread p : List ℕ) (left : List (List ℕ))
    → contents ++ unread ≡ concat (p ∷ left)
    → length p ≤ length contents
    → (take (length p) contents ≡ p) × (drop (length p) contents ++ unread ≡ concat left)
cut_packet contents unread p left q h = split_prefix p (concat left) contents unread q h
