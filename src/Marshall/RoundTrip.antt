-- ===== src/Marshall/RoundTrip.antt =====
-- common/ctdb_util.c: what is marshalled is read back.
use ctdb.Base.{
  ℕ, ◌+◌, ◌*◌, ◌/◌, ◌%◌, ◌<◌, ◌≡◌, refl, sym, ◌∙◌, ap, subst, arith, Bool, true, false, ltb, none,
  some, Option, List, [], ◌∷◌, ◌++◌, length, take, drop, All, take-append, drop-append,
  length-append, if-elim, u32_mod,
}
use mathlib.Core.List.{append_assoc, append-nil}
use ctdb.PacketQueue.Word.{load32, bytes32}
use ctdb.Marshall.Record.{
  header_size, rec_data_size, Entry, payload, header_length, ctdb_marshall_record,
}
use ctdb.Marshall.Buffer.{
  MarshallBuffer, ctdb_marshall_add, read_entry, read_parts, read_record, ctdb_marshall_loop_next,
  with_rest, loop_from,
}

-- A header is there if and only if it is asked for.
abbrev pub HasHeader : Bool → Option (List ℕ) → Type 0
HasHeader true none = ⊥
HasHeader true (some header) = length header ≡ header_size
HasHeader false none = Unit
HasHeader false (some header) = ⊥

-- The words of the record have room for its lengths.
pub record Fits (with_header : Bool) (e : Entry) : Type 0 where
  pub reqid : e.reqid < u32_mod
  pub size : rec_data_size + length e.key + length e.body + header_length e.header < u32_mod
  pub header : HasHeader with_header e.header

abbrev digits : ℕ → ℕ
digits n =
    n % 256 + 256 * (n / 256 % 256) + 65536 * (n / 65536 % 256) + 16777216 * (n / 16777216 % 256)

word : (n : ℕ) → n < u32_mod → digits n ≡ n
word n h = omega arith

payload-length :
    (with_header : Bool) (o : Option (List ℕ)) (body : List ℕ)
    → HasHeader with_header o
    → length (payload o body) ≡ length body + header_length o
unfolding payload header_length
payload-length true none body h = elim h [ ]
payload-length true (some header) body h = omega (arith, h, length-append header body)
payload-length false none body h = omega arith
payload-length false (some header) body h = elim h [ ]

-- The parts of the record in front of the rest of the buffer.
first_part :
    (n : ℕ) (xs ys : List ℕ) → n ≡ length xs → (take n (xs ++ ys) ≡ xs) × (drop n (xs ++ ys) ≡ ys)
first_part n xs ys e = (
  ap (λ k. take k (xs ++ ys)) e ∙ take-append xs ys,
  ap (λ k. drop k (xs ++ ys)) e ∙ drop-append xs ys,
)

entry_lem :
    (with_header : Bool) (reqid datalen : ℕ) (key body : List ℕ) (o : Option (List ℕ))
    → HasHeader with_header o
    → datalen ≡ length body + header_length o
    → read_entry with_header reqid datalen key (payload o body)
      ≡ some (record { reqid = reqid; key = key; header = o; body = body })
unfolding read_entry payload header_length
entry_lem true reqid datalen key body none h e = elim h [ ]
entry_lem true reqid datalen key body (some header) h e =
    let parts = first_part header_size header body (sym h) in
    let rec : List ℕ → List ℕ → Option Entry =
      λ a b. some (record { reqid = reqid; key = key; header = some a; body = b }) in
    if-elim (λ m. m ≡ rec header body) (ltb datalen header_size) none
      (rec (take header_size (header ++ body)) (drop header_size (header ++ body)))
      (λ few. absurd (ground (arith, few, e)))
      (λ enough.
        ap (λ a. rec a (drop header_size (header ++ body))) parts.0 ∙ ap (rec header) parts.1)
entry_lem false reqid datalen key body none h e = refl
entry_lem false reqid datalen key body (some header) h e = elim h [ ]

parts_lem :
    (with_header : Bool) (e : Entry) (rest : List ℕ) (keylen datalen : ℕ)
    → HasHeader with_header e.header
    → keylen ≡ length e.key
    → datalen ≡ length e.body + header_length e.header
    → read_parts with_header e.reqid keylen datalen (e.key ++ (payload e.header e.body ++ rest))
      ≡ some e
unfolding read_parts
parts_lem with_header e rest keylen datalen h k l =
    let value = payload e.header e.body in
    let (key, behind) = first_part keylen e.key (value ++ rest) k in
    let (body, _) =
      first_part datalen value rest (l ∙ sym (payload-length with_header e.header e.body h)) in
    ap
      (λ a.
        read_entry with_header e.reqid datalen a
          (take datalen (drop keylen (e.key ++ (value ++ rest)))))
      key
    ∙ ap (λ a. read_entry with_header e.reqid datalen e.key (take datalen a)) behind
    ∙ ap (read_entry with_header e.reqid datalen e.key) body
    ∙ entry_lem with_header e.reqid datalen e.key e.body e.header h l

record_lem :
    (with_header : Bool) (e : Entry) (rest : List ℕ)
    → Fits with_header e
    → read_record with_header (ctdb_marshall_record e ++ rest) ≡ some e
unfolding read_record ctdb_marshall_record bytes32 load32
record_lem with_header e rest f =
    let size = f.size in
    let datalen = length e.body + header_length e.header in
    let tail : (e.key ++ payload e.header e.body) ++ rest
        ≡ e.key ++ (payload e.header e.body ++ rest) =
      append_assoc e.key (payload e.header e.body) rest in
    let k = length e.key in
    ap
      (λ a.
        read_parts with_header a (digits k) (digits datalen)
          ((e.key ++ payload e.header e.body) ++ rest))
      (word e.reqid f.reqid)
    ∙ ap (read_parts with_header e.reqid (digits k) (digits datalen)) tail
    ∙ parts_lem with_header e rest (digits k) (digits datalen) f.header (word k (omega arith))
        (word datalen (omega arith))

record-length :
    (with_header : Bool) (e : Entry) (rest : List ℕ)
    → Fits with_header e
    → load32 (ctdb_marshall_record e ++ rest) ≡ length (ctdb_marshall_record e)
unfolding ctdb_marshall_record bytes32 load32
record-length with_header e rest f =
    let size = f.size in
    omega (
      arith,
      word (rec_data_size + length e.key + length e.body + header_length e.header) size,
      length-append e.key (payload e.header e.body),
      payload-length with_header e.header e.body f.header,
    )

-- The bytes of the records.
abbrev pub marshalled : List Entry → List ℕ
marshalled [] = []
marshalled (e ∷ es) = ctdb_marshall_record e ++ marshalled es

next_lem :
    (with_header : Bool) (e : Entry) (rest front : List ℕ)
    → Fits with_header e
    → ctdb_marshall_loop_next (front ++ (ctdb_marshall_record e ++ rest)) (some (length front))
      ≡ length (front ++ ctdb_marshall_record e)
unfolding ctdb_marshall_loop_next
next_lem with_header e rest front f =
    let rec = ctdb_marshall_record e in
    omega (
      arith,
      ap load32 (drop-append front (rec ++ rest)),
      record-length with_header e rest f,
      length-append front rec,
    )

-- The loop, from the records behind `front` on.
loop_lem :
    (with_header : Bool) (es : List Entry) (front : List ℕ) (r : Option ℕ)
    → All (Fits with_header) es
    → ctdb_marshall_loop_next (front ++ marshalled es) r ≡ length front
    → loop_from with_header (length es) (front ++ marshalled es) r ≡ some es
unfolding loop_from with_rest
loop_lem with_header [] front r a n = refl
loop_lem with_header (e ∷ es) front r a n =
    let rec = ctdb_marshall_record e in
    let bytes = front ++ (rec ++ marshalled es) in
    let here : drop (length front) bytes ≡ rec ++ marshalled es =
      drop-append front (rec ++ marshalled es) in
    let same : bytes ≡ (front ++ rec) ++ marshalled es =
      sym (append_assoc front rec (marshalled es)) in
    let next : ctdb_marshall_loop_next bytes (some (length front)) ≡ length (front ++ rec) =
      next_lem with_header e (marshalled es) front a.0 in
    let first : read_record with_header (drop (length front) bytes) ≡ some e =
      ap (read_record with_header) here ∙ record_lem with_header e (marshalled es) a.0 in
    let others : loop_from with_header (length es) bytes (some (length front)) ≡ some es =
      subst (λ b. loop_from with_header (length es) b (some (length front)) ≡ some es) (sym same)
        (loop_lem with_header es (front ++ rec) (some (length front)) a.1 (
          subst (λ b. ctdb_marshall_loop_next b (some (length front)) ≡ length (front ++ rec)) same
            next)) in
    ap
      (λ k.
        with_rest (read_record with_header (drop k bytes))
          (loop_from with_header (length es) bytes (some k)))
      n
    ∙ ap (λ x. with_rest x (loop_from with_header (length es) bytes (some (length front)))) first
    ∙ ap (with_rest (some e)) others

-- The buffer to which records are added, one after the other.
abbrev pub marshall_all : ℕ → List Entry → MarshallBuffer → MarshallBuffer
marshall_all db_id [] m = m
marshall_all db_id (e ∷ es) m = marshall_all db_id es (ctdb_marshall_add db_id e (some m))

marshall_all-bytes :
    (db_id : ℕ) (es : List Entry) (m : MarshallBuffer)
    → (marshall_all db_id es m).bytes ≡ m.bytes ++ marshalled es
unfolding ctdb_marshall_add
marshall_all-bytes db_id [] m = sym (append-nil m.bytes)
marshall_all-bytes db_id (e ∷ es) m =
    marshall_all-bytes db_id es (ctdb_marshall_add db_id e (some m))
    ∙ append_assoc m.bytes (ctdb_marshall_record e) (marshalled es)

marshall_all-count :
    (db_id : ℕ) (es : List Entry) (m : MarshallBuffer)
    → m.count + length es < u32_mod
    → (marshall_all db_id es m).count ≡ m.count + length es
unfolding ctdb_marshall_add
marshall_all-count db_id [] m h = omega arith
marshall_all-count db_id (e ∷ es) m h =
    omega (arith, marshall_all-count db_id es (ctdb_marshall_add db_id e (some m)) (omega arith))

-- The records that are added to a new buffer are read back, in order, by the loop that its count ends, if
-- they all have a header or none has, and if their lengths and number fit.
pub marshall-loop :
    (with_header : Bool) (db_id : ℕ) (e : Entry) (es : List Entry)
    → All (Fits with_header) (e ∷ es)
    → length (e ∷ es) < u32_mod
    → loop_from with_header
        (marshall_all db_id es (ctdb_marshall_add db_id e none)).count
        (marshall_all db_id es (ctdb_marshall_add db_id e none)).bytes
        none
      ≡ some (e ∷ es)
unfolding ctdb_marshall_add ctdb_marshall_loop_next
marshall-loop with_header db_id e es a h =
    let m = ctdb_marshall_add db_id e none in
    let all = marshall_all db_id es m in
    let counted : all.count ≡ length (e ∷ es) =
      omega (arith, marshall_all-count db_id es m (omega arith)) in
    ap (λ n. loop_from with_header n all.bytes none) counted
    ∙ ap (λ b. loop_from with_header (length (e ∷ es)) b none) (marshall_all-bytes db_id es m)
    ∙ loop_lem with_header (e ∷ es) [] none a refl
