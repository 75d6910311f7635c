-- ===== src/PacketQueue/Output.antt =====
-- common/ctdb_io.c: `ctdb_queue_send`, `queue_io_write` and `ctdb_queue_set_fd`, which write packets to the
-- socket. Torture mode is left out, and memory is always had.
use ctdb.Base.{
  ℕ, ◌+◌, ◌-◌, ◌*◌, ◌/◌, Bool, true, false, List, [], ◌∷◌, ◌++◌, ◌==◌, ◌&&◌, not, if◌then◌else◌,
  length, take, drop, replicate,
}
use ctdb.PacketQueue.Word.{store32}

-- What `write` gives: a count, EAGAIN or EWOULDBLOCK, or another error.
pub data Write : Type 0 where
  wrote : ℕ → Write
  again failed : Write

-- `struct ctdb_queue_pkt`: the bytes that are left, and the number that there were.
pub record Pkt : Type 0 where
  pub bytes : List ℕ
  pub full_length : ℕ

-- The output side of `struct ctdb_queue`. `connected` is `fd != -1`, `writeable` says that the event for a
-- socket that can be written to is asked for, `dying` that the event that reports a dead queue is pending;
-- `wire` are the bytes that the present socket took.
pub record Output : Type 0 where
  pub out_queue : List Pkt
  pub out_queue_length : ℕ
  pub connected : Bool
  pub writeable : Bool
  pub dying : Bool
  pub wire : List ℕ

-- `(length+(alignment-1)) & ~(alignment-1)`, for an alignment that is a power of two and a length that does
-- not overflow
unfoldable pub align : ℕ → ℕ → ℕ
align alignment length = (length + (alignment - 1)) / alignment * alignment

-- The bytes that are sent for a packet: with an alignment its length is put in front and it is padded with
-- zeros.
unfoldable pub padded : ℕ → List ℕ → List ℕ
padded alignment bytes =
    if alignment == 0
    then bytes
    else (let length2 = align alignment (length bytes) in
        store32 length2 bytes ++ replicate (length2 - length bytes) 0)

abbrev pub no_packet : List Pkt → Bool
no_packet [] = true
no_packet (p ∷ ps) = false

abbrev pub disconnect : Output → Output
disconnect q = record q { connected = false; writeable = false; dying = true }

unfoldable pub enqueue : Pkt → Output → Output
enqueue p q = record q {
  out_queue = q.out_queue ++ p ∷ [];
  out_queue_length = q.out_queue_length + 1;
  writeable = if no_packet q.out_queue && q.connected then true else q.writeable;
}

abbrev pub sent : List ℕ → Output → Output
sent bytes q = record q { wire = q.wire ++ bytes }

-- The write that is tried when no packet waits; what is left of the packet is queued.
unfoldable pub write_now : List ℕ → Write → Output → Output
write_now out failed q = disconnect q
write_now out again q = enqueue (record { bytes = out; full_length = length out }) q
write_now out (wrote n) q =
    if length (drop n out) == 0
    then sent (take n out) q
    else enqueue (record { bytes = drop n out; full_length = length out }) (sent (take n out) q)

unfoldable pub ctdb_queue_send : ℕ → List ℕ → Write → Output → Output
ctdb_queue_send alignment bytes w q =
    let out = padded alignment bytes in
    if no_packet q.out_queue && q.connected
    then write_now out w q
    else enqueue (record { bytes = out; full_length = length out }) q

-- The first packet is taken off, `ps` are the others.
abbrev pub dequeue : List Pkt → Output → Output
dequeue ps q = record q { out_queue = ps; out_queue_length = q.out_queue_length - 1 }

-- `queue_io_write`: one `write` for each round of the loop. A packet of which a part was sent is dropped
-- when the connection fails, and the queue is kept for the next one.
unfoldable pub write_packets : List Pkt → List Write → Output → Output
write_packets [] ws q = record q { writeable = false }
write_packets (p ∷ ps) [] q = q
write_packets (p ∷ ps) (failed ∷ ws) q =
    if not (length p.bytes == p.full_length) then disconnect (dequeue ps q) else disconnect q
write_packets (p ∷ ps) (again ∷ ws) q = q
write_packets (p ∷ ps) (wrote n ∷ ws) q =
    let rest = write_packets ps ws (dequeue ps (sent (take n p.bytes) q)) in
    if n == 0
    then q
    else if not (n == length p.bytes)
    then record (sent (take n p.bytes) q) { out_queue = record p { bytes = drop n p.bytes } ∷ ps }
    else rest

unfoldable pub queue_io_write : List Write → Output → Output
queue_io_write ws q = write_packets q.out_queue ws q

-- A new socket, or none; the event for the new socket can always be had.
unfoldable pub ctdb_queue_set_fd : Bool → Output → Output
ctdb_queue_set_fd has_fd q =
    if has_fd
    then record q { connected = true; writeable = not (no_packet q.out_queue); wire = [] }
    else record q { connected = false; writeable = false }
