-- ===== src/PacketQueue/Input.antt =====
-- common/ctdb_io.c: `queue_io_read` and `queue_process`, which cut what arrives into packets. Memory is
-- always had.
use Prim.Native.Nat.{min}
use ctdb.Base.{
  ℕ, ◌-◌, Bool, true, false, not, List, [], ◌∷◌, ◌++◌, ◌==◌, ltb, if◌then◌else◌, length, take, drop,
}
use ctdb.PacketQueue.Word.{load32}

-- QUEUE_BUFFER_SIZE
abbrev pub queue_buffer_size : ℕ
queue_buffer_size = 16384

-- What the callback is called with: a packet, or NULL for a dead connection.
pub data Callback : Type 0 where
  packet : List ℕ → Callback
  dead : Callback

-- The input side of `struct ctdb_queue`. `contents` are the first `buffer.length` bytes of the buffer,
-- `allocated` says that its data is not NULL, `scheduled` that the immediate event is pending, and
-- `calls` are the calls of the callback, in order.
pub record Input : Type 0 where
  pub contents : List ℕ
  pub allocated : Bool
  pub size : ℕ
  pub extend : ℕ
  pub scheduled : Bool
  pub calls : List Callback

unfoldable pub call : Callback → Input → Input
call c q = record q { calls = q.calls ++ c ∷ [] }

-- What is behind the packet stays, and an event is scheduled for it; a large buffer that is empty goes.
unfoldable pub keep_rest : List ℕ → Input → Input
keep_rest rest q =
    if ltb 0 (length rest)
    then record q { contents = rest; scheduled = true }
    else if ltb queue_buffer_size q.size
    then record q { contents = rest; allocated = false; size = 0 }
    else record q { contents = rest }

unfoldable pub extract : ℕ → Input → Input
extract pkt_size q =
    call (Callback.packet (take pkt_size q.contents)) (keep_rest (drop pkt_size q.contents) q)

unfoldable pub queue_process : Input → Input
queue_process q =
    let pkt_size = load32 q.contents in
    if ltb (length q.contents) 4
    then q
    else if pkt_size == 0
    then call Callback.dead q
    else if ltb (length q.contents) pkt_size
    then (if ltb queue_buffer_size pkt_size then record q { extend = pkt_size } else q)
    else extract pkt_size q

-- The immediate event: it is not pending any more when its handler runs.
unfoldable pub queue_process_event : Input → Input
queue_process_event q = queue_process (record q { scheduled = false })

-- The buffer is allocated, or extended.
unfoldable pub prepare : Input → Input
prepare q =
    if not q.allocated
    then record q { allocated = true; size = queue_buffer_size }
    else if ltb 0 q.extend
    then record q { size = q.extend; extend = 0 }
    else q

-- The queue after a read, with the bytes that are still in the socket.
pub record Read : Type 0 where
  pub queue : Input
  pub unread : List ℕ

-- FIONREAD says that `num_ready` bytes can be read; `read` gives `nread` of them at most, and fails if
-- it gives none.
unfoldable pub queue_io_read : (num_ready nread : ℕ) → Input → List ℕ → Read
queue_io_read num_ready nread q unread =
    if num_ready == 0
    then record { queue = call Callback.dead q; unread = unread }
    else (let p = prepare q in
        let count = min num_ready (p.size - length p.contents) in
        let got = min nread count in
        if count == 0
        then record { queue = queue_process p; unread = unread }
        else if got == 0
        then record { queue = call Callback.dead p; unread = unread }
        else record {
          queue = queue_process (record p { contents = p.contents ++ take got unread });
          unread = drop got unread;
        })
