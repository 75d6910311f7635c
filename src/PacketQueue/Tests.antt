-- ===== src/PacketQueue/Tests.antt =====
-- Concrete packets through the queues, and the theorems at them.
use ctdb.Base.{ℕ, ◌≡◌, refl, arith, true, false, List, [], ◌∷◌, map, concat, All}
use ctdb.PacketQueue.Input.{packet}
use ctdb.PacketQueue.Frames.{IsPacket}
use ctdb.PacketQueue.Word.{load32, store32, bytes32}
use ctdb.PacketQueue.Loop.{fresh, event_loop, event_loop-receives}
use ctdb.PacketQueue.Output.{
  wrote, again, failed, Pkt, Output, align, padded, ctdb_queue_send, write_now, enqueue,
  write_packets, queue_io_write, ctdb_queue_set_fd,
}
use ctdb.PacketQueue.Sending.{Sound}
use ctdb.PacketQueue.Outbound.{
  unconnected, Step, Reached, Always, BetweenPackets, start, step, Tidy, Reached-Sound,
  Reached-Tidy, reconnect-partial,
}
use ctdb.PacketQueue.Delivery.{padded-IsPacket, Sends, Sends-received}

abbrev first_packet : List ℕ
first_packet = 4 ∷ 0 ∷ 0 ∷ 0 ∷ []

abbrev second_packet : List ℕ
second_packet = 6 ∷ 0 ∷ 0 ∷ 0 ∷ 9 ∷ 8 ∷ []

abbrev packets : List (List ℕ)
packets = first_packet ∷ second_packet ∷ []

packets-IsPacket : All IsPacket packets
unfolding load32
packets-IsPacket = ((refl, omega arith), ((refl, omega arith), tt))

-- Three bytes at a time
event_loop-receives_example :
    (event_loop (λ i. 2) (λ i. 5) 41 fresh (concat packets)).queue.calls ≡ map packet packets
event_loop-receives_example =
    event_loop-receives (λ i. 2) (λ i. 5) packets 41 packets-IsPacket (omega arith)

-- Five bytes are padded to eight.
padded_test : padded 8 (0 ∷ 0 ∷ 0 ∷ 0 ∷ 7 ∷ []) ≡ 8 ∷ 0 ∷ 0 ∷ 0 ∷ 7 ∷ 0 ∷ 0 ∷ 0 ∷ []
unfolding padded align store32 bytes32
padded_test = refl

abbrev message : List ℕ
message = 0 ∷ 0 ∷ 0 ∷ 0 ∷ 7 ∷ []

padded-IsPacket_example : IsPacket (padded 8 message)
padded-IsPacket_example =
    padded-IsPacket 8 message (omega arith) (omega arith) (unfold align in omega arith)

-- A packet is queued before there is a socket, five bytes of it are taken, and the next write fails.
abbrev queued : Output
queued = ctdb_queue_send 8 message again unconnected

abbrev connected : Output
connected = ctdb_queue_set_fd true queued

abbrev partly : Output
partly = queue_io_write (wrote 5 ∷ again ∷ []) connected

abbrev broken : Output
broken = queue_io_write (failed ∷ []) partly

broken-Reached : Reached BetweenPackets broken
unfolding ctdb_queue_send enqueue padded align store32 bytes32 queue_io_write write_packets
    ctdb_queue_set_fd
broken-Reached =
    step
      (step
        (step (step start (Step.send 8 message again padded-IsPacket_example)) (Step.connect refl))
        (Step.ready (wrote 5 ∷ again ∷ []) refl))
      (Step.ready (failed ∷ []) refl)

Reached-Sound_example : Sound broken
Reached-Sound_example = Reached-Sound broken-Reached

-- The socket is taken away after five bytes of the packet.
cut_off-Reached : Reached Always (ctdb_queue_set_fd false partly)
unfolding ctdb_queue_send enqueue padded align store32 bytes32 queue_io_write write_packets
    ctdb_queue_set_fd
cut_off-Reached =
    step
      (step
        (step (step start (Step.send 8 message again padded-IsPacket_example)) (Step.connect refl))
        (Step.ready (wrote 5 ∷ again ∷ []) refl))
      (Step.close tt)

Reached-Tidy_example : Tidy (ctdb_queue_set_fd false partly)
Reached-Tidy_example = Reached-Tidy cut_off-Reached

abbrev rest : Pkt
rest = record { bytes = 0 ∷ 0 ∷ 0 ∷ []; full_length = 8 }

partly-rest : partly.out_queue ≡ rest ∷ []
unfolding ctdb_queue_send enqueue padded align store32 bytes32 queue_io_write write_packets
    ctdb_queue_set_fd
partly-rest = refl

reconnect-partial_example :
    (queue_io_write (wrote 3 ∷ []) (ctdb_queue_set_fd true (ctdb_queue_set_fd false partly))).wire
    ≡ 0 ∷ 0 ∷ 0 ∷ []
reconnect-partial_example = reconnect-partial rest [] partly partly-rest (omega arith)

-- Two packets on one connection: three bytes of the first are taken at once.
abbrev both : Output
both = queue_io_write (wrote 5 ∷ wrote 8 ∷ []) (
    ctdb_queue_send 8 second_packet again
      (ctdb_queue_send 8 message (wrote 3) (ctdb_queue_set_fd true unconnected)))

both-Sends : Sends 8 (message ∷ second_packet ∷ []) both
both-Sends =
    Sends.ready (wrote 5 ∷ wrote 8 ∷ []) (tt, (tt, tt))
      (Sends.send {ps = message ∷ []} second_packet again tt
        (Sends.send {ps = []} message (wrote 3) tt Sends.opened))

Sends-received_example :
    (event_loop (λ i. 2) (λ i. 5) 65 fresh both.wire).queue.calls
    ≡ map packet (map (padded 8) (message ∷ second_packet ∷ []))
Sends-received_example =
    Sends-received (λ i. 2) (λ i. 5) 8 65 (omega arith)
      ((omega arith, unfold align in omega arith), ((omega arith, unfold align in omega arith), tt))
      both-Sends
      (unfold ctdb_queue_send write_now enqueue padded align store32 bytes32 queue_io_write
          write_packets ctdb_queue_set_fd in
        refl)
      (unfold ctdb_queue_send write_now enqueue padded align store32 bytes32 queue_io_write
          write_packets ctdb_queue_set_fd in
        omega arith)
