-- ===== src/Modbus/Tests.antt =====
-- The client's theorems at a concrete stream with one late reply in front.
use ros2_wavemakers.Base.{List, [], arith, refl, true, ℕ, ◌++◌, ◌∷◌, ◌≡◌}
use ros2_wavemakers.Image.Registers.{bytes_of}
use ros2_wavemakers.Modbus.Client.{
  Client, all_of, await_reply, finish, read_registers, recv_exact, send_all, transact,
}
use ros2_wavemakers.Modbus.Link.{Link, transact-Link}
use ros2_wavemakers.Modbus.Names.{success}
use ros2_wavemakers.Modbus.Requests.{Answered, read_payload, read_registers-Answered, request_of}
use ros2_wavemakers.Modbus.Samples.{Pipe, pipe, pipe_stream}
use ros2_wavemakers.Modbus.Stream.{recv_exact-IsStream}
use ros2_wavemakers.Modbus.Transact.{
  IsMessage, Message, await_reply-skips_stale, bytes_in, stream_of,
}
use ros2_wavemakers.Modbus.Wire.{frame, read_pdu}

abbrev two_words : List ℕ
two_words = 0x1234 ∷ 0xABCD ∷ []

abbrev late : Message
late = record { id = 7; unit = 1; pdu = 3 ∷ 2 ∷ 9 ∷ 9 ∷ [] }

abbrev ours : Message
ours = record { id = 8; unit = 1; pdu = 4 ∷ read_payload two_words }

late-IsMessage : IsMessage late
late-IsMessage = record { id_word = omega arith; some_pdu = omega arith; small_pdu = omega arith }

ours-IsMessage : IsMessage ours
unfolding bytes_of
ours-IsMessage = record { id_word = omega arith; some_pdu = omega arith; small_pdu = omega arith }

abbrev filled : Pipe
filled = record { inbox = stream_of (late ∷ []) ++ (bytes_in ours ++ (1 ∷ [])); outbox = [] }

abbrev ready : Client Pipe
ready = record { connected = true; tid = 7; unit_id = 1; timeout_ms = 500; world = filled }

skips_late :
    (w : Pipe) × (await_reply pipe 2 8 4 256 ready
      ≡ finish pipe 4 256 ours.pdu (record ready { world = w }))
    × (w.inbox ≡ 1 ∷ [])
skips_late =
    await_reply-skips_stale pipe pipe_stream 2 4 256 (late ∷ []) ours (1 ∷ []) ready (omega arith)
      ((late-IsMessage, λ e. absurd (omega arith)), tt) ours-IsMessage refl

abbrev request : List ℕ
request = request_of pipe ready (read_pdu 4 768 2)

sends_request : (send_all pipe 12 request filled).0 ≡ true
unfolding send_all frame read_pdu
sends_request = refl

collects :
    (w : Pipe) × (recv_exact pipe 5 3 [] (record { inbox = 1 ∷ 2 ∷ 3 ∷ 4 ∷ []; outbox = [] })
      ≡ (all_of (1 ∷ 2 ∷ 3 ∷ []), w))
    × (w.inbox ≡ 4 ∷ [])
collects =
    recv_exact-IsStream pipe pipe_stream 5 3 [] (1 ∷ 2 ∷ 3 ∷ []) (4 ∷ [])
      (record { inbox = 1 ∷ 2 ∷ 3 ∷ 4 ∷ []; outbox = [] }) (omega arith) refl refl

answered : Answered pipe pipe_stream ready (read_pdu 4 768 2) (4 ∷ read_payload two_words) (1 ∷ [])
unfolding send_all frame read_pdu
answered = record {
  online = refl;
  accepted = record { inbox = filled.inbox; outbox = request };
  sent = refl;
  stale = late ∷ [];
  unit = 1;
  few = omega arith;
  others = ((late-IsMessage, λ e. absurd (omega arith)), tt);
  arrives = refl;
}

reads_two :
    (w : Pipe) × (read_registers pipe 4 768 2 ready
      ≡ ((success, two_words), record ready { tid = 8; world = w }))
    × (w.inbox ≡ 1 ∷ [])
reads_two =
    read_registers-Answered pipe pipe_stream 4 768 two_words ready (1 ∷ []) (omega arith)
      (omega arith) (omega arith) (omega arith, (omega arith, tt)) answered

stays_up :
    Link
      (transact pipe (read_pdu 4 768 2) 4 256 ready).0.0.status
      (transact pipe (read_pdu 4 768 2) 4 256 ready).1.connected
stays_up = transact-Link pipe (read_pdu 4 768 2) 4 256 ready refl
