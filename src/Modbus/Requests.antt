-- ===== src/Modbus/Requests.antt =====
-- The requests against a server that answers: what arrives is what the server sent.
use ros2_wavemakers.Base.{
  All, Bool, List, [], ap, arith, if◌then◌else◌, length, not, some, subst, take, take-length, true,
  u16, ℕ, ◌*◌, ◌++◌, ◌+◌, ◌<◌, ◌∷◌, ◌≡◌, ◌≤◌,
}
use ros2_wavemakers.Image.RegisterTrip.{IsWord, length-bytes_of, registers_of-bytes_of}
use ros2_wavemakers.Image.Registers.{bytes_of}
use ros2_wavemakers.Modbus.Client.{
  Client, await_reply, decode, drop_socket, finish, read_registers, send_all, transact, transmit,
}
use ros2_wavemakers.Modbus.Names.{failure, modbus_exception, socket_error, success}
use ros2_wavemakers.Modbus.Socket.{IsStream, SocketOps}
use ros2_wavemakers.Modbus.Transact.{
  IsMessage, IsStale, Message, await_reply-skips_stale, stream_of,
}
use ros2_wavemakers.Modbus.Wire.{
  decode_registers, frame, read_pdu, read_write_pdu, write_multiple_pdu,
}

finish_data :
    {W : Type 0} (os : SocketOps W) (fc cap : ℕ) (payload : List ℕ) (c : Client W)
    → fc < 128
    → length payload ≤ cap
    → finish os fc cap (fc ∷ payload) c ≡ ((success, payload), c)
unfolding finish
finish_data os fc cap payload c h k = ground (arith, take-length payload)

finish_exception :
    {W : Type 0} (os : SocketOps W) (fc cap code : ℕ) (c : Client W)
    → fc < 128
    → finish os fc cap ((fc + 128) ∷ code ∷ []) c
      ≡ ((record { status = modbus_exception; mb_exception = code }, []), c)
unfolding finish
finish_exception os fc cap code c h = ground arith

-- The payload of a reply to a read.
abbrev pub read_payload : List ℕ → List ℕ
read_payload regs = (length regs * 2) ∷ bytes_of regs

decode_registers_payload :
    (regs : List ℕ)
    → All IsWord regs
    → decode_registers (length regs) (read_payload regs) ≡ some regs
unfolding decode_registers
decode_registers_payload regs h =
    ground (arith, length-bytes_of regs, payload, registers_of-bytes_of regs h)
  where
    payload : take (length regs * 2) (bytes_of regs) ≡ bytes_of regs
    payload =
        subst (λ k. take k (bytes_of regs) ≡ bytes_of regs) (length-bytes_of regs)
          (take-length (bytes_of regs))

-- A write of up to 123 registers makes a PDU of a length that `transact` accepts.
write_multiple_pdu_bounds :
    (addr : ℕ) (src : List ℕ)
    → length src ≤ 123
    → (1 ≤ length (write_multiple_pdu addr src)) × (length (write_multiple_pdu addr src) ≤ 253)
unfolding write_multiple_pdu
write_multiple_pdu_bounds addr src h = omega (arith, length-bytes_of src)

-- An FC 23 request that writes up to 121 registers makes a PDU of a length that `transact` accepts.
read_write_pdu_bounds :
    (read_addr read_count write_addr : ℕ) (src : List ℕ)
    → length src ≤ 121
    → (1 ≤ length (read_write_pdu read_addr read_count write_addr src))
      × (length (read_write_pdu read_addr read_count write_addr src) ≤ 253)
unfolding read_write_pdu
read_write_pdu_bounds read_addr read_count write_addr src h = omega (arith, length-bytes_of src)

decode_payload :
    {W : Type 0} (os : SocketOps W) (regs : List ℕ) (c : Client W)
    → All IsWord regs
    → decode os (length regs) ((success, read_payload regs), c) ≡ ((success, regs), c)
unfolding decode
decode_payload os regs c h = rw (decode_registers_payload regs h, decode)

read_registers_passes :
    {W : Type 0} (os : SocketOps W) (fc addr count : ℕ) (c : Client W)
    → 1 ≤ count
    → count ≤ 125
    → read_registers os fc addr count c
      ≡ decode os count (transact os (read_pdu fc addr count) fc 256 c)
unfolding read_registers
read_registers_passes os fc addr count c lo hi = ground arith

module _ {W : Type 0} (os : SocketOps W) where
  -- The next transaction id.
  abbrev pub next_tid : Client W → ℕ
  next_tid c = u16 (c.tid + 1)

  abbrev pub request_of : Client W → List ℕ → List ℕ
  request_of c pdu = frame (next_tid c) c.unit_id pdu

  -- The request went out whole, and then the stream holds fewer than four stale replies, the
  -- reply with our transaction id, and whatever follows.
  pub record Answered (s : IsStream os) (c : Client W) (pdu reply rest : List ℕ) : Type 0 where
    pub online : c.connected ≡ true
    pub accepted : W
    pub sent : send_all os (length (request_of c pdu)) (request_of c pdu) c.world ≡ (true, accepted)
    pub stale : List Message
    pub unit : ℕ
    pub few : length stale < 4
    pub others : IsStale os (next_tid c) stale
    pub arrives : s.incoming accepted ≡ stream_of stale ++ (frame (next_tid c) unit reply ++ rest)

  transmit_sends :
      (pdu : List ℕ) (fc room : ℕ) (c : Client W) (w : W)
      → send_all os (length (request_of c pdu)) (request_of c pdu) c.world ≡ (true, w)
      → transmit os pdu fc room c
        ≡ await_reply os 4 (next_tid c) fc room (record c { tid = next_tid c; world = w })
  unfolding transmit
  transmit_sends pdu fc room c w e =
      ap
        (λ (p : Bool × W).
          if not p.0
          then (
            (failure socket_error, []),
            drop_socket os (record c { tid = next_tid c; world = p.1 }),
          )
          else await_reply os 4 (next_tid c) fc room (record c { tid = next_tid c; world = p.1 }))
        e

  transact_opens :
      (pdu : List ℕ) (fc room : ℕ) (c : Client W)
      → c.connected ≡ true
      → 1 ≤ length pdu
      → length pdu ≤ 253
      → transact os pdu fc room c ≡ transmit os pdu fc room c
  unfolding transact
  transact_opens pdu fc room c on lo hi = ground arith

  transact-Answered :
      (s : IsStream os) (pdu : List ℕ) (fc room : ℕ) (c : Client W) (reply rest : List ℕ)
      → 1 ≤ length pdu
      → length pdu ≤ 253
      → 1 ≤ length reply
      → length reply ≤ 253
      → Answered s c pdu reply rest
      → (w : W) × (transact os pdu fc room c
          ≡ finish os fc room reply (record c { tid = next_tid c; world = w }))
        × (s.incoming w ≡ rest)
  transact-Answered s pdu fc room c reply rest lo hi rlo rhi a =
      let m : Message = record { id = next_tid c; unit = a.unit; pdu = reply } in
      let v : IsMessage m = record { id_word = omega arith; some_pdu = rlo; small_pdu = rhi } in
      let (w, e, i) =
        await_reply-skips_stale os s 4 fc room a.stale m rest
          (record c { tid = next_tid c; world = a.accepted }) a.few a.others v a.arrives in
      (
        w,
        rw
            (
              transact_opens pdu fc room c a.online lo hi,
              transmit_sends pdu fc room c a.accepted a.sent,
            )
            e,
        i,
      )

  -- A read of 1 to 125 registers returns exactly the words that the server put into the reply
  -- with our transaction id, after skipping at most three late replies to earlier requests; the
  -- transaction id advances and the connection stays up.
  pub read_registers-Answered :
      (s : IsStream os) (fc addr : ℕ) (regs : List ℕ) (c : Client W) (rest : List ℕ)
      → fc < 128
      → 1 ≤ length regs
      → length regs ≤ 125
      → All IsWord regs
      → Answered s c (read_pdu fc addr (length regs)) (fc ∷ read_payload regs) rest
      → (w : W) × (read_registers os fc addr (length regs) c
          ≡ ((success, regs), record c { tid = next_tid c; world = w }))
        × (s.incoming w ≡ rest)
  unfolding read_pdu
  read_registers-Answered s fc addr regs c rest f lo hi ws a =
      let size = length-bytes_of regs in
      let (w, e, i) =
        transact-Answered s (read_pdu fc addr (length regs)) fc 256 c (fc ∷ read_payload regs) rest
          (omega arith) (omega arith) (omega arith) (omega arith) a in
      let payload =
        finish_data os fc 256 (read_payload regs) (record c { tid = next_tid c; world = w }) f
          (omega arith) in
      let c' = record c { tid = next_tid c; world = w } in
      (
        w,
        rw (
          read_registers_passes os fc addr (length regs) c lo hi,
          e,
          payload,
          decode_payload os regs c' ws,
        ),
        i,
      )
