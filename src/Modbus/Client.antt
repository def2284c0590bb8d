-- ===== src/Modbus/Client.antt =====
-- The client: connection, exact sends and receives, transactions and the five requests.
use ros2_wavemakers.Base.{
  Bool, List, String, [], drop, false, get_or, if◌then◌else◌, leb, length, ltb, none, not, or_bit,
  slice, some, suc, true, u16, zero, ℕ, ◌++◌, ◌+◌, ◌-◌, ◌==◌, ◌||◌, ◌∷◌,
}
use ros2_wavemakers.Modbus.Names.{
  Result, Status, bad_argument, failure, is_okay, modbus_exception, not_connected, okay,
  protocol_error, socket_error, succeeded, success, timeout,
}
use ros2_wavemakers.Modbus.Socket.{
  SocketOps, broken, established, no_socket, received, refused, select_failed, select_timeout,
  so_error, would_block,
}
use ros2_wavemakers.Modbus.Wire.{
  Header, acceptable, decode_registers, frame, parse_header, read_pdu, read_write_pdu,
  write_multiple_pdu, write_single_pdu,
}

pub record Client (W : Type 0) : Type 0 where
  -- `sock_ != kInvalid`.
  pub connected : Bool
  pub tid : ℕ
  pub unit_id : ℕ
  pub timeout_ms : ℕ
  pub world : W

-- The three results of `recv_exact`: 1, 0 and -1.
pub data Received : Type 0 where
  all_of : List ℕ → Received
  timed_out : Received
  lost : Received

-- What reading one frame gives: its transaction id and body, or the status to return.
pub data Incoming : Type 0 where
  arrived : ℕ → List ℕ → Incoming
  failed : Status → Incoming

-- A result with the bytes or registers stored through the destination pointer.
abbrev pub Reply : Type 0
Reply = Result × List ℕ

module _ {W : Type 0} (os : SocketOps W) where
  open os use {send, recv, shutdown_socket, close_socket, resolve, dial}

  unfoldable pub is_connected : Client W → Bool
  is_connected c = c.connected

  unfoldable pub drop_socket : Client W → Client W
  drop_socket c =
      if c.connected then record c { connected = false; world = close_socket c.world } else c

  unfoldable pub disconnect : Client W → Client W
  disconnect c =
      if c.connected then drop_socket (record c { world = shutdown_socket c.world }) else c

  unfoldable pub set_unit_id : ℕ → Client W → Client W
  set_unit_id id c = record c { unit_id = id }

  unfoldable pub set_timeout : ℕ → Client W → Client W
  set_timeout ms c = record c { timeout_ms = ms }

  -- The loop over the addresses; `last` is the status returned if none answers. A failed attempt
  -- closes its own socket.
  unfoldable pub dial_all : List ℕ → ℕ → Status → W → Status × W
  dial_all [] ms last w = (last, w)
  dial_all (a ∷ as') ms last w =
      let (result, w') = dial a ms w in
      let next = λ (s : Status). dial_all as' ms s w' in
      elim result [
        | no_socket ↦ next last
        | refused ↦ next last
        | select_timeout ↦ next timeout
        | select_failed ↦ next socket_error
        | so_error ↦ next last
        | established ↦ (okay, w')
      ]

  unfoldable pub connect : String → ℕ → ℕ → Client W → Result × Client W
  unfolding disconnect dial_all
  connect host port ms c =
      let c1 = record (disconnect c) { timeout_ms = ms } in
      let (addresses, w) = resolve host port c1.world in
      let (status, w') = dial_all addresses ms socket_error w in
      if is_okay status
      then (success, record c1 { connected = true; world = w' })
      else (failure status, record c1 { world = w' })

  -- Each round hands over one byte at least, so as many rounds as bytes are enough.
  unfoldable pub send_all : ℕ → List ℕ → W → Bool × W
  send_all fuel [] w = (true, w)
  send_all zero (b ∷ bs) w = (false, w)
  send_all (suc fuel) (b ∷ bs) w =
      let (taken, w') = send (b ∷ bs) w in
      elim taken [ zero ↦ (false, w') | suc n ↦ send_all fuel (drop n bs) w' ]

  -- `n` bytes are still wanted; each round gets one at least.
  unfoldable pub recv_exact : ℕ → ℕ → List ℕ → W → Received × W
  recv_exact fuel zero got w = (all_of got, w)
  recv_exact zero (suc n) got w = (lost, w)
  recv_exact (suc fuel) (suc n) got w =
      let (r, w') = recv (suc n) w in
      elim r [
        | received bytes ↦ elim bytes [
          | [] ↦ (lost, w')
          | b ∷ bs ↦ recv_exact fuel (n - length bs) (got ++ (b ∷ bs)) w'
        ]
        | would_block ↦ (timed_out, w')
        | broken ↦ (lost, w')
      ]

  unfoldable pub finish : ℕ → ℕ → List ℕ → Client W → Reply × Client W
  finish fc resp_cap body c =
      let rfc = get_or body 0 0 in
      let n = length body - 1 in
      if rfc == or_bit fc 7
      then (
        (
          record {
            status = modbus_exception;
            mb_exception = if leb 2 (length body) then get_or body 1 0 else 0;
          },
          [],
        ),
        c,
      )
      else if not (rfc == fc)
      then ((failure protocol_error, []), drop_socket c)
      else if ltb resp_cap n
      then ((failure protocol_error, []), drop_socket c)
      else ((success, slice 1 n body), c)

  -- The body of a frame whose header has been read.
  unfoldable pub read_body : Header → Client W → Incoming × Client W
  read_body h c =
      if not (acceptable h)
      then (failed protocol_error, drop_socket c)
      else let (r, w) = recv_exact (h.rlen - 1) (h.rlen - 1) [] c.world in
        let c' = record c { world = w } in
        elim r [
          | timed_out ↦ (failed timeout, c')
          | lost ↦ (failed socket_error, drop_socket c')
          | all_of body ↦ (arrived h.rtid body, c')
        ]

  -- One frame: header, then body.
  unfoldable pub read_frame : Client W → Incoming × Client W
  read_frame c =
      let (r, w) = recv_exact 7 7 [] c.world in
      let c' = record c { world = w } in
      elim r [
        | timed_out ↦ (failed timeout, c')
        | lost ↦ (failed socket_error, drop_socket c')
        | all_of hdr ↦ read_body (parse_header hdr) c'
      ]

  -- The loop over at most `attempts` frames; one whose transaction id is not ours is skipped.
  unfoldable pub await_reply : ℕ → ℕ → ℕ → ℕ → Client W → Reply × Client W
  await_reply zero tid fc resp_cap c = ((failure protocol_error, []), c)
  await_reply (suc attempts) tid fc resp_cap c =
      let (f, c') = read_frame c in
      let next = await_reply attempts tid fc resp_cap c' in
      elim f [
        | failed s ↦ ((failure s, []), c')
        | arrived rtid body ↦ if not (rtid == tid) then next else finish fc resp_cap body c'
      ]

  -- The part of `transact` behind its argument checks.
  unfoldable pub transmit : List ℕ → ℕ → ℕ → Client W → Reply × Client W
  transmit pdu fc resp_cap c =
      let tid = u16 (c.tid + 1) in
      let request = frame tid c.unit_id pdu in
      let (sent, w) = send_all (length request) request c.world in
      let c' = record c { tid = tid; world = w } in
      if not sent
      then ((failure socket_error, []), drop_socket c')
      else await_reply 4 tid fc resp_cap c'

  unfoldable pub transact : List ℕ → ℕ → ℕ → Client W → Reply × Client W
  transact pdu fc resp_cap c =
      if not c.connected
      then ((failure not_connected, []), c)
      else if length pdu == 0 || ltb 253 (length pdu)
      then ((failure bad_argument, []), c)
      else transmit pdu fc resp_cap c

  -- The decoding of a reply to FC 3, 4 and 23.
  unfoldable pub decode : ℕ → Reply × Client W → Reply × Client W
  decode count ((r, resp), c) =
      if not (succeeded r) then ((r, []), c) else elim (decode_registers count resp) [
        | none ↦ ((failure protocol_error, []), c)
        | some regs ↦ ((success, regs), c)
      ]

  unfoldable pub read_registers : ℕ → ℕ → ℕ → Client W → Reply × Client W
  read_registers fc addr count c =
      if count == 0 || ltb 125 count
      then ((failure bad_argument, []), c)
      else decode count (transact (read_pdu fc addr count) fc 256 c)

  unfoldable pub read_holding_registers : ℕ → ℕ → Client W → Reply × Client W
  read_holding_registers addr count c = read_registers 0x03 addr count c

  unfoldable pub read_input_registers : ℕ → ℕ → Client W → Reply × Client W
  read_input_registers addr count c = read_registers 0x04 addr count c

  unfoldable pub write_single_register : ℕ → ℕ → Client W → Result × Client W
  write_single_register addr value c =
      let (reply, c') = transact (write_single_pdu addr value) 0x06 8 c in (reply.0, c')

  unfoldable pub write_multiple_registers : ℕ → List ℕ → Client W → Result × Client W
  write_multiple_registers addr src c =
      if length src == 0 || ltb 123 (length src)
      then (failure bad_argument, c)
      else let (reply, c') = transact (write_multiple_pdu addr src) 0x10 8 c in (reply.0, c')

  unfoldable pub read_write_multiple_registers : ℕ → ℕ → ℕ → List ℕ → Client W → Reply × Client W
  read_write_multiple_registers read_addr read_count write_addr src c =
      if read_count == 0 || ltb 125 read_count
      then ((failure bad_argument, []), c)
      else if length src == 0 || ltb 121 (length src)
      then ((failure bad_argument, []), c)
      else decode read_count
          (transact (read_write_pdu read_addr read_count write_addr src) 0x17 256 c)
