-- ===== src/Modbus/Link.antt =====
-- Which results leave the connection up.
use ros2_wavemakers.Base.{
  Bool, Bool-cases, List, [], arith, false, inl, inr, length, refl, suc, true, u16, zero, ℕ, ◌+◌,
  ◌==◌, ◌≡◌, ◌⊎◌,
}
use ros2_wavemakers.Modbus.Client.{
  Client, Incoming, Received, all_of, arrived, await_reply, drop_socket, failed, finish, lost,
  read_body, read_frame, recv_exact, send_all, timed_out, transact, transmit,
}
use ros2_wavemakers.Modbus.Names.{
  Status, bad_argument, modbus_exception, not_connected, okay, protocol_error, socket_error,
  timeout,
}
use ros2_wavemakers.Modbus.Socket.{SocketOps}
use ros2_wavemakers.Modbus.Wire.{Header, frame, parse_header}

-- What the connection is after a transaction that began connected and ended with the status. A
-- protocol error says nothing: a malformed frame closes the socket, too many stale ones do not.
abbrev pub Link : Status → Bool → Type 0
Link okay on = on ≡ true
Link timeout on = on ≡ true
Link modbus_exception on = on ≡ true
Link socket_error on = on ≡ false
Link bad_argument on = on ≡ true
Link not_connected on = ⊥
Link protocol_error on = Unit

abbrev LinkAfter : Incoming → Bool → Type 0
LinkAfter (arrived rtid body) on = on ≡ true
LinkAfter (failed s) on = Link s on

Received-cases : (r : Received) → ((xs : List ℕ) × (r ≡ all_of xs)) ⊎ ((r ≡ timed_out) ⊎ (r ≡ lost))
Received-cases (all_of xs) = inl (xs, refl)
Received-cases timed_out = inr (inl refl)
Received-cases lost = inr (inr refl)

Incoming-cases :
    (f : Incoming)
    → ((t : ℕ) × (xs : List ℕ) × (f ≡ arrived t xs)) ⊎ ((s : Status) × (f ≡ failed s))
Incoming-cases (arrived t xs) = inl (t, xs, refl)
Incoming-cases (failed s) = inr (s, refl)

module _ {W : Type 0} (os : SocketOps W) where
  drop_socket-closes : (c : Client W) → (drop_socket os c).connected ≡ false
  unfolding drop_socket
  drop_socket-closes c = ground arith

  read_body-Link :
      (h : Header) (c : Client W)
      → c.connected ≡ true
      → LinkAfter (read_body os h c).0 (read_body os h c).1.connected
  unfolding read_body drop_socket
  read_body-Link h c on = ground arith

  read_frame-Link :
      (c : Client W)
      → c.connected ≡ true
      → LinkAfter (read_frame os c).0 (read_frame os c).1.connected
  unfolding read_frame
  read_frame-Link c on = elim (Received-cases (recv_exact os 7 7 [] c.world).0) [
    | inl (hdr, e) ↦
        rw (e, read_frame)
          (read_body-Link (parse_header hdr) (record c { world = (recv_exact os 7 7 [] c.world).1 })
            on)
    | inr (inl e) ↦ rw (e, read_frame) on
    | inr (inr e) ↦ rw (e, read_frame) (drop_socket-closes _)
  ]

  finish-Link :
      (fc room : ℕ) (body : List ℕ) (c : Client W)
      → c.connected ≡ true
      → Link (finish os fc room body c).0.0.status (finish os fc room body c).1.connected
  unfolding finish drop_socket
  finish-Link fc room body c on = ground arith

  await_reply-Link :
      (a tid fc room : ℕ) (c : Client W)
      → c.connected ≡ true
      → Link
          (await_reply os a tid fc room c).0.0.status
          (await_reply os a tid fc room c).1.connected
  unfolding await_reply
  await_reply-Link zero tid fc room c on = tt
  await_reply-Link (suc a) tid fc room c on =
      let c' = (read_frame os c).1 in
      elim (Incoming-cases (read_frame os c).0) [
        | inl (rtid, body, e) ↦
            let up : c'.connected ≡ true = rw e at (read_frame-Link c on) in
            elim (Bool-cases (rtid == tid)) [
              | inl ours ↦ rw (e, await_reply) (rw ours (finish-Link fc room body c' up))
              | inr other ↦ rw (e, await_reply) (rw other (await_reply-Link a tid fc room c' up))
            ]
        | inr (s, e) ↦ rw (e, await_reply) (rw e at (read_frame-Link c on))
      ]

  transmit-Link :
      (pdu : List ℕ) (fc room : ℕ) (c : Client W)
      → c.connected ≡ true
      → Link (transmit os pdu fc room c).0.0.status (transmit os pdu fc room c).1.connected
  unfolding transmit
  transmit-Link pdu fc room c on =
      let tid = u16 (c.tid + 1) in
      let request = frame tid c.unit_id pdu in
      elim (Bool-cases (send_all os (length request) request c.world).0) [
        | inl sent ↦
            rw (sent, transmit)
              (await_reply-Link 4 tid fc room
                (record c { tid = tid; world = (send_all os (length request) request c.world).1 })
                on)
        | inr cut ↦ rw (cut, transmit) (drop_socket-closes _)
      ]

  -- A transaction on a live connection that succeeds, times out, is answered by an exception or
  -- is refused for its length leaves the connection up; one that ends in a socket error has
  -- closed it; none reports that there is no connection.
  pub transact-Link :
      (pdu : List ℕ) (fc room : ℕ) (c : Client W)
      → c.connected ≡ true
      → Link (transact os pdu fc room c).0.0.status (transact os pdu fc room c).1.connected
  unfolding transact
  transact-Link pdu fc room c on = ground (arith, transmit-Link pdu fc room c on)
