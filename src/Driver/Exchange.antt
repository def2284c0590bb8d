-- ===== src/Driver/Exchange.antt =====
-- The poll thread: connecting, flushing outputs, reading inputs and status, one cycle.
use Prim.Native.String.{◌++◌ as ◌+++◌}
use ros2_wavemakers.Base.{
  Bool, Option, Outcome, String, [], false, if◌then◌else◌, leb, length, ltb, none, not, ok, some,
  true, u64, ℕ, ◌&&◌, ◌*◌, ◌+◌, ◌-◌, ◌/◌, ◌==◌, ◌>>=◌,
}
use ros2_wavemakers.Driver.State.{Driver, GatewayConfig}
use ros2_wavemakers.Driver.Transfer.{read_loop, send_loop}
use ros2_wavemakers.Image.Registers.{load_from_registers, store_to_registers}
use ros2_wavemakers.Modbus.Names.{Result, is_broken, message, succeeded, success}
use ros2_wavemakers.Modbus.Port.{ModbusPort}

module _ {D C : Type 0} (port : ModbusPort C) where
  unfoldable pub mark_outputs_dirty : Driver D C → Driver D C
  mark_outputs_dirty d = record d { dirty_lo = 0; dirty_hi = length d.outputs }

  unfoldable pub note_error : Result → String → Driver D C → Driver D C
  note_error r what d = record d {
    stats = record (d.stats) { last_error = what +++ ": " +++ message r };
  }

  unfoldable pub ensure_connected : Driver D C → Result × Driver D C
  ensure_connected d =
      if port.connected d.client
      then (success, d)
      else let (r, c) = port.open_connection d.cfg.host d.cfg.port d.cfg.timeout_ms d.client in
        if not (succeeded r)
        then (r, note_error r "connect" (record d { client = c; online = false }))
        else let c' =
            port.set_transaction_timeout d.cfg.timeout_ms (port.set_unit d.cfg.unit_id c) in
          let stats' = record (d.stats) { reconnects = u64 (d.stats.reconnects + 1) } in
          (success, mark_outputs_dirty (record d { client = c'; stats = stats' }))

  -- The bytes to send: `none` where nothing changed.
  unfoldable pub flush_span : Driver D C → Option (ℕ × ℕ)
  flush_span d =
      if d.cfg.write_only_dirty
      then (if leb d.dirty_hi d.dirty_lo then none else some (d.dirty_lo, d.dirty_hi))
      else some (0, length d.outputs)

  -- A broken connection is closed, any other failure leaves it open.
  unfoldable pub close_if_broken : Result → Driver D C → Driver D C
  close_if_broken r d =
      if is_broken r.status then record d { client = port.close_connection d.client } else d

  unfoldable pub write_failed : Result → Driver D C → Driver D C
  write_failed r d =
      let counted = record d {
        stats = record (d.stats) { write_errors = u64 (d.stats.write_errors + 1) };
      } in
      close_if_broken r (note_error r "write outputs" counted)

  -- The last locked region of `flush_outputs`, for the span that was sent.
  unfoldable pub clear_span : ℕ → ℕ → Driver D C → Driver D C
  clear_span lo hi d =
      if leb lo d.dirty_lo && leb d.dirty_hi hi
      then record d { dirty_lo = 0; dirty_hi = 0 }
      else if ltb d.dirty_lo hi && ltb hi d.dirty_hi
      then record d { dirty_lo = hi }
      else d

  -- `flush_outputs` for a span. `gap1` and `gap2` are what the other threads do while the mutex
  -- is free: between choosing the span and reading the registers, and while they are on the wire.
  unfoldable pub flush_span_with :
      (Driver D C → Driver D C)
      → (Driver D C → Driver D C)
      → ℕ
      → ℕ
      → Driver D C
      → Outcome (Result × Driver D C)
  flush_span_with gap1 gap2 lo hi d = do
    let first_word = lo / 2
    let last_word = (hi + 1) / 2
    let word_count = last_word - first_word
    let d1 = gap1 d
    regs ← store_to_registers d1.outputs word_count (first_word * 2)
    let sent = send_loop port (length regs) (d.cfg.output_base_reg + first_word) regs d1.client
    let d2 = gap2 (record d1 { client = sent.1 })
    ok (
        if not (succeeded sent.0)
        then (sent.0, write_failed sent.0 d2)
        else (success, clear_span lo hi d2))

  unfoldable pub flush_outputs_with :
      (Driver D C → Driver D C)
      → (Driver D C → Driver D C)
      → Driver D C
      → Outcome (Result × Driver D C)
  flush_outputs_with gap1 gap2 d =
      if length d.outputs == 0 then ok (success, d) else elim (flush_span d) [
        | none ↦ ok (success, d)
        | some span ↦ flush_span_with gap1 gap2 span.0 span.1 d
      ]

  -- With no other thread at work.
  unfoldable pub flush_outputs : Driver D C → Outcome (Result × Driver D C)
  flush_outputs d = flush_outputs_with (λ e. e) (λ e. e) d

  unfoldable pub read_failed : Result → Driver D C → Driver D C
  read_failed r d =
      let counted = record d {
        stats = record (d.stats) { read_errors = u64 (d.stats.read_errors + 1) };
      } in
      close_if_broken r (note_error r "read inputs" counted)

  unfoldable pub read_inputs : Driver D C → Outcome (Result × Driver D C)
  read_inputs d =
      if length d.inputs == 0
      then ok (success, d)
      else let words = d.cfg.input_word_count in
        let reader = if d.cfg.input_uses_fc4 then port.read_input else port.read_holding in
        let (reply, c) = read_loop reader words d.cfg.input_base_reg words [] d.client in
        let d1 = record d { client = c } in
        if not (succeeded reply.0) then ok (reply.0, read_failed reply.0 d1) else do
          image ← load_from_registers d1.inputs reply.1 0
          ok (success, record d1 { inputs = image; have_data = true })

  unfoldable pub read_status : Driver D C → Result × Driver D C
  read_status d =
      if d.cfg.status_word_count == 0
      then (success, d)
      else let words = d.cfg.status_word_count in
        let reader = if d.cfg.status_uses_fc4 then port.read_input else port.read_holding in
        let (reply, c) = read_loop reader words d.cfg.status_base_reg words [] d.client in
        let d1 = record d { client = c } in
        if not (succeeded reply.0)
        then (reply.0, close_if_broken reply.0 (note_error reply.0 "read status" d1))
        else (success, record d1 { status = reply.1 })

  unfoldable pub read_all : Driver D C → Outcome (Result × Driver D C)
  read_all d = do
    done ← read_inputs d
    ok (if not (succeeded done.0) then done else read_status done.1)

  unfoldable pub exchange : Driver D C → Outcome (Result × Driver D C)
  exchange d = do
    flushed ← flush_outputs d
    (if not (succeeded flushed.0) then ok flushed else read_all flushed.1)

  -- One round of `poll_loop` up to the callback: its `ok` and `last`, and the driver. `us` is the
  -- time that the cycle took.
  unfoldable pub count_cycle : Bool → ℕ → Driver D C → Driver D C
  count_cycle good us d =
      let counted = record (d.stats) { cycles = u64 (d.stats.cycles + 1); last_cycle_us = us } in
      record d { stats = if good then record counted { last_error = "" } else counted }

  unfoldable pub poll_cycle : ℕ → Driver D C → Outcome (Bool × Result × Driver D C)
  poll_cycle us d =
      let (last, d1) = ensure_connected d in
      if not (succeeded last)
      then ok (false, last, count_cycle false us (record d1 { have_data = false }))
      else (do
        exchanged ← exchange d1
        let good = succeeded exchanged.0
        ok (good, exchanged.0, count_cycle good us (record (exchanged.1) { online = good })))

-- How long the loop waits after a round.
unfoldable pub wait_ms : Bool → GatewayConfig → ℕ
wait_ms good cfg = if good then cfg.poll_interval_ms else cfg.reconnect_ms
