-- ===== src/Driver/LostWrite.antt =====
-- A write staged while its span is on the wire.
use ros2_wavemakers.Base.{
  Bool-cases, ap, arith, inl, inr, none, ok, ok-injective, refl, sym, true, ℕ, ◌+◌, ◌/◌, ◌<◌, ◌∙◌,
  ◌≡◌, ◌≤◌, EachBelow, ◌%◌, ◌^◌,
}
use ros2_wavemakers.Driver.Exchange.{clear_span, flush_span, flush_span_with}
use ros2_wavemakers.Driver.Staging.{stage, touch}
use ros2_wavemakers.Driver.State.{Driver}
use ros2_wavemakers.Driver.Sync.{IsSized, ends, flush_span_with-Sent, held}
use ros2_wavemakers.Driver.Words.{word_at}
use ros2_wavemakers.Image.Access.{ProcessImage}
use ros2_wavemakers.Image.Types.{Tag, size_bytes}
use ros2_wavemakers.Modbus.Names.{Result, succeeded}
use ros2_wavemakers.Modbus.Port.{IsDevice, ModbusPort}

module _ {D C : Type 0} (port : ModbusPort C) (dev : IsDevice port) where
  clear_span-stage :
      (d : Driver D C) (t : Tag D) (image : ProcessImage)
      → d.dirty_lo < d.dirty_hi
      → d.dirty_lo ≤ t.byte_offset
      → t.byte_offset + size_bytes t ≤ d.dirty_hi
      → d.dirty_hi < 2 ^ 64
      → clear_span port d.dirty_lo d.dirty_hi (stage t image d)
        ≡ record d { outputs = image; dirty_lo = 0; dirty_hi = 0 }
  unfolding clear_span stage touch
  clear_span-stage d t image lt lo hi few =
      let whole : (t.byte_offset + size_bytes t) % 2 ^ 64 ≡ t.byte_offset + size_bytes t =
        omega arith in
      rw whole (ground arith)

  -- On a device as Modbus describes it, with an output image of bytes of the configured size whose
  -- registers end at 65536 at the latest, the driver sends only what changed and something is dirty; while those bytes are on the wire
  -- another thread stages a new image at a tag whose bytes lie within the span being sent. If the
  -- flush succeeds, the span is marked clean although the gateway holds the words read before
  -- that write: where the new image differs in a word of the span, the gateway is out of date, and
  -- the next flush finds nothing to send.
  pub flush-loses_write :
      (d : Driver D C) (t : Tag D) (image : ProcessImage)
      → IsSized d
      → EachBelow 256 d.outputs
      → d.cfg.write_only_dirty ≡ true
      → d.dirty_lo < d.dirty_hi
      → d.dirty_lo ≤ t.byte_offset
      → t.byte_offset + size_bytes t ≤ d.dirty_hi
      → (r : Result) (d' : Driver D C)
      → flush_span_with port (λ e. e) (stage t image) d.dirty_lo d.dirty_hi d ≡ ok (r, d')
      → succeeded r ≡ true
      → (d'.outputs ≡ image)
        × (flush_span port d' ≡ none)
        × ((i : ℕ)
            → d.dirty_lo / 2 ≤ i
            → i < (d.dirty_hi + 1) / 2
            → held port dev d' d'.client i ≡ word_at d.outputs i)
  flush-loses_write d t image s bytes mode lt lo hi r d' e good =
      let sent =
        flush_span_with-Sent port dev (stage t image) d.dirty_lo d.dirty_hi d s bytes lt s.dirty in
      let d2 = record d { client = sent.client } in
      let both : ends port dev (stage t image) d.dirty_lo d.dirty_hi d (sent.result, sent.client)
          ≡ (r, d') =
        ok-injective (sym sent.returns ∙ e) in
      elim (Bool-cases (succeeded sent.result)) [
        | inl fine ↦
            let cleared : clear_span port d.dirty_lo d.dirty_hi (stage t image d2) ≡ d' =
              ap (λ (p : Result × Driver D C). p.1) (rw fine at both) in
            let final : d' ≡ record d2 { outputs = image; dirty_lo = 0; dirty_hi = 0 } =
              sym cleared
              ∙ clear_span-stage d2 t image lt lo hi (omega (arith, s.area, s.space, s.dirty)) in
            rw final (refl, unfold flush_span in ground arith, λ i p q. sent.fresh fine i p q)
        | inr bad ↦
            let same : sent.result ≡ r = ap (λ (p : Result × Driver D C). p.0) (rw bad at both) in
            absurd (cc)
      ]
