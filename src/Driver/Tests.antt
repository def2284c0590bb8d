-- ===== src/Driver/Tests.antt =====
-- The driver's theorems at a concrete gateway.
use ros2_wavemakers.Base.{
  [], arith, if◌then◌else◌, none, ok, pos, refl, replicate, true, ℕ, ◌*◌, ◌<◌, ◌==◌, ◌∷◌, ◌≡◌, ◌≤◌,
  EachBelow, zero, suc,
}
use ros2_wavemakers.Driver.Exchange.{clear_span, flush_span, flush_span_with}
use ros2_wavemakers.Driver.Keep.{IsSound, write_int-IsSound}
use ros2_wavemakers.Driver.LostWrite.{flush-loses_write}
use ros2_wavemakers.Driver.Patch.{patched, send_loop-patched}
use ros2_wavemakers.Driver.ReadBack.{Wrote, write_int-Wrote}
use ros2_wavemakers.Driver.Registry.{lookup, same_area, tag, tag_checked}
use ros2_wavemakers.Driver.Samples.{
  Gateway, gateway, gateway_device, small_driver, small_driver-IsSized, small_driver-IsSynced,
  small_driver-IsTagged, small_driver-bytes,
}
use ros2_wavemakers.Driver.Staging.{stage, touch, write, write_int}
use ros2_wavemakers.Driver.State.{Driver}
use ros2_wavemakers.Driver.Sync.{held}
use ros2_wavemakers.Driver.Transfer.{send_chunk, send_loop}
use ros2_wavemakers.Driver.Words.{word_at}
use ros2_wavemakers.Image.Access.{ProcessImage}
use ros2_wavemakers.Image.Bounds.{Fits}
use ros2_wavemakers.Image.Registers.{registers_of, store_to_registers}
use ros2_wavemakers.Image.Samples.{fixed_point, word_tag}
use ros2_wavemakers.Image.Tags.{set_int, set_scaled}
use ros2_wavemakers.Image.Types.{Area, size_bytes}
use ros2_wavemakers.Modbus.Names.{success}

abbrev newer : ProcessImage
newer = 0x78 ∷ 0x56 ∷ replicate 10 0

abbrev sent_memory : ℕ → ℕ
sent_memory a = if a == 2048 then 0x3412 else 0

abbrev after_loss : Driver ℕ Gateway
after_loss = record small_driver {
  outputs = newer;
  client = record { up = true; memory = sent_memory };
  dirty_lo = 0;
  dirty_hi = 0;
}

loses :
    flush_span_with gateway (λ e. e) (stage word_tag newer) 0 2 small_driver
    ≡ ok (success, after_loss)
unfolding flush_span_with clear_span stage touch size_bytes send_loop send_chunk store_to_registers
    registers_of
loses = refl

loses_write :
    (after_loss.outputs ≡ newer)
    × (flush_span gateway after_loss ≡ none)
    × ((i : ℕ)
        → 0 ≤ i
        → i < 1
        → held gateway gateway_device after_loss after_loss.client i
          ≡ word_at small_driver.outputs i)
unfolding size_bytes
loses_write =
    flush-loses_write gateway gateway_device small_driver word_tag newer small_driver-IsSized
      small_driver-bytes refl (omega arith) (omega arith) (omega arith) success after_loss loses
      refl

two_words : EachBelow 65536 (5 ∷ 6 ∷ [])
two_words zero = omega arith
two_words (suc zero) = omega arith
two_words (suc (suc i)) = omega arith

patches :
    (send_loop gateway 2 2048 (5 ∷ 6 ∷ []) small_driver.client).1.memory 2049
    ≡ patched (λ a. 0) 2048 (5 ∷ 6 ∷ []) 2049
unfolding send_loop send_chunk
patches =
    send_loop-patched gateway gateway_device 2 2048 (5 ∷ 6 ∷ []) small_driver.client (omega arith)
      (omega arith) two_words refl 2049

small_driver-IsSound : IsSound gateway gateway_device small_driver
small_driver-IsSound = record {
  sized = small_driver-IsSized;
  tagged = small_driver-IsTagged;
  synced = small_driver-IsSynced;
}

abbrev rewritten : Driver ℕ Gateway
rewritten = record small_driver { outputs = 0x0D ∷ 0xF0 ∷ replicate 10 0 }

rewrites : write_int fixed_point "word" (pos 0xF00D) small_driver ≡ ok rewritten
unfolding write_int tag_checked tag lookup same_area set_int stage touch size_bytes
rewrites = refl

rewritten-IsSound : IsSound gateway gateway_device rewritten
rewritten-IsSound =
    write_int-IsSound fixed_point gateway gateway_device "word" (pos 0xF00D) small_driver
      small_driver-IsSound rewrites

scales : write fixed_point "word" (0xF00D * 10000) small_driver ≡ ok rewritten
unfolding write tag_checked tag lookup same_area set_scaled stage touch size_bytes
scales = refl

reads_back : Wrote fixed_point "word" (pos 0xF00D) small_driver
reads_back =
    write_int-Wrote fixed_point "word" (pos 0xF00D) small_driver found fits (omega arith)
      (omega arith)
  where
    found : tag_checked "word" Area.output small_driver ≡ ok word_tag
    found = unfold tag_checked tag lookup same_area in refl

    fits : Fits small_driver.outputs 0 (size_bytes word_tag)
    fits = unfold size_bytes in record { inside = omega arith; size = omega arith }
