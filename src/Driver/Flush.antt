-- ===== src/Driver/Flush.antt =====
-- `flush_outputs` brings the gateway up to the output image.
use ros2_wavemakers.Base.{false, length, ok, true, ℕ, ◌<◌, ◌≡◌, ◌≤◌}
use ros2_wavemakers.Driver.Exchange.{flush_outputs}
use ros2_wavemakers.Driver.State.{Driver}
use ros2_wavemakers.Driver.Sync.{IsSynced, held}
use ros2_wavemakers.Driver.Words.{word_at}
use ros2_wavemakers.Modbus.Names.{Result, succeeded}
use ros2_wavemakers.Modbus.Port.{IsDevice, ModbusPort}

module _ {D C : Type 0} (port : ModbusPort C) (dev : IsDevice port) where
  -- The gateway holds the whole output image.
  abbrev pub HoldsAll : Driver D C → C → Type 0
  HoldsAll d c = (i : ℕ) → i < d.cfg.output_word_count → held port dev d c i ≡ word_at d.outputs i

  -- How a flush ended, from `d`: nothing is thrown; the image and the sizes are kept; on success
  -- the gateway holds the whole image and nothing is dirty, on failure the dirty span is kept for
  -- the next try, and what was clean still agrees.
  pub record Flushed (d : Driver D C) : Type 0 where
    pub result : Result
    pub after : Driver D C
    pub returns : flush_outputs port d ≡ ok (result, after)
    pub same_image : after.outputs ≡ d.outputs
    pub same_cfg : after.cfg ≡ d.cfg
    pub complete :
        succeeded result ≡ true
        → HoldsAll d after.client
          × (after.dirty_hi ≤ after.dirty_lo)
          × (after.dirty_hi ≤ length d.outputs)
    pub retry :
        succeeded result ≡ false → (after.dirty_lo ≡ d.dirty_lo) × (after.dirty_hi ≡ d.dirty_hi)
    pub partial :
        succeeded result ≡ false
        → d.cfg.write_only_dirty ≡ true
        → port.connected after.client ≡ true
        → IsSynced port dev after
