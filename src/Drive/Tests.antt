-- ===== src/Drive/Tests.antt =====
-- The drive's theorems at concrete drives.
use ros2_wavemakers.Base.{
  Bool, Outcome, arith, err, false, inr, ok, pos, refl, true, ℕ, ◌+◌, ◌/◌, ◌>>=◌, ◌≡◌,
}
use ros2_wavemakers.Drive.Commands.{
  enable, enable_follow, enable_step, enable_torque, halt_with, move_to, park, write_tag,
}
use ros2_wavemakers.Drive.Control.{
  latch_fault, latch_flags, on_cycle, set_control, staged_control, wait_for, wait_loop, wait_round,
}
use ros2_wavemakers.Drive.Enabling.{Enabled, Moved, enable-Enabled, move_to-Moved}
use ros2_wavemakers.Drive.Races.{halt-revives}
use ros2_wavemakers.Drive.Safety.{Secured, on_cycle-Secured}
use ros2_wavemakers.Drive.Samples.{
  broken_drive, broken_drive-IsReady, plain_formats, running_drive, tick,
}
use ros2_wavemakers.Drive.Status.{
  diag_number, following, in_operating_mode, live_bit, position_deg, power_ready, slave_live,
  standstill, status_word, with_torque,
}
use ros2_wavemakers.Drive.Types.{IndraDrive, drive_tag, drive_tags}
use ros2_wavemakers.Drive.Waiting.{Reached, Sleeps, wait_for-Reached, wait_for-fuel}
use ros2_wavemakers.Driver.Registry.{lookup, same_area, tag, tag_checked}
use ros2_wavemakers.Driver.Samples.{Gateway}
use ros2_wavemakers.Driver.Staging.{read, read_int, stage, touch, write, write_int}
use ros2_wavemakers.Image.Samples.{fixed_point}
use ros2_wavemakers.Image.Tags.{get_int, get_scaled, set_int, set_scaled}
use ros2_wavemakers.Image.Types.{size_bytes}

abbrev after : Outcome (Bool × IndraDrive ℕ Gateway) → IndraDrive ℕ Gateway
after (ok p) = p.1
after (err e) = running_drive

broken_word : status_word fixed_point broken_drive ≡ ok 0xE002
unfolding status_word read_int tag_checked tag lookup same_area get_int drive_tags drive_tag
broken_word = refl

broken_diag : diag_number fixed_point broken_drive ≡ ok 0
unfolding diag_number read_int tag_checked tag lookup same_area get_int drive_tags drive_tag
broken_diag = refl

secures :
    (s' : IndraDrive ℕ Gateway) × (on_cycle fixed_point plain_formats true broken_drive ≡ ok s')
    × Secured fixed_point plain_formats broken_drive s'
secures =
    on_cycle-Secured fixed_point plain_formats true broken_drive broken_drive-IsReady broken_diag
      (inr (refl, inr (0xE002, broken_word, refl)))

abbrev lost_drive : IndraDrive ℕ Gateway
lost_drive = after (do s ← on_cycle fixed_point plain_formats false broken_drive; ok (true, s))

loses_link : on_cycle fixed_point plain_formats false broken_drive ≡ ok lost_drive
unfolding on_cycle set_control latch_fault latch_flags write_int tag_checked tag lookup same_area
    set_int stage touch size_bytes drive_tags drive_tag
loses_link = refl

revives :
    (s2 : IndraDrive ℕ Gateway) × (halt_with fixed_point plain_formats tick
        (λ s. lost_drive)
        broken_drive
      ≡ ok s2)
    × (s2.fault ≡ true)
    × (s2.enabled ≡ false)
    × (staged_control fixed_point plain_formats s2 ≡ ok (pos 0x8002))
revives =
    halt-revives fixed_point plain_formats tick broken_drive lost_drive (λ s. lost_drive)
      broken_drive-IsReady refl loses_link refl

tick-Sleeps : Sleeps fixed_point plain_formats tick
tick-Sleeps s = omega arith

waits_enough :
    wait_loop fixed_point plain_formats tick "stop" standstill true 100
      (100 / 20 + 1 + 50)
      running_drive
    ≡ wait_for fixed_point plain_formats tick "stop" 100 standstill true running_drive
waits_enough =
    wait_for-fuel fixed_point plain_formats tick "stop" 100 standstill true 50 running_drive
      tick-Sleeps

waits :
    wait_for fixed_point plain_formats tick "power" 100 power_ready true running_drive
    ≡ ok (true, running_drive)
unfolding wait_for wait_loop wait_round power_ready status_word read_int tag_checked tag lookup
    same_area get_int drive_tags drive_tag
waits = refl

reaches : Reached fixed_point plain_formats tick power_ready true running_drive
reaches =
    wait_for-Reached fixed_point plain_formats tick "power" 100 power_ready true running_drive waits

abbrev enabled_drive : IndraDrive ℕ Gateway
enabled_drive = after (enable fixed_point plain_formats tick running_drive)

enables : enable fixed_point plain_formats tick running_drive ≡ ok (true, enabled_drive)
unfolding enable enable_step enable_torque enable_follow park write_tag wait_for wait_loop
    wait_round set_control status_word position_deg in_operating_mode power_ready with_torque
    following slave_live live_bit read_int read write write_int tag_checked tag lookup same_area
    get_int get_scaled set_int set_scaled stage touch size_bytes drive_tags drive_tag
enables = refl

enable_end : Enabled fixed_point plain_formats tick running_drive true enabled_drive
enable_end = enable-Enabled fixed_point plain_formats tick running_drive enables

abbrev moved_drive : IndraDrive ℕ Gateway
moved_drive =
    after (
      move_to fixed_point plain_formats tick 300000 200000
        (record running_drive { enabled = true }))

moves :
    move_to fixed_point plain_formats tick 300000 200000 (record running_drive { enabled = true })
    ≡ ok (true, moved_drive)
unfolding move_to write_tag write tag_checked tag lookup same_area set_scaled stage touch size_bytes
    drive_tags drive_tag
moves = refl

move_end :
    Moved fixed_point plain_formats tick 300000 200000
      (record running_drive { enabled = true })
      true
      moved_drive
move_end =
    move_to-Moved fixed_point plain_formats tick 300000 200000
      (record running_drive { enabled = true }) moves
