-- ===== src/Drive/Control.antt =====
-- The control word, the fault latch, the cycle callback and the waiting loop.
use Prim.Native.String.{◌++◌ as ◌+++◌}
use ros2_wavemakers.Base.{
  Bool, Outcome, String, false, if◌then◌else◌, leb, not, ok, pos, suc, test_bit, true, zero, ℕ, ℤ,
  ◌%◌, ◌&&◌, ◌+◌, ◌/◌, ◌>>=◌, ◌^◌, ◌∷◌,
}
use ros2_wavemakers.Drive.Status.{diag_number, slave_live, status_word}
use ros2_wavemakers.Drive.Types.{Formats, IndraDrive, class1_error, tag_name}
use ros2_wavemakers.Driver.Staging.{read_output_int, write_int}
use ros2_wavemakers.Image.Types.{FloatOps}

module _ (fp : FloatOps) (fmt : Formats (fp.Double)) {C : Type 0} where
  open fp use {Double}

  unfoldable pub set_control : ℕ → IndraDrive Double C → Outcome (IndraDrive Double C)
  set_control cw s = do
    d ← write_int fp (tag_name s "ControlWord") (pos cw) s.driver
    ok (record s { driver = d })

  -- The control word staged last.
  unfoldable pub staged_control : IndraDrive Double C → Outcome ℤ
  staged_control s = read_output_int fp (tag_name s "ControlWord") s.driver

  -- The part of `latch_fault` after the control word.
  unfoldable pub latch_flags : String → IndraDrive Double C → IndraDrive Double C
  latch_flags why s = if s.fault then record s { enabled = false; fault = true } else record s {
    enabled = false;
    fault = true;
    fault_reason = why;
    callbacks = if s.has_callback then why ∷ s.callbacks else s.callbacks;
  }

  unfoldable pub latch_fault : String → IndraDrive Double C → Outcome (IndraDrive Double C)
  latch_fault why s = do s1 ← set_control 0 s; ok (latch_flags why s1)

  unfoldable pub on_cycle : Bool → IndraDrive Double C → Outcome (IndraDrive Double C)
  on_cycle good s =
      if not good
      then (do
        s1 ← set_control 0 s
        (if s1.enabled then latch_fault "Modbus link to gateway lost" s1 else ok s1))
      else if not s.enabled
      then ok s
      else if not (slave_live s)
      then latch_fault "drive dropped out of PROFIBUS data exchange" s
      else (do
        sw ← status_word fp s
        (if not (test_bit sw class1_error) then ok s else do
          d ← diag_number fp s
          latch_fault (fmt.drive_error (d / 2 ^ 16 % 16) (d % 2 ^ 16)) s))

  unfoldable pub fail : String → IndraDrive Double C → Outcome (Bool × IndraDrive Double C)
  fail why s = ok (false, record s { last_error = why })

  -- One round of the loop of `wait_for`: `retry` is what follows where the predicate does not
  -- hold, for the status word read.
  unfoldable pub wait_round :
      String
      → (ℕ → Bool)
      → Bool
      → IndraDrive Double C
      → (ℕ → Outcome (Bool × IndraDrive Double C))
      → Outcome (Bool × IndraDrive Double C)
  wait_round what pred stoppable s retry =
      if stoppable && s.abort
      then fail ("aborted while waiting for " +++ what) s
      else if stoppable && s.fault
      then fail ("fault while waiting for " +++ what +++ ": " +++ s.fault_reason) s
      else if not s.driver.online
      then fail ("gateway offline while waiting for " +++ what) s
      else (do sw ← status_word fp s; (if pred sw then ok (true, s) else retry sw))

  -- `elapse` is what happens to the state while the thread sleeps: the clock, and what the other
  -- threads do. On no fuel the loop ends as it does at its deadline.
  unfoldable pub wait_loop :
      (IndraDrive Double C → IndraDrive Double C)
      → String
      → (ℕ → Bool)
      → Bool
      → ℕ
      → ℕ
      → IndraDrive Double C
      → Outcome (Bool × IndraDrive Double C)
  wait_loop elapse what pred stoppable deadline zero s =
      wait_round what pred stoppable s (λ sw. fail (fmt.timeout_waiting what sw) s)
  wait_loop elapse what pred stoppable deadline (suc n) s =
      let rest = wait_loop elapse what pred stoppable deadline n (elapse s) in
      wait_round what pred stoppable s
        (λ sw. if leb deadline s.now then fail (fmt.timeout_waiting what sw) s else rest)

  -- Every sleep is of 20 ms, so one round more than the timeout has whole sleeps is enough.
  unfoldable pub wait_for :
      (IndraDrive Double C → IndraDrive Double C)
      → String
      → ℕ
      → (ℕ → Bool)
      → Bool
      → IndraDrive Double C
      → Outcome (Bool × IndraDrive Double C)
  wait_for elapse what timeout_ms pred stoppable s =
      wait_loop elapse what pred stoppable (s.now + timeout_ms) (timeout_ms / 20 + 1) s
