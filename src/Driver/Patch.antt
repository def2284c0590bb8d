-- ===== src/Driver/Patch.antt =====
-- A run of registers written over a memory, in one piece or in chunks.
use mathlib.Core.Path.{fun_ext}
use ros2_wavemakers.Base.{
  Bool-cases, List, [], ap, arith, drop, false, get_or, get_or-drop, get_or-take, if◌then◌else◌,
  inl, inr, leb, length, length-drop, length-take, ltb, min, refl, suc, take, true, u16, zero, ℕ,
  ◌&&◌, ◌+◌, ◌-◌, ◌<◌, ◌==◌, ◌∙◌, ◌∷◌, ◌≡◌, ◌≤◌, ◌⊎◌, EachBelow, EachBelow-take, EachBelow-drop,
}
use ros2_wavemakers.Driver.Transfer.{max_write_regs, send_chunk, send_loop}
use ros2_wavemakers.Modbus.Names.{succeeded}
use ros2_wavemakers.Modbus.Port.{IsDevice, ModbusPort}

-- The memory `old` with `rs` written from address `addr` on.
abbrev pub patched : (ℕ → ℕ) → ℕ → List ℕ → ℕ → ℕ
patched old addr rs a =
    if leb addr a && ltb a (addr + length rs) then get_or rs (a - addr) 0 else old a

pub patched-patched :
    (old : ℕ → ℕ) (addr k : ℕ) (rs : List ℕ) (a : ℕ)
    → k ≤ length rs
    → patched (patched old addr (take k rs)) (addr + k) (drop k rs) a ≡ patched old addr rs a
patched-patched old addr k rs a h = ground (
  arith,
  length-take k rs,
  length-drop k rs,
  get_or-take k (a - addr) 0 rs,
  get_or-drop k (a - (addr + k)) 0 rs,
)

-- The size of the next request, for what is left.
abbrev pub chunk_of : List ℕ → ℕ
chunk_of left = min max_write_regs (length left)

module _ {C : Type 0} (port : ModbusPort C) where
  send_loop_go :
      (fuel addr r : ℕ) (rs : List ℕ) (c : C)
      → succeeded (send_chunk port (u16 addr) (take (chunk_of (r ∷ rs)) (r ∷ rs)) c).0 ≡ true
      → send_loop port (suc fuel) addr (r ∷ rs) c
        ≡ send_loop port fuel
            (addr + chunk_of (r ∷ rs))
            (drop (chunk_of (r ∷ rs)) (r ∷ rs))
            (send_chunk port (u16 addr) (take (chunk_of (r ∷ rs)) (r ∷ rs)) c).1
  unfolding send_loop
  send_loop_go fuel addr r rs c e = rw e

  send_loop_stop :
      (fuel addr r : ℕ) (rs : List ℕ) (c : C)
      → succeeded (send_chunk port (u16 addr) (take (chunk_of (r ∷ rs)) (r ∷ rs)) c).0 ≡ false
      → send_loop port (suc fuel) addr (r ∷ rs) c
        ≡ send_chunk port (u16 addr) (take (chunk_of (r ∷ rs)) (r ∷ rs)) c
  unfolding send_loop
  send_loop_stop fuel addr r rs c e = rw e

module _ {C : Type 0} (port : ModbusPort C) (dev : IsDevice port) where
  open dev use {register}

  send_chunk-patched :
      (addr : ℕ) (rs : List ℕ) (c : C)
      → addr + length rs ≤ 65536
      → EachBelow 65536 rs
      → succeeded (send_chunk port addr rs c).0 ≡ true
      → (a : ℕ) → register (send_chunk port addr rs c).1 a ≡ patched (register c) addr rs a
  unfolding send_chunk
  send_chunk-patched addr [] c room w h a = dev.writes_multiple addr [] c room w h a
  send_chunk-patched addr (r ∷ []) c room w h a =
      dev.writes_single addr r c (omega arith) (w 0) h a ∙ one
    where
      one : (if a == addr then r else register c a) ≡ patched (register c) addr (r ∷ []) a
      one = ground arith
  send_chunk-patched addr (r ∷ s ∷ rs) c room w h a =
      dev.writes_multiple addr (r ∷ s ∷ rs) c room w h a

  -- On a device as Modbus describes it: a send loop with as much fuel as registers, whose addresses
  -- stay below 65536, whose words have 16 bits, and that reports success has written every register
  -- it was given, and no other.
  pub send_loop-patched :
      (fuel addr : ℕ) (rs : List ℕ) (c : C)
      → length rs ≤ fuel
      → addr + length rs ≤ 65536
      → EachBelow 65536 rs
      → succeeded (send_loop port fuel addr rs c).0 ≡ true
      → (a : ℕ) → register (send_loop port fuel addr rs c).1 a ≡ patched (register c) addr rs a
  send_loop-patched zero addr [] c f m w h a = unfold send_loop in ground arith
  send_loop-patched (suc fuel) addr [] c f m w h a = unfold send_loop in ground arith
  send_loop-patched zero addr (r ∷ rs) c f m w h a = absurd (omega arith)
  send_loop-patched (suc fuel) addr (r ∷ rs) c f m w h a =
      let left = r ∷ rs in
      let k = chunk_of left in
      let sent = send_chunk port (u16 addr) (take k left) c in
      elim (Bool-cases (succeeded sent.0)) [
        | inl good ↦
            let go = send_loop_go port fuel addr r rs c good in
            let here : u16 addr ≡ addr = omega arith in
            let size = length-drop k left in
            let after =
              send_loop-patched fuel (addr + k) (drop k left) sent.1 (omega arith) (omega arith)
                (EachBelow-drop 65536 k left w) (rw go at h) a in
            let first : (b : ℕ) → register sent.1 b ≡ patched (register c) addr (take k left) b =
              λ b.
                send_chunk-patched (u16 addr) (take k left) c (omega (arith, length-take k left))
                  (EachBelow-take 65536 k left (omega arith) w) good b
                ∙ ap (λ j. patched (register c) j (take k left) b) here in
            rw (go, after)
              (ap (λ old. patched old (addr + k) (drop k left) a) (fun_ext first)
                ∙ patched-patched (register c) addr k left a (omega arith))
        | inr failed' ↦ absurd (cc (send_loop_stop port fuel addr r rs c failed'))
      ]

  send_chunk-spares :
      (addr : ℕ) (rs : List ℕ) (c : C) (a : ℕ)
      → addr + length rs ≤ 65536
      → (a < addr) ⊎ (addr + length rs ≤ a)
      → register (send_chunk port addr rs c).1 a ≡ register c a
  unfolding send_chunk
  send_chunk-spares addr [] c a room h = dev.multiple_spares addr [] c a room h
  send_chunk-spares addr (r ∷ []) c a room h =
      dev.single_spares addr r c a (omega arith) (omega arith)
  send_chunk-spares addr (r ∷ s ∷ rs) c a room h = dev.multiple_spares addr (r ∷ s ∷ rs) c a room h

  -- However the send loop ends, it changes no register outside its range.
  pub send_loop-spares :
      (fuel addr : ℕ) (rs : List ℕ) (c : C) (a : ℕ)
      → addr + length rs ≤ 65536
      → (a < addr) ⊎ (addr + length rs ≤ a)
      → register (send_loop port fuel addr rs c).1 a ≡ register c a
  send_loop-spares zero addr [] c a m h = unfold send_loop in refl
  send_loop-spares (suc fuel) addr [] c a m h = unfold send_loop in refl
  send_loop-spares zero addr (r ∷ rs) c a m h = unfold send_loop in refl
  send_loop-spares (suc fuel) addr (r ∷ rs) c a m h =
      let left = r ∷ rs in
      let k = chunk_of left in
      let sent = send_chunk port (u16 addr) (take k left) c in
      let size = length-take k left in
      let rest = length-drop k left in
      let first : register sent.1 a ≡ register c a =
        send_chunk-spares (u16 addr) (take k left) c a (omega arith) (omega arith) in
      elim (Bool-cases (succeeded sent.0)) [
        | inl good ↦ rw (send_loop_go port fuel addr r rs c good) (
            send_loop-spares fuel (addr + k) (drop k left) sent.1 a (omega arith) (omega arith)
            ∙ first)
        | inr bad ↦ rw (send_loop_stop port fuel addr r rs c bad) first
      ]
