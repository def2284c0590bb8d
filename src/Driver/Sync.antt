-- ===== src/Driver/Sync.antt =====
-- The gateway's registers against the output image.
use ros2_wavemakers.Base.{
  Bool-cases, List, ap, arith, false, get_or, if◌then◌else◌, inl, inr, leb, length, ltb, not, ok,
  true, ℕ, ◌&&◌, ◌*◌, ◌+◌, ◌-◌, ◌/◌, ◌<◌, ◌∙◌, ◌≡◌, ◌≤◌, ◌⊎◌, EachBelow, EachBelow-inside,
}
use ros2_wavemakers.Driver.Exchange.{clear_span, flush_span_with, write_failed}
use ros2_wavemakers.Driver.Patch.{patched, send_loop-patched, send_loop-spares}
use ros2_wavemakers.Driver.State.{Driver}
use ros2_wavemakers.Driver.Transfer.{send_loop}
use ros2_wavemakers.Driver.Words.{store-words, word_at}
use ros2_wavemakers.Image.Access.{ProcessImage}
use ros2_wavemakers.Image.Bounds.{Fits}
use ros2_wavemakers.Modbus.Names.{Result, succeeded, success}
use ros2_wavemakers.Modbus.Port.{IsDevice, ModbusPort}

-- The output area has the configured size and lies within the register space; the dirty bytes
-- lie within the area.
pub record IsSized {D C : Type 0} (d : Driver D C) : Type 0 where
  pub area : length d.outputs ≡ d.cfg.output_word_count * 2
  pub space : d.cfg.output_base_reg + d.cfg.output_word_count ≤ 65536
  pub dirty : d.dirty_hi ≤ length d.outputs

-- The word shares no byte with the dirty span.
abbrev pub IsCleanWord : {D C : Type 0} → Driver D C → ℕ → Type 0
IsCleanWord d i = (d.dirty_hi ≤ d.dirty_lo) ⊎ ((2 * i + 2 ≤ d.dirty_lo) ⊎ (d.dirty_hi ≤ 2 * i))

patched-words :
    (old : ℕ → ℕ) (base first n last : ℕ) (regs : List ℕ) (img : ProcessImage) (i : ℕ)
    → length regs ≡ n
    → first + n ≡ last
    → ((j : ℕ) → j < n → get_or regs j 0 ≡ word_at img (first + j))
    → patched old (base + first) regs (base + i)
      ≡ (if leb first i && ltb i last then word_at img i else old (base + i))
patched-words old base first n last regs img i l e each =
    elim (Bool-cases (leb first i && ltb i last)) [
      | inl inside ↦
          let here : (first ≤ i) × (i < last) = ground arith in
          let offset : base + i - (base + first) ≡ i - first = omega arith in
          let covered : (leb (base + first) (base + i)
                && ltb (base + i) (base + first + length regs))
              ≡ true =
            ground arith in
          let back : first + (i - first) ≡ i = omega arith in
          rw (inside, covered, offset) (each (i - first) (omega arith) ∙ ap (word_at img) back)
      | inr outside ↦
          let spared : (leb (base + first) (base + i)
                && ltb (base + i) (base + first + length regs))
              ≡ false =
            ground arith in
          rw (outside, spared)
    ]

module _ {D C : Type 0} (port : ModbusPort C) (dev : IsDevice port) where
  open dev use {register}

  -- The gateway's register for word `i` of the output area.
  abbrev pub held : Driver D C → C → ℕ → ℕ
  held d c i = register c (d.cfg.output_base_reg + i)

  -- Where nothing is dirty, the gateway holds what the image holds.
  abbrev pub IsSynced : Driver D C → Type 0
  IsSynced d =
      (i : ℕ)
      → i < d.cfg.output_word_count
      → IsCleanWord d i
      → held d d.client i ≡ word_at d.outputs i

  -- How `flush_span_with` ends, for the outcome of the send loop.
  abbrev pub ends :
      (Driver D C → Driver D C) → ℕ → ℕ → Driver D C → Result × C → Result × Driver D C
  ends gap lo hi d sent =
      let d2 = gap (record d { client = sent.1 }) in
      if not (succeeded sent.0)
      then (sent.0, write_failed port sent.0 d2)
      else (success, clear_span port lo hi d2)

  -- What a pass over the bytes from `lo` up to `hi` did: it returned as described by `ends`; if
  -- the send loop succeeded, the gateway holds the words of the span as they were when the pass
  -- read them; in any case it holds what it held elsewhere.
  pub record Sent (gap : Driver D C → Driver D C) (lo hi : ℕ) (d : Driver D C) : Type 0 where
    pub result : Result
    pub client : C
    pub returns : flush_span_with port (λ e. e) gap lo hi d ≡ ok (ends gap lo hi d (result, client))
    pub fresh :
        succeeded result ≡ true
        → (i : ℕ) → lo / 2 ≤ i
        → i < (hi + 1) / 2
        → held d client i ≡ word_at d.outputs i
    pub spared : (i : ℕ) → (i < lo / 2) ⊎ ((hi + 1) / 2 ≤ i) → held d client i ≡ held d d.client i

  pub flush_span_with-Sent :
      (gap : Driver D C → Driver D C) (lo hi : ℕ) (d : Driver D C)
      → IsSized d
      → EachBelow 256 d.outputs
      → lo < hi
      → hi ≤ length d.outputs
      → Sent gap lo hi d
  unfolding flush_span_with
  flush_span_with-Sent gap lo hi d s bytes some' inside =
      let first = lo / 2 in
      let n = (hi + 1) / 2 - first in
      let fits : Fits d.outputs (first * 2) (n * 2) = record {
        inside = omega (arith, s.area, inside);
        size = omega (arith, s.area, s.space);
      } in
      let (regs, e, l, each) = store-words d.outputs first n fits in
      let base = d.cfg.output_base_reg in
      let room : base + first + length regs ≤ 65536 = omega (arith, s.area, s.space, inside, l) in
      let words : EachBelow 65536 regs = EachBelow-inside 65536 regs (omega arith) (λ j k.
        let high = bytes (2 * (first + j)) in
        let low = bytes (2 * (first + j) + 1) in rw (each j (omega arith)) (omega arith)) in
      let sent = send_loop port (length regs) (base + first) regs d.client in
      record {
        result = sent.0;
        client = sent.1;
        returns = rw e;
        fresh = λ good i p q.
            let within : (leb first i && ltb i ((hi + 1) / 2)) ≡ true = ground arith in
            send_loop-patched port dev (length regs) (base + first) regs d.client (omega arith) room
              words good (base + i)
            ∙ patched-words (register d.client) base first n ((hi + 1) / 2) regs d.outputs i l
                (omega arith) each
            ∙ rw within;
        spared = λ i away.
            send_loop-spares port dev (length regs) (base + first) regs d.client (base + i) room
              (omega arith);
      }
