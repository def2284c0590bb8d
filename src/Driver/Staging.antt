-- ===== src/Driver/Staging.antt =====
-- Reading the input image and staging the output image: the methods of the application's threads.
-- None of them touches the connection.
use ros2_wavemakers.Base.{
  Bool, List, Outcome, String, if◌then◌else◌, leb, length, max, min, not, ok, throw_if,
  wrong_length, ℕ, ℤ, ◌+◌, ◌==◌, ◌>>=◌, ◌>>◌, ◌%◌, ◌^◌,
}
use ros2_wavemakers.Driver.Registry.{tag_checked}
use ros2_wavemakers.Driver.State.{Driver}
use ros2_wavemakers.Image.Access.{ProcessImage, get_raw, set_raw}
use ros2_wavemakers.Image.Tags.{get_bool, get_int, get_scaled, set_bool, set_int, set_scaled}
use ros2_wavemakers.Image.Types.{Area, FloatOps, Tag, size_bytes}

module _ {D C : Type 0} where
  -- The dirty bytes are those from `dirty_lo` up to, and without, `dirty_hi`; the sum is a `size_t`.
  unfoldable pub touch : ℕ → ℕ → Driver D C → Driver D C
  touch byte_offset len d =
      let hi = (byte_offset + len) % 2 ^ 64 in
      if leb d.dirty_hi d.dirty_lo
      then record d { dirty_lo = byte_offset; dirty_hi = hi }
      else record d { dirty_lo = min d.dirty_lo byte_offset; dirty_hi = max d.dirty_hi hi }

  -- The end of every write: the new image is kept, and the tag's bytes are dirty.
  unfoldable pub stage : Tag D → ProcessImage → Driver D C → Driver D C
  stage t image d = touch t.byte_offset (size_bytes t) (record d { outputs = image })

module _ (fp : FloatOps) {C : Type 0} where
  open fp use {Double}

  unfoldable pub read : String → Driver Double C → Outcome Double
  read name d = do t ← tag_checked name Area.input d; get_scaled fp d.inputs t

  unfoldable pub read_int : String → Driver Double C → Outcome ℤ
  read_int name d = do t ← tag_checked name Area.input d; get_int fp d.inputs t

  unfoldable pub read_bool : String → Driver Double C → Outcome Bool
  read_bool name d = do t ← tag_checked name Area.input d; get_bool fp d.inputs t

  unfoldable pub read_raw : String → Driver Double C → Outcome (List ℕ)
  read_raw name d = do
    t ← tag_checked name Area.input d
    get_raw d.inputs t.byte_offset (size_bytes t)

  unfoldable pub write : String → Double → Driver Double C → Outcome (Driver Double C)
  write name engineering_value d = do
    t ← tag_checked name Area.output d
    image ← set_scaled fp d.outputs t engineering_value
    ok (stage t image d)

  unfoldable pub write_int : String → ℤ → Driver Double C → Outcome (Driver Double C)
  write_int name raw d = do
    t ← tag_checked name Area.output d
    image ← set_int fp d.outputs t raw
    ok (stage t image d)

  unfoldable pub write_bool : String → Bool → Driver Double C → Outcome (Driver Double C)
  write_bool name v d = do
    t ← tag_checked name Area.output d
    image ← set_bool fp d.outputs t v
    ok (stage t image d)

  unfoldable pub write_raw : String → List ℕ → Driver Double C → Outcome (Driver Double C)
  write_raw name bytes d = do
    t ← tag_checked name Area.output d
    throw_if (not (length bytes == size_bytes t)) (wrong_length name)
    image ← set_raw d.outputs t.byte_offset bytes
    ok (stage t image d)

  unfoldable pub read_output : String → Driver Double C → Outcome Double
  read_output name d = do t ← tag_checked name Area.output d; get_scaled fp d.outputs t

  unfoldable pub read_output_int : String → Driver Double C → Outcome ℤ
  read_output_int name d = do t ← tag_checked name Area.output d; get_int fp d.outputs t

  unfoldable pub read_output_bool : String → Driver Double C → Outcome Bool
  read_output_bool name d = do t ← tag_checked name Area.output d; get_bool fp d.outputs t
