-- ===== src/Driver/ReadBack.antt =====
-- What a write to the output image stages is read back from it.
use ros2_wavemakers.Base.{String, arith, length, ok, ℤ, ◌≡◌, ◌≤◌}
use ros2_wavemakers.Driver.Registry.{tag, tag_checked}
use ros2_wavemakers.Driver.Staging.{read_output_int, stage, touch, write_int}
use ros2_wavemakers.Driver.State.{Driver}
use ros2_wavemakers.Image.Access.{ProcessImage}
use ros2_wavemakers.Image.Bounds.{Fits}
use ros2_wavemakers.Image.Frame.{IsWrite-length, set_int-IsWrite}
use ros2_wavemakers.Image.TagTrip.{Holds, get_int-set_int}
use ros2_wavemakers.Image.Types.{Area, FloatOps, Tag, size_bytes}

module _ {D C : Type 0} where
  pub tag_checked-same :
      (name : String) (a : Area) (d e : Driver D C)
      → e.tags ≡ d.tags
      → tag_checked name a e ≡ tag_checked name a d
  unfolding tag_checked tag
  tag_checked-same name a d e h = rw h

  pub stage-rest :
      (t : Tag D) (image : ProcessImage) (d : Driver D C)
      → let e = stage t image d in
        (e.outputs ≡ image)
        × (e.tags ≡ d.tags)
        × (e.inputs ≡ d.inputs)
        × (e.online ≡ d.online)
        × (e.status ≡ d.status)
        × (e.client ≡ d.client)
  unfolding stage touch
  stage-rest t image d = ground arith

module _ (fp : FloatOps) {C : Type 0} where
  open fp use {Double}

  -- A write that succeeded: the tag is read back as the integer, and what is not the output
  -- image or its dirty span is as before.
  pub record Wrote (name : String) (v : ℤ) (d : Driver Double C) : Type 0 where
    pub after : Driver Double C
    pub returns : write_int fp name v d ≡ ok after
    pub reads : read_output_int fp name after ≡ ok v
    pub same_length : length after.outputs ≡ length d.outputs
    pub same_tags : after.tags ≡ d.tags
    pub same_inputs : after.inputs ≡ d.inputs
    pub same_online : after.online ≡ d.online
    pub same_status : after.status ≡ d.status
    pub same_client : after.client ≡ d.client

  -- For an output tag of an integer or bit type inside the output image, with a bit index of at most
  -- 7, and an integer that its type holds, the write succeeds and the integer is read back; tags, inputs, status, online flag and connection are
  -- not touched.
  pub write_int-Wrote :
      (name : String) (v : ℤ) (d : Driver Double C) {t : Tag Double}
      → tag_checked name Area.output d ≡ ok t
      → Fits d.outputs t.byte_offset (size_bytes t)
      → t.bit ≤ 7
      → Holds t.type v
      → Wrote name v d
  write_int-Wrote name v d {t} found fits b holds =
      let (image, set, get) = get_int-set_int fp d.outputs t v fits b holds in
      let (outs, tags, ins, online, status, client) = stage-rest t image d in
      record {
        after = stage t image d;
        returns = unfold write_int in rw (found, set);
        reads =
            unfold read_output_int in
            rw (tag_checked-same name Area.output d (stage t image d) tags, found, outs) get;
        same_length = rw outs (IsWrite-length (set_int-IsWrite fp d.outputs t v set));
        same_tags = tags;
        same_inputs = ins;
        same_online = online;
        same_status = status;
        same_client = client;
      }
