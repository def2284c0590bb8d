-- ===== src/Driver/Keep.antt =====
-- Staging keeps the driver's invariants, and what is staged is read back.
use ros2_wavemakers.Base.{
  >>=-eq-ok, Bool, String, ap₂, arith, get_or-overwrite_out, length, not, ok, ok-injective, refl,
  some, throw_if, true, word, wrong_area, ℤ, ◌*◌, ◌+◌, ◌<◌, ◌≡◌, ◌≤◌, ◌⊎◌, ◌%◌, ◌^◌,
}
use ros2_wavemakers.Driver.Registry.{area_of, lookup, same_area, tag, tag_checked}
use ros2_wavemakers.Driver.Staging.{stage, touch, write, write_bool, write_int}
use ros2_wavemakers.Driver.State.{Driver}
use ros2_wavemakers.Driver.Sync.{IsCleanWord, IsSized, IsSynced}
use ros2_wavemakers.Driver.Words.{word_at}
use ros2_wavemakers.Image.Access.{ProcessImage}
use ros2_wavemakers.Image.Frame.{IsWrite, IsWrite-length, set_int-IsWrite}
use ros2_wavemakers.Image.Scaled.{set_bool-IsWrite, set_scaled-IsWrite}
use ros2_wavemakers.Image.Tags.{set_bool, set_int, set_scaled}
use ros2_wavemakers.Image.Types.{Area, FloatOps, Tag, size_bytes}
use ros2_wavemakers.Modbus.Port.{IsDevice, ModbusPort}

-- Every registered tag has a size and lies inside its area; a bit tag names one of eight bits.
pub record TagFits {D C : Type 0} (d : Driver D C) (t : Tag D) : Type 0 where
  pub some_bytes : 0 < size_bytes t
  pub inside : t.byte_offset + size_bytes t ≤ length (area_of t.area d)

abbrev pub IsTagged : {D C : Type 0} → Driver D C → Type 0
IsTagged {D} d = (name : String) (t : Tag D) → lookup name d.tags ≡ some t → TagFits d t

same_area-eq : (a b : Area) → same_area a b ≡ true → a ≡ b
unfolding same_area
same_area-eq Area.input Area.input h = refl
same_area-eq Area.output Area.output h = refl
same_area-eq Area.input Area.output h = absurd (cc)
same_area-eq Area.output Area.input h = absurd (cc)

area_of_output :
    {D C : Type 0} (a : Area) (d : Driver D C) → a ≡ Area.output → area_of a d ≡ d.outputs
unfolding area_of
area_of_output Area.input d h = absurd (cc)
area_of_output Area.output d h = refl

length-area_of :
    {D C : Type 0} (a : Area) (d e : Driver D C)
    → e.inputs ≡ d.inputs
    → length e.outputs ≡ length d.outputs
    → length (area_of a e) ≡ length (area_of a d)
unfolding area_of
length-area_of Area.input d e p q = rw p
length-area_of Area.output d e p q = q

module _ {D C : Type 0} where
  tag-lookup :
      (name : String) (d : Driver D C) {t : Tag D} → tag name d ≡ ok t → lookup name d.tags ≡ some t
  unfolding tag
  tag-lookup name d h = ground arith

  pub tag_checked-lookup :
      (name : String) (a : Area) (d : Driver D C) {t : Tag D}
      → tag_checked name a d ≡ ok t
      → (lookup name d.tags ≡ some t) × (same_area t.area a ≡ true)
  unfolding tag_checked
  tag_checked-lookup name a d h =
      let (u, found, e) = >>=-eq-ok (tag name d) _ h in
      let (v, fine, e') = >>=-eq-ok (throw_if (not (same_area u.area a)) (wrong_area name)) _ e in
      let same = ok-injective e' in rw (← same) (tag-lookup name d found, ground arith)

  -- An output tag of a driver with fitting tags lies inside the output image.
  pub output_inside :
      (name : String) (d : Driver D C) {t : Tag D}
      → IsTagged d
      → tag_checked name Area.output d ≡ ok t
      → (0 < size_bytes t) × (t.byte_offset + size_bytes t ≤ length d.outputs)
  output_inside name d {t} tagged h =
      let (found, area) = tag_checked-lookup name Area.output d h in
      let fits = tagged name t found in
      let e = same_area-eq t.area Area.output area in
      let here = area_of_output t.area d e in (fits.some_bytes, rw here at fits.inside)

  -- The dirty span covers the tag afterwards, and what it covered before.
  pub stage-dirty :
      (t : Tag D) (image : ProcessImage) (d : Driver D C)
      → 0 < size_bytes t
      → t.byte_offset + size_bytes t < 2 ^ 64
      → let e = stage t image d in
        (e.dirty_lo ≤ t.byte_offset)
        × (t.byte_offset + size_bytes t ≤ e.dirty_hi)
        × ((d.dirty_hi ≤ d.dirty_lo) ⊎ ((e.dirty_lo ≤ d.dirty_lo) × (d.dirty_hi ≤ e.dirty_hi)))
        × ((e.dirty_hi ≤ d.dirty_hi) ⊎ (e.dirty_hi ≡ t.byte_offset + size_bytes t))
  unfolding stage touch
  stage-dirty t image d h fits =
      let whole : (t.byte_offset + size_bytes t) % 2 ^ 64 ≡ t.byte_offset + size_bytes t =
        omega arith in
      rw whole (ground arith)

  stage-frame :
      (t : Tag D) (image : ProcessImage) (d : Driver D C)
      → let e = stage t image d in
        (e.outputs ≡ image)
        × (e.cfg ≡ d.cfg)
        × (e.client ≡ d.client)
        × (e.tags ≡ d.tags)
        × (e.inputs ≡ d.inputs)
  unfolding stage touch
  stage-frame t image d = ground arith

  stage-IsSynced :
      (t : Tag D) (image : ProcessImage) (d : Driver D C)
      → 0 < size_bytes t
      → t.byte_offset + size_bytes t < 2 ^ 64
      → IsWrite t.byte_offset (size_bytes t) d.outputs image
      → (port : ModbusPort C) (dev : IsDevice port) → IsSynced port dev d
      → IsSynced port dev (stage t image d)
  stage-IsSynced t image d some' fits w port dev sync i k clean =
      let (outs, cfg, client, tags, ins) = stage-frame t image d in
      let (a, b, covers, fresh) = stage-dirty t image d some' fits in
      let k' : i < d.cfg.output_word_count = rw cfg at k in
      let old : IsCleanWord d i = omega arith in
      let kept : word_at image i ≡ word_at d.outputs i = rw w.result (
        ap₂ word
          (get_or-overwrite_out t.byte_offset (2 * i) 0 w.bytes d.outputs (omega (arith, w.count)))
          (get_or-overwrite_out t.byte_offset (2 * i + 1) 0 w.bytes d.outputs
            (omega (arith, w.count)))) in
      rw (outs, cfg, client, kept) (sync i k' old)

  -- The sizes hold, the tags fit, and a gateway agrees with every clean word.
  pub record IsSound (port : ModbusPort C) (dev : IsDevice port) (d : Driver D C) : Type 0 where
    pub sized : IsSized d
    pub tagged : IsTagged d
    pub synced : IsSynced port dev d

  stage-IsSound :
      (port : ModbusPort C) (dev : IsDevice port) (name : String) (t : Tag D) (image : ProcessImage)
      (d : Driver D C)
      → IsSound port dev d
      → tag_checked name Area.output d ≡ ok t
      → IsWrite t.byte_offset (size_bytes t) d.outputs image
      → IsSound port dev (stage t image d)
  stage-IsSound port dev name t image d sound h w =
      let (some', inside) = output_inside name d sound.tagged h in
      let (outs, cfg, client, tags, ins) = stage-frame t image d in
      let fits : t.byte_offset + size_bytes t < 2 ^ 64 =
        omega (arith, inside, sound.sized.area, sound.sized.space) in
      let (a, b, covers, fresh) = stage-dirty t image d some' fits in
      let same : length image ≡ length d.outputs = IsWrite-length w in
      record {
        sized = record {
          area = rw (outs, cfg, same) sound.sized.area;
          space = rw cfg sound.sized.space;
          dirty = rw outs (omega (arith, same, inside, sound.sized.dirty, fresh));
        };
        tagged = λ name' t' found.
            let fits = sound.tagged name' t' (rw tags at found) in
            record {
              some_bytes = fits.some_bytes;
              inside =
                  rw (length-area_of t'.area d (stage t image d) ins (rw outs same)) fits.inside;
            };
        synced = stage-IsSynced t image d some' fits w port dev sound.synced;
      }

module _ (fp : FloatOps) {C : Type 0} (port : ModbusPort C) (dev : IsDevice port) where
  open fp use {Double}

  -- On a device as Modbus describes it, a successful write of an integer keeps the driver sound: the
  -- sizes hold, with registers up to 65536 at most, every tag fits its area, and a gateway that agreed with every clean word agrees with every word that is clean
  -- afterwards.
  pub write_int-IsSound :
      (name : String) (v : ℤ) (d : Driver Double C) {e : Driver Double C}
      → IsSound port dev d
      → write_int fp name v d ≡ ok e
      → IsSound port dev e
  unfolding write_int
  write_int-IsSound name v d sound h =
      let (t, found, h1) = >>=-eq-ok (tag_checked name Area.output d) _ h in
      let (image, set, h2) = >>=-eq-ok (set_int fp d.outputs t v) _ h1 in
      rw (← ok-injective h2)
        (stage-IsSound port dev name t image d sound found (set_int-IsWrite fp d.outputs t v set))

  -- A successful write of an engineering value keeps the driver sound: sizes, tags and the
  -- agreement of a gateway with every clean word.
  write-IsSound :
      (name : String) (v : Double) (d : Driver Double C) {e : Driver Double C}
      → IsSound port dev d
      → write fp name v d ≡ ok e
      → IsSound port dev e
  unfolding write
  write-IsSound name v d sound h =
      let (t, found, h1) = >>=-eq-ok (tag_checked name Area.output d) _ h in
      let (image, set, h2) = >>=-eq-ok (set_scaled fp d.outputs t v) _ h1 in
      rw (← ok-injective h2) (
        stage-IsSound port dev name t image d sound found (set_scaled-IsWrite fp d.outputs t v set))

  -- A successful write of a truth value keeps the driver sound in the same sense.
  pub write_bool-IsSound :
      (name : String) (v : Bool) (d : Driver Double C) {e : Driver Double C}
      → IsSound port dev d
      → write_bool fp name v d ≡ ok e
      → IsSound port dev e
  unfolding write_bool
  write_bool-IsSound name v d sound h =
      let (t, found, h1) = >>=-eq-ok (tag_checked name Area.output d) _ h in
      let (image, set, h2) = >>=-eq-ok (set_bool fp d.outputs t v) _ h1 in
      rw (← ok-injective h2)
        (stage-IsSound port dev name t image d sound found (set_bool-IsWrite fp d.outputs t v set))
