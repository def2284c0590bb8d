-- ===== src/Driver/Registry.antt =====
-- The tag registry.
use text.Mathlib.Text.{◌==◌ as str_eq}
use ros2_wavemakers.Base.{
  Bool, List, Option, Outcome, String, [], duplicate_tag, err, false, if◌then◌else◌, length, ltb,
  none, not, ok, outside_area, some, throw_if, true, u64, unknown_tag, wrong_area, zero_size, ◌+◌,
  ◌==◌, ◌>>=◌, ◌>>◌, ◌∷◌,
}
use ros2_wavemakers.Driver.State.{Driver}
use ros2_wavemakers.Image.Access.{ProcessImage}
use ros2_wavemakers.Image.Types.{Area, Tag, size_bytes}

unfoldable pub same_area : Area → Area → Bool
same_area Area.input Area.input = true
same_area Area.output Area.output = true
same_area _ _ = false

module _ {D : Type 0} where
  unfoldable pub lookup : String → List (String × Tag D) → Option (Tag D)
  lookup k [] = none
  lookup k ((j, t) ∷ rest) = if str_eq j k then some t else lookup k rest

module _ {D C : Type 0} where
  unfoldable pub has_tag : String → Driver D C → Bool
  has_tag name d = elim (lookup name d.tags) [ none ↦ false | some t ↦ true ]

  -- The bytes of the area that a tag names.
  unfoldable pub area_of : Area → Driver D C → ProcessImage
  area_of Area.input d = d.inputs
  area_of Area.output d = d.outputs

  -- `end` is a `size_t` sum, which wraps.
  unfoldable pub add_tag : Tag D → Driver D C → Outcome (Driver D C)
  unfolding area_of
  add_tag t d = do
    let end = u64 (t.byte_offset + size_bytes t)
    throw_if (size_bytes t == 0) (zero_size t.name)
    throw_if (ltb (length (area_of t.area d)) end) (outside_area t.name)
    throw_if (has_tag t.name d) (duplicate_tag t.name)
    ok (record d { tags = (t.name, t) ∷ d.tags })

  unfoldable pub add_tags : List (Tag D) → Driver D C → Outcome (Driver D C)
  add_tags [] d = ok d
  add_tags (t ∷ ts) d = do d' ← add_tag t d; add_tags ts d'

  unfoldable pub tag : String → Driver D C → Outcome (Tag D)
  tag name d = elim (lookup name d.tags) [ none ↦ err (unknown_tag name) | some t ↦ ok t ]

  unfoldable pub tag_checked : String → Area → Driver D C → Outcome (Tag D)
  tag_checked name expected d = do
    t ← tag name d
    throw_if (not (same_area t.area expected)) (wrong_area name)
    ok t
