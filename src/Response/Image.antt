-- ===== src/Response/Image.antt =====
-- What `ImageInfo::new` accepts.
use exfiltrate.Common.{
  ℕ, ◌*◌, ◌%◌, ◌^◌, ◌≤◌, ◌<◌, List, length, Option, arith, ◌≡◌, ◌≢◌, ap, ◌∙◌, ◌/◌,
}
use exfiltrate.Stream.{ok, panic}
use exfiltrate.Response.{Rgba8, ImageInfo, new_image}
use native.Mathlib.Nat.{div-add-mod, mul-mod_right, mul-div_right}
use mathlib.Core.Logic.{◌↔◌, ◌⊎◌}

-- A successful `ImageInfo::new` keeps the pixels and the width, and its height is the one with
-- `width * height` pixels; both are `u32`s then, if the width is one.
pub new_image_size :
    (pixels : List Rgba8) (width : ℕ) (remark : Option (List ℕ)) (i : ImageInfo)
    → new_image pixels width remark ≡ ok i
    → (i.pixels ≡ pixels)
      × (i.width ≡ width)
      × (i.width * i.height ≡ length pixels)
      × (i.height < 2 ^ 32)
unfolding new_image
new_image_size pixels width remark i e = ground (arith, div-add-mod (length pixels) width)

-- `ImageInfo::new` panics exactly where the width does not divide the number of pixels, or that
-- number is no `u32`, or the width is 0 (then even without pixels, although 0 divides 0).
pub new_image_panics :
    (pixels : List Rgba8) (width : ℕ) (remark : Option (List ℕ))
    → (new_image pixels width remark ≡ panic)
      ↔ ((length pixels % width ≢ 0) ⊎ ((2 ^ 32 ≤ length pixels) ⊎ (width ≡ 0)))
unfolding new_image
new_image_panics pixels width remark = ((λ e. grind arith), (λ e. grind arith))

-- Where the pixels fill `height` rows of `width`, `ImageInfo::new` accepts them.
pub new_image_exact :
    (pixels : List Rgba8) (width height : ℕ) (remark : Option (List ℕ))
    → width ≢ 0
    → length pixels ≡ width * height
    → width * height < 2 ^ 32
    → new_image pixels width remark
      ≡ ok (record { pixels = pixels; width = width; height = height; remark = remark })
unfolding new_image
new_image_exact pixels width height remark ne e small =
    let no_rest : length pixels % width ≡ 0 = ap (λ n. n % width) e ∙ mul-mod_right width height in
    let same : length pixels / width ≡ height =
      ap (λ n. n / width) e ∙ mul-div_right height (omega (arith, ne)) in
    ground (arith, no_rest, same, e, small, ne)
