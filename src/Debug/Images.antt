-- ===== src/Debug/Images.antt =====
-- The images of the example are well formed.
use exfiltrate.Common.{ℕ, ◌+◌, ◌*◌, ◌<◌, List, [], ◌∷◌, ◌++◌, length, Option, some}
use exfiltrate.Common.{◌≡◌, All}
use exfiltrate.Common.Text.{Text, text, decimal}
use exfiltrate.Response.{Rgba8, ImageInfo, images}
use exfiltrate.Server.{Executed, success}
use exfiltrate.Debug.{square, shifted}

-- Every channel is a `u8`.
pub record IsPixel (p : Rgba8) : Type 0 where
  pub red : p.r < 256
  pub green : p.g < 256
  pub blue : p.b < 256
  pub alpha : p.a < 256

abbrev pub IsBelow : ℕ → ℕ → Type 0
IsBelow n k = k < n

-- An image with as many pixels as its sizes say, whose channels are bytes.
pub record IsWhole (size : ℕ) (i : ImageInfo) : Type 0 where
  pub width : i.width ≡ size
  pub height : i.height ≡ size
  pub count : length i.pixels ≡ i.width * i.height
  pub channels : All IsPixel i.pixels

abbrev pub ShowsImages : ℕ → ℕ → Executed → Type 0
ShowsImages size n (success (images is)) = (length is ≡ n) × All (IsWhole size) is
ShowsImages size n _ = ⊥

abbrev picture : (size : ℕ) → (ℕ → ℕ → Rgba8) → Option Text → ImageInfo
picture size pixel remark = record {
  pixels = square size pixel;
  width = size;
  height = size;
  remark = remark;
}

abbrev pictures : List ℕ → List ImageInfo
pictures [] = []
pictures (c ∷ cs) =
    picture 100 (shifted c) (some (text "Test image " ++ decimal (c + 1))) ∷ pictures cs
