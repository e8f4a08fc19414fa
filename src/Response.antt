-- ===== src/Response.antt =====
-- exfiltrate_internal/src/command.rs: responses, and how their binary data is taken off and put
-- back for the wire.
mod Tests
pub mod Parts
pub mod Image
use exfiltrate.Common.{
  ℕ, zero, suc, ◌+◌, ◌/◌, ◌%◌, ◌^◌, List, [], ◌∷◌, ◌++◌, length, ltb, ◌==◌, Option, none, some,
  if◌then◌else◌,
}
use exfiltrate.Common.Text.{Text, text, decimal}
use exfiltrate.Stream.{Outcome, ok, panic}

-- `rgb::RGBA8`
pub record Rgba8 : Type 0 where
  pub r : ℕ
  pub g : ℕ
  pub b : ℕ
  pub a : ℕ

pub record FileInfo : Type 0 where
  pub proposed_extension : Text
  pub remark : Option Text
  pub contents : List ℕ

pub record ImageInfo : Type 0 where
  pub pixels : List Rgba8
  pub width : ℕ
  pub height : ℕ
  pub remark : Option Text

pub data Response : Type 0 where
  string : Text → Response
  bytes : List ℕ → Response
  files : List FileInfo → Response
  images : List ImageInfo → Response

-- `ImageInfo::new`: the assertion, the conversion of the length to a `u32` and the division by
-- `width` can each panic.
pub new_image : List Rgba8 → ℕ → Option Text → Outcome ImageInfo
new_image pixels width remark =
    if length pixels % width == 0
    then (if ltb (length pixels) (2 ^ 32)
        then (if width == 0
            then panic
            else ok (record {
              pixels = pixels;
              width = width;
              height = length pixels / width;
              remark = remark;
            }))
        else panic)
    else panic

pub new_file : Text → Option Text → List ℕ → FileInfo
new_file proposed_extension remark contents = record {
  proposed_extension = proposed_extension;
  remark = remark;
  contents = contents;
}

-- `Response::into_string`
pub into_string : Response → Outcome Text
into_string (string s) = ok s
into_string (bytes _) = panic
into_string (files _) = panic
into_string (images _) = panic

-- The bytes of the pixels of one image.
unfoldable pub pixel_bytes : List Rgba8 → List ℕ
pixel_bytes [] = []
pixel_bytes (p ∷ ps) = p.r ∷ p.g ∷ p.b ∷ p.a ∷ pixel_bytes ps

-- The pixels of `data.chunks_exact(4)`; what is left over at the end is not looked at.
unfoldable pub chunks_exact : List ℕ → List Rgba8
chunks_exact (r ∷ g ∷ b ∷ a ∷ rest) = record { r = r; g = g; b = b; a = a } ∷ chunks_exact rest
chunks_exact _ = []

-- The loops of `split_data`: each item is left without its data, which becomes a part.
split_files : List FileInfo → List FileInfo × List (List ℕ)
split_files [] = ([], [])
split_files (file ∷ rest) =
    let (rest', parts) = split_files rest in
    (record file { contents = [] } ∷ rest', file.contents ∷ parts)

split_images : List ImageInfo → List ImageInfo × List (List ℕ)
unfolding pixel_bytes
split_images [] = ([], [])
split_images (image ∷ rest) =
    let (rest', parts) = split_images rest in
    (record image { pixels = [] } ∷ rest', pixel_bytes image.pixels ∷ parts)

-- `split_data` returns the response that it leaves, and the parts.
unfoldable pub split_data : Response → Response × List (List ℕ)
unfolding split_files split_images
split_data (string s) = (string s, [])
split_data (bytes b) = (bytes [], b ∷ [])
split_data (files fs) = let (fs', parts) = split_files fs in (files fs', parts)
split_data (images is) = let (is', parts) = split_images is in (images is', parts)

-- The loops of `merge_data`: an item for which no part is left stays as it is.
merge_files : List FileInfo → List (List ℕ) → List FileInfo
merge_files [] parts = []
merge_files (file ∷ rest) [] = file ∷ merge_files rest []
merge_files (file ∷ rest) (part ∷ parts) = record file { contents = part } ∷ merge_files rest parts

merge_images : List ImageInfo → List (List ℕ) → List ImageInfo
unfolding chunks_exact
merge_images [] parts = []
merge_images (image ∷ rest) [] = image ∷ merge_images rest []
merge_images (image ∷ rest) (part ∷ parts) =
    record image { pixels = chunks_exact part } ∷ merge_images rest parts

pub merge_data : Response → List (List ℕ) → Response
unfolding merge_files merge_images
merge_data (string s) parts = string s
merge_data (bytes b) [] = bytes b
merge_data (bytes b) (part ∷ parts) = bytes part
merge_data (files fs) parts = files (merge_files fs parts)
merge_data (images is) parts = images (merge_images is parts)

-- The `Display` implementations.
pub display_image : ImageInfo → Text
display_image i = text "Image " ++ (decimal i.width ++ (text "x" ++ decimal i.height))

display_remark : Option Text → Text
display_remark (some remark) = text "file: " ++ (remark ++ text ",")
display_remark none = text "file,"

pub display_file : FileInfo → Text
unfolding display_remark
display_file f =
    f.proposed_extension
    ++ (display_remark f.remark ++ (decimal (length f.contents) ++ text " bytes"))

-- The items on lines of their own.
pub join_lines : List Text → Text
join_lines [] = []
join_lines (t ∷ []) = t
join_lines (t ∷ rest) = t ++ (b'\n' ∷ join_lines rest)

display_files : List FileInfo → List Text
display_files [] = []
display_files (f ∷ fs) = display_file f ∷ display_files fs

display_images : List ImageInfo → List Text
display_images [] = []
display_images (i ∷ is) = display_image i ∷ display_images is

-- The `From` conversions, and `Default`.
pub from_string : Text → Response
from_string s = string s

pub from_str : Text → Response
from_str s = string s

unfoldable pub from_files : List FileInfo → Response
from_files fs = files fs

unfoldable pub from_images : List ImageInfo → Response
from_images is = images is

pub from_file : FileInfo → Response
from_file file = files (file ∷ [])

unfoldable pub from_image : ImageInfo → Response
from_image image = images (image ∷ [])

pub default : Response
default = string []

unfoldable pub display : Response → Text
unfolding display_files display_images display_file display_image join_lines
display (string s) = s
display (bytes b) = text "<" ++ (decimal (length b) ++ text " bytes>")
display (files fs) = join_lines (display_files fs)
display (images is) = join_lines (display_images is)
