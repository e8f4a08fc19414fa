-- ===== src/Debug.antt =====
-- exfiltrate/examples/debug.rs: a program with four commands of its own.
mod Tests
pub mod Images
use exfiltrate.Common.{ℕ, zero, suc, ◌+◌, ◌-◌, ◌/◌, List, [], ◌∷◌, ◌++◌, Bool, Option, none, some}
use exfiltrate.Common.Text.{Text, text, decimal}
use exfiltrate.Stream.{Outcome, ok, err, panic}
use exfiltrate.Response.{
  Response, Rgba8, ImageInfo, new_image, new_file, from_str, from_image, from_images, from_files,
}
use exfiltrate.Server.{Host, Command, Body, Executed, success, crash, begin, add_command}

pub hello_world : List Text → Executed
hello_world args = success (from_str (text "hello world"))

-- `from..from + count`
pub range : ℕ → ℕ → List ℕ
range from zero = []
range from (suc count) = from ∷ range (from + 1) count

-- The two loops over the rows and the columns.
pub row : (ℕ → Rgba8) → List ℕ → List Rgba8
row pixel [] = []
row pixel (g ∷ gs) = pixel g ∷ row pixel gs

pub rows : (ℕ → ℕ → Rgba8) → List ℕ → List ℕ → List Rgba8
rows pixel [] gs = []
rows pixel (r ∷ rs) gs = row (pixel r) gs ++ rows pixel rs gs

pub square : ℕ → (ℕ → ℕ → Rgba8) → List Rgba8
square size pixel = rows pixel (range 0 size) (range 0 size)

-- Both subtractions are saturating.
abbrev pub gradient : ℕ → ℕ → Rgba8
gradient r g = record { r = r; g = g; b = 255 - r / 2 - g / 2; a = 255 }

pub one_image : Outcome ImageInfo → Executed
one_image (ok i) = success (from_image i)
one_image (err e) = crash
one_image panic = crash

pub image_gen : List Text → Executed
unfolding one_image
image_gen args = one_image (new_image (square 255 gradient) 255 none)

-- The `match` on `color_shift`.
abbrev pub shifted : ℕ → ℕ → ℕ → Rgba8
shifted zero r g = record { r = r; g = g; b = 0; a = 255 }
shifted (suc zero) r g = record { r = 0; g = g; b = r; a = 255 }
shifted (suc (suc more)) r g = record { r = r; g = 0; b = r; a = 255 }

pub push_image : Outcome ImageInfo → Outcome (List ImageInfo) → Outcome (List ImageInfo)
push_image (ok i) (ok is) = ok (i ∷ is)
push_image (ok i) (err e) = err e
push_image (ok i) panic = panic
push_image (err e) rest = err e
push_image panic rest = panic

pub shifted_images : List ℕ → Outcome (List ImageInfo)
unfolding push_image
shifted_images [] = ok []
shifted_images (color_shift ∷ more) =
    push_image
      (new_image (square 100 (shifted color_shift)) 100
        (some (text "Test image " ++ decimal (color_shift + 1))))
      (shifted_images more)

pub all_images : Outcome (List ImageInfo) → Executed
all_images (ok is) = success (from_images is)
all_images (err e) = crash
all_images panic = crash

pub multi_image_gen : List Text → Executed
unfolding all_images
multi_image_gen args = all_images (shifted_images (range 0 3))

pub multi_file_gen : List Text → Executed
multi_file_gen args = success (
    from_files (
      new_file (text "txt") (some (text "First test file"))
        (text "This is the first test file.\nIt has multiple lines.\n")
      ∷ new_file (text "txt") (some (text "Second test file"))
          (text "This is the second test file.\nWith different content.\n")
      ∷ new_file (text "json") (some (text "JSON test file"))
          (text "{\"test\": true, \"value\": 123}")
      ∷ []))

abbrev pub HelloWorld : Command
HelloWorld = record {
  name = text "hello_world";
  short_description = text "Returns a hello world message.  Use this to test exfiltrate";
  full_description = text "Returns a hello world message.  Use this to test exfiltrate";
  body = Body.custom hello_world;
}

abbrev pub ImageGen : Command
ImageGen = record {
  name = text "image_gen";
  short_description =
      text "Generates a test image.  Use this to test exfiltrate's image capabilities.";
  full_description =
      text "Generates a test image.  Use this to test exfiltrate's image capabilities.";
  body = Body.custom image_gen;
}

abbrev pub MultiImageGen : Command
MultiImageGen = record {
  name = text "multi_image_gen";
  short_description =
      text
        "Generates multiple test images.  Use this to test exfiltrate's multiple image capabilities.";
  full_description =
      text
        "Generates multiple test images.  Use this to test exfiltrate's multiple image capabilities.";
  body = Body.custom multi_image_gen;
}

abbrev pub MultiFileGen : Command
MultiFileGen = record {
  name = text "multi_file_gen";
  short_description =
      text
        "Generates multiple test files.  Use this to test exfiltrate's multiple file capabilities.";
  full_description =
      text
        "Generates multiple test files.  Use this to test exfiltrate's multiple file capabilities.";
  body = Body.custom multi_file_gen;
}

-- `main`, with the feature `logwise` or without it, and on wasm32 or not.
pub main : Bool → Bool → Host → Host
unfolding begin add_command
main logwise wasm h = add_command MultiFileGen (
    add_command MultiImageGen
      (add_command ImageGen (add_command HelloWorld (begin logwise wasm h))))
