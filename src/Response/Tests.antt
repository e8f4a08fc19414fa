-- ===== src/Response/Tests.antt =====
-- Tests of the responses, and the theorems about them at concrete inputs.
use exfiltrate.Common.{ℕ, ◌*◌, ◌^◌, ◌<◌, [], ◌∷◌, length, none, some, ◌≡◌, ◌≢◌, refl}
use exfiltrate.Common.Text.{text, decimal}
use exfiltrate.Response.{Response, files, images, Rgba8, new_image, split_data, merge_data, display}
use exfiltrate.Response.Parts.{merge_data-split_data}
use exfiltrate.Response.Image.{new_image_size}

abbrev red : Rgba8
red = record { r = 255; g = 0; b = 0; a = 255 }

abbrev two_files : Response
two_files = files (
    record { proposed_extension = text "txt"; remark = none; contents = 1 ∷ 2 ∷ [] }
    ∷ record { proposed_extension = text "log"; remark = some (text "app"); contents = 3 ∷ [] }
    ∷ [])

abbrev one_image : Response
one_image = images (record { pixels = red ∷ red ∷ []; width = 2; height = 1; remark = none } ∷ [])

files_shown : display two_files ≡ text "txtfile,2 bytes\nlogfile: app,1 bytes"
unfolding display decimal
files_shown = refl

two_parts : (split_data two_files).1 ≡ (1 ∷ 2 ∷ []) ∷ (3 ∷ []) ∷ []
unfolding split_data
two_parts = refl

too_few_parts : merge_data (split_data two_files).0 ((1 ∷ 2 ∷ []) ∷ []) ≢ two_files
unfolding split_data merge_data
too_few_parts = λ e. cc

merge_data-split_data_example :
    merge_data (split_data one_image).0 (split_data one_image).1 ≡ one_image
merge_data-split_data_example = merge_data-split_data one_image

new_image_size_example :
    (red ∷ red ∷ [] ≡ red ∷ red ∷ [])
    × (◌≡◌ {A = ℕ} 2 2)
    × (2 * 1 ≡ length (red ∷ red ∷ []))
    × (1 < 2 ^ 32)
unfolding new_image
new_image_size_example =
    new_image_size (red ∷ red ∷ []) 2 none
      (record { pixels = red ∷ red ∷ []; width = 2; height = 1; remark = none }) refl
