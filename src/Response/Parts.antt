-- ===== src/Response/Parts.antt =====
-- Taking the data off a response and putting it back.
use exfiltrate.Common.{ℕ, ◌+◌, ◌*◌, List, [], ◌∷◌, length, arith, ◌≡◌, refl, ap}
use exfiltrate.Response.{Response, string, bytes, files, images, FileInfo, ImageInfo, Rgba8}
use exfiltrate.Response.{
  pixel_bytes, chunks_exact, split_files, split_images, split_data, merge_files, merge_images,
  merge_data,
}

chunks_exact-pixel_bytes : (ps : List Rgba8) → chunks_exact (pixel_bytes ps) ≡ ps
unfolding chunks_exact pixel_bytes
chunks_exact-pixel_bytes [] = refl
chunks_exact-pixel_bytes (p ∷ ps) = ap (λ t. p ∷ t) (chunks_exact-pixel_bytes ps)

merge_files-split_files :
    (fs : List FileInfo) → merge_files (split_files fs).0 (split_files fs).1 ≡ fs
unfolding merge_files split_files
merge_files-split_files [] = refl
merge_files-split_files (f ∷ fs) = ap (λ t. f ∷ t) (merge_files-split_files fs)

merge_images-split_images :
    (is : List ImageInfo) → merge_images (split_images is).0 (split_images is).1 ≡ is
unfolding merge_images split_images
merge_images-split_images [] = refl
merge_images-split_images (i ∷ is) =
    cc (chunks_exact-pixel_bytes i.pixels, merge_images-split_images is)

-- `merge_data` on what `split_data` left and on its parts gives the response back, whatever its
-- kind.
pub merge_data-split_data : (r : Response) → merge_data (split_data r).0 (split_data r).1 ≡ r
unfolding split_data merge_data
merge_data-split_data (string s) = refl
merge_data-split_data (bytes b) = refl
merge_data-split_data (files fs) = ap files (merge_files-split_files fs)
merge_data-split_data (images is) = ap images (merge_images-split_images is)

-- The number of bytes that a response carries beside its texts.
file_bytes : List FileInfo → ℕ
file_bytes [] = 0
file_bytes (f ∷ fs) = length f.contents + file_bytes fs

image_bytes : List ImageInfo → ℕ
image_bytes [] = 0
image_bytes (i ∷ is) = 4 * length i.pixels + image_bytes is

pub data_bytes : Response → ℕ
unfolding file_bytes image_bytes
data_bytes (string s) = 0
data_bytes (bytes b) = length b
data_bytes (files fs) = file_bytes fs
data_bytes (images is) = image_bytes is

pub total : List (List ℕ) → ℕ
total [] = 0
total (p ∷ ps) = length p + total ps

length-pixel_bytes : (ps : List Rgba8) → length (pixel_bytes ps) ≡ 4 * length ps
unfolding pixel_bytes
length-pixel_bytes [] = refl
length-pixel_bytes (p ∷ ps) = omega (arith, length-pixel_bytes ps)

split_files_bytes :
    (fs : List FileInfo)
    → (file_bytes (split_files fs).0 ≡ 0) × (total (split_files fs).1 ≡ file_bytes fs)
unfolding split_files file_bytes total
split_files_bytes [] = (refl, refl)
split_files_bytes (f ∷ fs) = omega (arith, split_files_bytes fs)

split_images_bytes :
    (is : List ImageInfo)
    → (image_bytes (split_images is).0 ≡ 0) × (total (split_images is).1 ≡ image_bytes is)
unfolding split_images image_bytes total
split_images_bytes [] = (refl, refl)
split_images_bytes (i ∷ is) = omega (arith, split_images_bytes is, length-pixel_bytes i.pixels)

-- What `split_data` leaves carries no binary data, and the parts carry all of it: as many bytes as
-- the response had, four for each pixel.
pub split_data_bytes :
    (r : Response) → (data_bytes (split_data r).0 ≡ 0) × (total (split_data r).1 ≡ data_bytes r)
unfolding split_data data_bytes total
split_data_bytes (string s) = (refl, refl)
split_data_bytes (bytes b) = omega arith
split_data_bytes (files fs) = split_files_bytes fs
split_data_bytes (images is) = split_images_bytes is

merge_files-nil : (fs : List FileInfo) → merge_files fs [] ≡ fs
unfolding merge_files
merge_files-nil [] = refl
merge_files-nil (f ∷ fs) = ap (λ t. f ∷ t) (merge_files-nil fs)

merge_images-nil : (is : List ImageInfo) → merge_images is [] ≡ is
unfolding merge_images
merge_images-nil [] = refl
merge_images-nil (i ∷ is) = ap (λ t. i ∷ t) (merge_images-nil is)

-- Without parts a response stays as it is.
pub merge_data-nil : (r : Response) → merge_data r [] ≡ r
unfolding merge_data
merge_data-nil (string s) = refl
merge_data-nil (bytes b) = refl
merge_data-nil (files fs) = ap files (merge_files-nil fs)
merge_data-nil (images is) = ap images (merge_images-nil is)
