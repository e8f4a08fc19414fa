-- ===== src/Cli/Saving.antt =====
-- exfiltrate_cli/src/main.rs: what becomes of a reply with files or images.
use exfiltrate.Common.{ℕ, ◌+◌, List, [], ◌∷◌, ◌++◌, length, Option, none, some, ◌==◌, if◌then◌else◌}
use exfiltrate.Common.{take}
use exfiltrate.Common.Text.{Text, text, decimal}
use exfiltrate.Stream.{Outcome, ok, IoError}
use exfiltrate.Response.{FileInfo, ImageInfo, pixel_bytes}

-- What the file system does with a new file: it takes everything, or it does not create it, or it
-- fails after some bytes.
pub data DiskAnswer : Type 0 where
  saves denies : DiskAnswer
  stops : ℕ → IoError → DiskAnswer

-- The random names, the answers of the file system, each by the number of the file, the texts of
-- I/O errors, and the encoder of the crate webp for bytes of a width and a height.
pub record World : Type 0 where
  pub names : ℕ → Text
  pub answers : ℕ → DiskAnswer
  pub io_text : IoError → Text
  pub encode_lossless : List ℕ → ℕ → ℕ → Outcome (List ℕ)

-- The files that were made, in order, by their paths.
pub record Disk : Type 0 where
  pub made : ℕ
  pub files : List (Text × List ℕ)

-- `Err` is the text of the failure.
pub data Saved : Type 0 where
  saved not_saved : Text → Saved
  save_panic : Saved

unfoldable pub trim_dots : Text → Text
trim_dots [] = []
trim_dots (c ∷ s) = if c == b'.' then trim_dots s else c ∷ s

unfoldable pub path_of : Text → Text → Text
path_of name extension = text "./" ++ (name ++ (text "." ++ extension))

-- A remark stands on a line of its own.
unfoldable pub remark_line : Option Text → Text
remark_line none = []
remark_line (some remark) = remark ++ text "\n"

unfoldable pub file_line : ℕ → Text → Text
file_line size path = text "Wrote " ++ (decimal size ++ (text " bytes to " ++ (path ++ text "\n")))

unfoldable pub image_line : Text → Text
image_line path = text "Wrote image to " ++ (path ++ text "\n")

unfoldable pub add_file : Text → List ℕ → Disk → Disk
add_file path contents d = record { made = d.made + 1; files = d.files ++ (path, contents) ∷ [] }

-- What is printed for one item stands before what is printed for the rest.
unfoldable pub printed_before : Text → Saved × Disk → Saved × Disk
printed_before t (saved rest, d) = (saved (t ++ rest), d)
printed_before t (not_saved e, d) = (not_saved e, d)
printed_before t (save_panic, d) = (save_panic, d)

module _ (w : World) where
  -- One file, and then the rest: a file that cannot be created panics, and a failed write ends the
  -- command.
  unfoldable pub save_file :
      DiskAnswer → Text → FileInfo → (Disk → Saved × Disk) → Disk → Saved × Disk
  save_file saves path f next d =
      printed_before (remark_line f.remark ++ file_line (length f.contents) path)
        (next (add_file path f.contents d))
  save_file denies path f next d = (save_panic, d)
  save_file (stops k e) path f next d =
      (not_saved (w.io_text e), add_file path (take k f.contents) d)

  -- The loop over `Response::Files`.
  unfoldable pub save_files : List FileInfo → Disk → Saved × Disk
  save_files [] d = (saved [], d)
  save_files (f ∷ fs) d =
      save_file (w.answers d.made) (path_of (w.names d.made) (trim_dots f.proposed_extension)) f
        (save_files fs) d

  -- One image, encoded: all failures panic.
  unfoldable pub save_encoded :
      DiskAnswer
      → Text
      → Option Text
      → Outcome (List ℕ)
      → (Disk → Saved × Disk)
      → Disk
      → Saved × Disk
  save_encoded denies path remark r next d = (save_panic, d)
  save_encoded saves path remark (ok bs) next d =
      printed_before (remark_line remark ++ image_line path) (next (add_file path bs d))
  save_encoded (stops k e) path remark (ok bs) next d = (save_panic, add_file path (take k bs) d)
  save_encoded _ path remark _ next d = (save_panic, add_file path [] d)

  -- The loop over `Response::Images`.
  unfoldable pub save_images : List ImageInfo → Disk → Saved × Disk
  save_images [] d = (saved [], d)
  save_images (i ∷ is) d =
      save_encoded (w.answers d.made) (path_of (w.names d.made) (text "webp")) i.remark
        (w.encode_lossless (pixel_bytes i.pixels) i.width i.height) (save_images is) d
