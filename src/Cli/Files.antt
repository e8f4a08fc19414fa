-- ===== src/Cli/Files.antt =====
-- The files of a reply on the disk.
use exfiltrate.Common.{ℕ, ◌+◌, List, [], ◌∷◌, ◌++◌, length, ◌≡◌}
use exfiltrate.Common.Text.{Text}
use exfiltrate.Response.{FileInfo}
use exfiltrate.Cli.Saving.{saves, World, Disk, trim_dots, path_of, remark_line, file_line}

module _ (w : World) where
  -- The path of the file with a number.
  abbrev pub file_path : ℕ → FileInfo → Text
  file_path n f = path_of (w.names n) (trim_dots f.proposed_extension)

  -- The files, by their paths, from a number on.
  abbrev pub placed : ℕ → List FileInfo → List (Text × List ℕ)
  placed n [] = []
  placed n (f ∷ fs) = (file_path n f, f.contents) ∷ placed (n + 1) fs

  -- What is printed for them.
  abbrev pub report : ℕ → List FileInfo → Text
  report n [] = []
  report n (f ∷ fs) =
      (remark_line f.remark ++ file_line (length f.contents) (file_path n f)) ++ report (n + 1) fs

  -- The file system takes the next files whole.
  abbrev pub Takes : ℕ → List FileInfo → Type 0
  Takes n [] = Unit
  Takes n (f ∷ fs) = (w.answers n ≡ saves) × Takes (n + 1) fs

  -- The disk after them.
  abbrev pub with_files : Disk → List FileInfo → Disk
  with_files d fs = record { made = d.made + length fs; files = d.files ++ placed d.made fs }
