-- ===== src/Qti/Limits.antt =====
-- The limits of a package: the checks before anything is extracted.
pub mod Bounds
use tao_core_go.Prelude.{
  ℕ, ◌+◌, ◌*◌, ◌/◌, ◌%◌, ◌^◌, Bool, true, false, not, ◌&&◌, ◌||◌, Option, none, some, List, [], ◌∷◌,
  length, ltb, eqb, if◌then◌else◌,
}
use tao_core_go.Qti.{ZipFile, Package}

abbrev pub max_package_size : ℕ
max_package_size = 52_428_800

abbrev pub max_entries : ℕ
max_entries = 1000

abbrev pub max_expanded_size : ℕ
max_expanded_size = 209_715_200

abbrev pub max_file_size : ℕ
max_file_size = 20_971_520

abbrev pub max_xml_size : ℕ
max_xml_size = 5_242_880

abbrev pub max_compression_ratio : ℕ
max_compression_ratio = 100

-- uint64 addition
abbrev pub add64 : ℕ → ℕ → ℕ
add64 a b = (a + b) % 2 ^ 64

-- One round of the loop over the entries, with the new total
unfoldable pub entry_fits : ℕ → ZipFile → Bool
entry_fits total file =
    not (ltb max_file_size file.uncompressed_size || ltb max_expanded_size total)
    && not (
        ltb 0 file.compressed_size
        && ltb max_compression_ratio (file.uncompressed_size / file.compressed_size))

unfoldable pub entries_fit : ℕ → List ZipFile → Bool
unfolding entry_fits
entries_fit total [] = true
entries_fit total (file ∷ files) =
    let total' = add64 total file.uncompressed_size in
    entry_fits total' file && entries_fit total' files

-- The entries of a package that is let through
unfoldable pub open_package : Package → Option (List ZipFile)
unfolding entries_fit
open_package p =
    if not p.is_regular || eqb p.size 0 || ltb max_package_size p.size then none else elim p.files [
      | none ↦ none
      | some files ↦
          if ltb max_entries (length files) || not (entries_fit 0 files) then none else some files
    ]
