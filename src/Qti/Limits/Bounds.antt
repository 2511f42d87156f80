-- ===== src/Qti/Limits/Bounds.antt =====
-- What a package that is let through can expand to.
use tao_core_go.Prelude.{
  ℕ, ◌+◌, ◌*◌, ◌/◌, ◌≤◌, ◌<◌, Bool, true, false, not, ◌&&◌, ◌||◌, some, List, [], ◌∷◌, ◌≡◌, refl,
  inl, inr, ◌⊎◌, ◌↔◌, arith, length, All, ltb, eqb, Bool-cases, Option-cases,
}
use mathlib.Core.Path.{subst}
use native.Mathlib.Nat.{div-lt_iff_lt-mul}
use tao_core_go.Qti.{ZipFile, Package}
use tao_core_go.Qti.Limits.{
  max_package_size, max_entries, max_expanded_size, max_file_size, add64, entry_fits, entries_fit,
  open_package,
}

-- The sizes that the archive states, added without wrapping around
abbrev pub expanded : List ZipFile → ℕ
expanded [] = 0
expanded (file ∷ files) = file.uncompressed_size + expanded files

-- One entry: of at most 20 MiB, and less than 101 times its compressed size where that is stated
pub record IsSmall (file : ZipFile) : Type 0 where
  pub bounded : file.uncompressed_size ≤ max_file_size
  pub dense : (file.compressed_size ≡ 0) ⊎ (file.uncompressed_size < 101 * file.compressed_size)

quotient_bound : (a b : ℕ) → 0 < b → a / b ≤ 100 → a < 101 * b
quotient_bound a b h k = (div-lt_iff_lt-mul h).0 (omega arith)

add64_exact : (a b : ℕ) → a ≤ max_expanded_size → b ≤ max_file_size → add64 a b ≡ a + b
add64_exact a b h k = omega arith

bounded_of_fits :
    (total : ℕ) (file : ZipFile)
    → entry_fits total file ≡ true
    → (file.uncompressed_size ≤ max_file_size) × (total ≤ max_expanded_size)
unfolding entry_fits
bounded_of_fits total file h = ground arith

dense_of_fits :
    (total : ℕ) (file : ZipFile)
    → entry_fits total file ≡ true
    → (file.compressed_size ≡ 0) ⊎ (file.uncompressed_size < 101 * file.compressed_size)
unfolding entry_fits
dense_of_fits total file h = elim (Bool-cases (ltb 0 file.compressed_size)) [
  | inl stated ↦
      inr (quotient_bound file.uncompressed_size file.compressed_size (ground arith) (ground arith))
  | inr unstated ↦ inl (ground arith)
]

and-true : (a b : Bool) → (a && b) ≡ true → (a ≡ true) × (b ≡ true)
and-true true b h = (refl, h)
and-true false b h = cc

-- The total is the true sum: the uint64 never wraps around before an entry is refused.
entries_fit-AreSmall :
    (total : ℕ) (files : List ZipFile)
    → total ≤ max_expanded_size
    → entries_fit total files ≡ true
    → All IsSmall files × (total + expanded files ≤ max_expanded_size)
unfolding entries_fit
entries_fit-AreSmall total [] k h = (tt, omega arith)
entries_fit-AreSmall total (file ∷ files) k h =
    let (fits, rest) =
      and-true (entry_fits (add64 total file.uncompressed_size) file)
        (entries_fit (add64 total file.uncompressed_size) files) h in
    let (small, within) = bounded_of_fits (add64 total file.uncompressed_size) file fits in
    let e = add64_exact total file.uncompressed_size k small in
    let (later, sum) =
      entries_fit-AreSmall (add64 total file.uncompressed_size) files within rest in
    ((record { bounded = small; dense = dense_of_fits _ file fits }, later), omega (arith, sum, e))

fits_of_dense :
    (total : ℕ) (file : ZipFile)
    → IsSmall file
    → total ≤ max_expanded_size
    → entry_fits total file ≡ true
unfolding entry_fits
fits_of_dense total file small k = elim (Bool-cases (ltb 0 file.compressed_size)) [
  | inl stated ↦
      let bound : file.uncompressed_size / file.compressed_size < 101 = elim small.dense [
        | inl none_stated ↦ absurd (ground arith)
        | inr dense ↦ (div-lt_iff_lt-mul (ground arith)).1 dense
      ] in
      ground (arith, small.bounded)
  | inr unstated ↦ ground (arith, small.bounded)
]

AreSmall-entries_fit :
    (total : ℕ) (files : List ZipFile)
    → All IsSmall files
    → total + expanded files ≤ max_expanded_size
    → entries_fit total files ≡ true
unfolding entries_fit
AreSmall-entries_fit total [] small k = refl
AreSmall-entries_fit total (file ∷ files) small k =
    let e = add64_exact total file.uncompressed_size (omega arith) small.0.bounded in
    let within : add64 total file.uncompressed_size ≤ max_expanded_size = omega (arith, e) in
    rw (fits_of_dense (add64 total file.uncompressed_size) file small.0 within)
      (AreSmall-entries_fit (add64 total file.uncompressed_size) files small.1 (omega (arith, e)))

-- The package and what it can expand to
pub record IsWithinLimits (p : Package) (files : List ZipFile) : Type 0 where
  pub listed : p.files ≡ some files
  pub regular : p.is_regular ≡ true
  pub filled : 0 < p.size
  pub small : p.size ≤ max_package_size
  pub few : length files ≤ max_entries
  pub entries : All IsSmall files
  pub total : expanded files ≤ max_expanded_size

IsWithinLimits-open :
    (p : Package) (files : List ZipFile) → IsWithinLimits p files → open_package p ≡ some files
unfolding open_package
IsWithinLimits-open p files k =
    let stat : (not p.is_regular || eqb p.size 0 || ltb max_package_size p.size) ≡ false =
      ground (arith, k.regular, k.filled, k.small) in
    let fit : (ltb max_entries (length files) || not (entries_fit 0 files)) ≡ false =
      ground (arith, AreSmall-entries_fit 0 files k.entries (omega (arith, k.total)), k.few) in
    rw (stat, k.listed, fit) refl

open-IsWithinLimits :
    (p : Package) (files : List ZipFile) → open_package p ≡ some files → IsWithinLimits p files
unfolding open_package
open-IsWithinLimits p files h =
    elim (Bool-cases (not p.is_regular || eqb p.size 0 || ltb max_package_size p.size)) [
      | inl bad ↦ let k = rw (bad, open_package) at h in cc
      | inr stat ↦ elim (Option-cases p.files) [
        | inl unread ↦ let k = rw (stat, unread, open_package) at h in cc
        | inr (fs, listed) ↦
            elim (Bool-cases (ltb max_entries (length fs) || not (entries_fit 0 fs))) [
              | inl big ↦ let k = rw (stat, listed, big, open_package) at h in cc
              | inr fit ↦
                  let k : some fs ≡ some files = rw (stat, listed, fit, open_package) at h in
                  let same : fs ≡ files = cc in
                  let (small, sum) = entries_fit-AreSmall 0 fs (omega arith) (ground arith) in
                  subst (IsWithinLimits p) same (record {
                    listed = listed;
                    regular = ground arith;
                    filled = ground arith;
                    small = ground arith;
                    few = ground arith;
                    entries = small;
                    total = omega (arith, sum);
                  })
            ]
      ]
    ]

-- A package is let through with its entries exactly when it is a regular file of 1 byte to 50 MiB
-- with at most 1000 entries, each of at most 20 MiB and, where its compressed size is not zero,
-- less than 101 times that, and the sizes add up, without wrapping around, to at most 200 MiB.
pub open_package-IsWithinLimits :
    (p : Package) (files : List ZipFile) → (open_package p ≡ some files) ↔ IsWithinLimits p files
open_package-IsWithinLimits p files = (open-IsWithinLimits p files, IsWithinLimits-open p files)
