-- ===== src/Qti/Media/Cleanup.antt =====
-- What a scan that stops leaves behind.
use tao_core_go.Prelude.{
  ℕ, suc, Text, Bool, true, false, not, ◌||◌, Option, none, some, List, [], ◌∷◌, ◌++◌, ◌≡◌, refl,
  ap, ◌∙◌, inl, inr, arith, any, filter, ltb, codes, ◌==◌, text_eq_instance, text_eq_iff,
  if◌then◌else◌, Bool-cases, Option-cases,
}
use tao_core_go.Qti.{Stream, ZipFile, QtiLib}
use mathlib.Core.Path.{subst}
use tao_core_go.Qti.Limits.{max_xml_size}
use tao_core_go.Qti.Paths.{ext}
use tao_core_go.Qti.Media.{
  Disk, disk_call, stands, remove_file, content_ok, write_file, create_file, save_media_file, Scan,
  is_media, gather, gather_xml, scan_file, scan_files, cleanup,
}

remove_absent : (path : Text) (fs : List Text) → stands path fs ≡ false → remove_file path fs ≡ fs
unfolding remove_file filter any
remove_absent path [] h = refl
remove_absent path (f ∷ fs) h = ground (arith, remove_absent path fs)

-- Removing the file that was just made leaves the files as they were.
remove_new :
    (path : Text) (fs : List Text) → stands path fs ≡ false → remove_file path (path ∷ fs) ≡ fs
unfolding remove_file filter
remove_new path fs h = ground (arith, remove_absent path fs, text_eq_iff path path)

stands-remove :
    (path other : Text) (fs : List Text)
    → stands path fs ≡ false
    → stands path (remove_file other fs) ≡ false
unfolding remove_file filter any
stands-remove path other [] h = refl
stands-remove path other (f ∷ fs) h = ground (arith, stands-remove path other fs)

stands-cleanup :
    (path : Text) (paths fs : List Text)
    → stands path fs ≡ false
    → stands path (cleanup paths fs) ≡ false
unfolding cleanup
stands-cleanup path [] fs h = h
stands-cleanup path (p ∷ paths) fs h =
    stands-cleanup path paths (remove_file p fs) (stands-remove path p fs h)

cleanup_last :
    (paths : List Text) (path : Text) (fs : List Text)
    → cleanup (paths ++ path ∷ []) fs ≡ remove_file path (cleanup paths fs)
unfolding cleanup
cleanup_last [] path fs = refl
cleanup_last (p ∷ paths) path fs = cleanup_last paths path (remove_file p fs)

-- A new file is the only one that removing the others leaves beside what was there.
remove-cleanup_new :
    (paths : List Text) (path : Text) (fs : List Text)
    → stands path fs ≡ false
    → remove_file path (cleanup paths (path ∷ fs)) ≡ cleanup paths fs
unfolding cleanup filter
remove-cleanup_new [] path fs h = remove_new path fs h
remove-cleanup_new (p ∷ paths) path fs h = elim (Bool-cases (path == p)) [
  | inl same ↦
      rw (remove_file, same)
        (remove_absent path (cleanup paths (remove_file p fs))
          (stands-cleanup path paths (remove_file p fs) (stands-remove path p fs h)))
  | inr other ↦
      rw (remove_file, other)
        (remove-cleanup_new paths path (remove_file p fs) (stands-remove path p fs h))
]

pub disk_call-files : (d : Disk) → (disk_call d).1.files ≡ d.files
unfolding disk_call
disk_call-files d = ground arith

-- Saving a file fails and leaves the files as they were, or adds one that was not there.
abbrev Saved : List Text → Option (Text × Text) × Disk → Type 0
Saved fs (none, d) = d.files ≡ fs
Saved fs (some (url, path), d) = (d.files ≡ path ∷ fs) × (stands path fs ≡ false)

module _ {F : Type 0} (lib : QtiLib F) where
  write_file-Saved :
      (e new_name path : Text) (stream : Stream) (d : Disk)
      → stands path d.files ≡ false
      → Saved d.files (write_file lib e new_name path stream d)
  unfolding write_file
  write_file-Saved e new_name path stream d new =
      let made : Disk = record d { files = path ∷ d.files } in
      elim (Bool-cases (content_ok lib e stream)) [
        | inl good ↦ elim (Bool-cases (disk_call made).0) [
          | inl closed ↦ rw (good, closed) (disk_call-files made, new)
          | inr failed ↦
              rw (good, failed)
                (ap (remove_file path) (disk_call-files made) ∙ remove_new path d.files new)
        ]
        | inr bad ↦ rw bad (remove_new path d.files new)
      ]

  create_file-Saved :
      (e new_name path : Text) (stream : Stream) (d : Disk)
      → Saved d.files (create_file lib e new_name path stream d)
  unfolding create_file
  create_file-Saved e new_name path stream d =
      let first = disk_call d in
      let second = disk_call first.1 in
      let same : second.1.files ≡ d.files = disk_call-files first.1 ∙ disk_call-files d in
      elim (Bool-cases first.0) [
        | inl rooted ↦ elim (Bool-cases (not second.0 || stands path second.1.files)) [
          | inl refused ↦ rw (rooted, refused) same
          | inr free ↦
              rw (rooted, free)
                (subst (λ fs. Saved fs (write_file lib e new_name path stream second.1)) same
                  (write_file-Saved e new_name path stream second.1 (ground arith)))
        ]
        | inr failed ↦ rw failed (disk_call-files d)
      ]

  save_media_file-Saved :
      (root new_id : Text) (file : ZipFile) (d : Disk)
      → Saved d.files (save_media_file lib root new_id file d)
  unfolding save_media_file
  save_media_file-Saved root new_id file d = elim (Option-cases file.opened) [
    | inl unopened ↦ rw unopened refl
    | inr (stream, opened) ↦ rw opened (
        create_file-Saved (ext file.name) (new_id ++ ext file.name)
          (root ++ b'/' ∷ (new_id ++ ext file.name)) stream d)
  ]

-- Removing the files of the scan gives back the files before it.
abbrev pub Restores : List Text → List Text → Disk → Type 0
Restores before created d = cleanup created d.files ≡ before

write_new :
    (before created : List Text) (path : Text) (d d' : Disk)
    → Restores before created d
    → d'.files ≡ path ∷ d.files
    → stands path d.files ≡ false
    → Restores before (created ++ path ∷ []) d'
write_new before created path d d' k e new =
    cleanup_last created path d'.files
    ∙ ap (λ fs. remove_file path (cleanup created fs)) e
    ∙ remove-cleanup_new created path d.files new
    ∙ k

-- The same after one round, whether the scan goes on or stops
abbrev RoundRestores : List Text → Scan → Option Scan × Disk → Type 0
RoundRestores before scan (none, d) = Restores before scan.created d
RoundRestores before scan (some scan', d) = Restores before scan'.created d

gather-Restores :
    (before : List Text) (file : ZipFile) (scan : Scan) (d : Disk)
    (saved : Option (Text × Text) × Disk)
    → Restores before scan.created d
    → Saved d.files saved
    → RoundRestores before scan (gather file scan saved.0, saved.1)
gather-Restores before file scan d (none, d') k same = ap (cleanup scan.created) same ∙ k
gather-Restores before file scan d (some (url, path), d') k (made, new) =
    write_new before scan.created path d d' k made new

other-Restores :
    (before : List Text) (xml : Bool) (file : ZipFile) (scan : Scan) (d : Disk)
    → Restores before scan.created d
    → RoundRestores before scan (if xml then gather_xml file scan else some scan, d)
other-Restores before false file scan d k = k
other-Restores before true file scan d k =
    elim (Bool-cases (ltb max_xml_size file.uncompressed_size)) [
      | inl long ↦ rw long k
      | inr short ↦ rw short k
    ]

module _ {F : Type 0} (lib : QtiLib F) (root : Text) (new_id : ℕ → Text) where
  scan_file-Restores :
      (before : List Text) (i : ℕ) (file : ZipFile) (scan : Scan) (d : Disk)
      → Restores before scan.created d
      → RoundRestores before scan (scan_file lib root new_id i file scan d)
  unfolding scan_file
  scan_file-Restores before i file scan d k =
      let e = lib.to_lower (ext file.name) in
      elim (Bool-cases (e == codes ".svg")) [
        | inl svg ↦ rw svg k
        | inr usual ↦ elim (Bool-cases (is_media e)) [
          | inl media ↦
              rw (usual, media)
                (gather-Restores before file scan d (save_media_file lib root (new_id i) file d) k
                  (save_media_file-Saved lib root (new_id i) file d))
          | inr other ↦ rw (usual, other) (other-Restores before (e == codes ".xml") file scan d k)
        ]
      ]

  -- After a scan, whether it went through or stopped, the cleanup gives back the files before it.
  pub scan_files-Restores :
      (before : List Text) (i : ℕ) (files : List ZipFile) (scan : Scan) (d : Disk)
      → Restores before scan.created d
      → let r = scan_files lib root new_id i files scan d in Restores before r.1.created r.2
  unfolding scan_files
  scan_files-Restores before i [] scan d k = k
  scan_files-Restores before i (file ∷ files) scan d k =
      go (scan_file lib root new_id i file scan d) (scan_file-Restores before i file scan d k)
        (scan_files-Restores before (suc i) files)
    where
      go :
          (x : Option Scan × Disk)
          → RoundRestores before scan x
          → ((scan' : Scan) (d' : Disk)
              → Restores before scan'.created d'
              → let r = scan_files lib root new_id (suc i) files scan' d' in
                Restores before r.1.created r.2)
          → let r : Bool × Scan × Disk = elim x.0 [
            | none ↦ (false, scan, x.1)
            | some scan' ↦ scan_files lib root new_id (suc i) files scan' x.1
          ] in
            Restores before r.1.created r.2
      go (none, d') k' ih = k'
      go (some scan', d') k' ih = ih scan' d' k'
