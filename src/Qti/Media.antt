-- ===== src/Qti/Media.antt =====
-- The first pass over a package: `saveMediaFile`, `validateMediaType` and the scan for media files
-- and XML. A file is its path; removing a file that the service has just made is taken to succeed.
pub mod Cleanup
use tao_core_go.Prelude.{
  ℕ, zero, suc, ◌-◌, Text, Bool, true, false, not, ◌&&◌, ◌||◌, Option, none, some, List, [], ◌∷◌,
  ◌++◌, length, any, filter, ltb, eqb, codes, ◌==◌, text_eq_instance, if◌then◌else◌,
}
use tao_core_go.Prelude.Maps.{put}
use tao_core_go.Text.{is_empty}
use tao_core_go.Qti.{Stream, ZipFile, QtiLib}
use tao_core_go.Qti.Limits.{max_file_size, max_xml_size}
use tao_core_go.Qti.Paths.{ext, base}

-- The files of the media directory, and the plan of the calls that will fail: `true` for a failure
pub record Disk : Type 0 where
  pub files : List Text
  pub faults : List Bool

-- Whether the next call of the file system succeeds
abbrev call_on : List Text → List Bool → Bool × Disk
call_on fs [] = (true, record { files = fs; faults = [] })
call_on fs (b ∷ bs) = (not b, record { files = fs; faults = bs })

unfoldable pub disk_call : Disk → Bool × Disk
disk_call d = call_on d.files d.faults

abbrev pub stands : Text → List Text → Bool
stands path fs = any (λ f. f == path) fs

unfoldable pub remove_file : Text → List Text → List Text
remove_file path fs = filter (λ f. not (f == path)) fs

-- The table of `validateMediaType`
unfoldable pub allowed_types : Text → List Text
allowed_types e =
    if e == codes ".png"
    then codes "image/png" ∷ []
    else if e == codes ".jpg" || e == codes ".jpeg"
    then codes "image/jpeg" ∷ []
    else if e == codes ".gif"
    then codes "image/gif" ∷ []
    else if e == codes ".mp3"
    then codes "audio/mpeg" ∷ codes "application/octet-stream" ∷ []
    else if e == codes ".mp4"
    then codes "video/mp4" ∷ codes "application/octet-stream" ∷ []
    else []

unfoldable pub take : ℕ → List ℕ → List ℕ
take zero bs = []
take (suc n) [] = []
take (suc n) (b ∷ bs) = b ∷ take n bs

abbrev with_file : Text → Disk → Disk
with_file path d = record d { files = path ∷ d.files }

abbrev without_file : Text → Disk → Disk
without_file path d = record d { files = remove_file path d.files }

module _ {F : Type 0} (lib : QtiLib F) where
  -- `validateMediaType`
  unfoldable pub validate_media_type : Text → Text → Bool
  unfolding allowed_types
  validate_media_type e content_type = any (λ t. t == content_type) (allowed_types (lib.to_lower e))

  -- The head of the entry can be read and is of the type that its name says, and the rest can be
  -- copied and is not too long.
  unfoldable pub content_ok : Text → Stream → Bool
  unfolding validate_media_type take
  content_ok e stream =
      not (eqb (length stream.bytes) 0)
      && not (stream.broken && ltb (length stream.bytes) 512)
      && validate_media_type e (lib.detect_content_type (take 512 stream.bytes))
      && not stream.broken
      && not (ltb max_file_size (length stream.bytes))

  -- The new file, until it is closed
  unfoldable pub write_file : Text → Text → Text → Stream → Disk → Option (Text × Text) × Disk
  write_file e new_name path stream d =
      if content_ok e stream
      then (let (closed, d') = disk_call (with_file path d) in
          if closed
          then (some (codes "/uploads/media/" ++ new_name, path), d')
          else (none, without_file path d'))
      else (none, without_file path (with_file path d))

  -- The directory is opened, and the file is made only if there is none of its name.
  unfoldable pub create_file : Text → Text → Text → Stream → Disk → Option (Text × Text) × Disk
  create_file e new_name path stream d =
      let (rooted, d') = disk_call d in
      if not rooted
      then (none, d')
      else let (made, d'') = disk_call d' in
        if not made || stands path d''.files
        then (none, d'')
        else write_file e new_name path stream d''

  -- `saveMediaFile`: the URL and the path of the new file
  unfoldable pub save_media_file : Text → Text → ZipFile → Disk → Option (Text × Text) × Disk
  save_media_file root new_id file d = elim file.opened [
    | none ↦ (none, d)
    | some stream ↦
        let new_name = new_id ++ ext file.name in
        create_file (ext file.name) new_name (root ++ b'/' ∷ new_name) stream d
  ]

-- What the scan has gathered
pub record Scan : Type 0 where
  pub media_map : List (Text × Text)
  pub xml_files : List ZipFile
  pub created : List Text

unfoldable pub is_media : Text → Bool
is_media e =
    e == codes ".png"
    || e == codes ".jpg"
    || e == codes ".jpeg"
    || e == codes ".gif"
    || e == codes ".mp3"
    || e == codes ".mp4"

abbrev pub gather : ZipFile → Scan → Option (Text × Text) → Option Scan
gather file scan none = none
gather file scan (some (url, path)) = some (record scan {
  created = scan.created ++ path ∷ [];
  media_map = put (base file.name) url (put file.name url scan.media_map);
})

abbrev pub gather_xml : ZipFile → Scan → Option Scan
gather_xml file scan =
    if ltb max_xml_size file.uncompressed_size
    then none
    else some (record scan { xml_files = scan.xml_files ++ file ∷ [] })

module _ {F : Type 0} (lib : QtiLib F) (root : Text) (new_id : ℕ → Text) where
  -- One round of the scan; `new_id` gives the random names, by the position in the archive.
  unfoldable pub scan_file : ℕ → ZipFile → Scan → Disk → Option Scan × Disk
  scan_file i file scan d =
      let e = lib.to_lower (ext file.name) in
      if e == codes ".svg"
      then (none, d)
      else if is_media e
      then (let (saved, d') = save_media_file lib root (new_id i) file d in
          (gather file scan saved, d'))
      else (if e == codes ".xml" then gather_xml file scan else some scan, d)

  -- The scan, and whether it went through to the end
  unfoldable pub scan_files : ℕ → List ZipFile → Scan → Disk → Bool × Scan × Disk
  scan_files i [] scan d = (true, scan, d)
  scan_files i (file ∷ files) scan d =
      let (next, d') = scan_file i file scan d in
      elim next [ none ↦ (false, scan, d') | some scan' ↦ scan_files (suc i) files scan' d' ]

-- The deferred removal of the files made so far
unfoldable pub cleanup : List Text → List Text → List Text
unfolding remove_file
cleanup [] fs = fs
cleanup (path ∷ paths) fs = cleanup paths (remove_file path fs)
