-- ===== src/Qti/Import.antt =====
-- `ImportQTIPackage`: the checks, the scan and the transaction that creates the questions.
pub mod Laws
use tao_core_go.Prelude.{
  ℕ, zero, suc, Text, Bool, true, false, not, Option, none, some, List, [], ◌∷◌, ◌++◌, codes, any,
  ◌==◌, text_eq_instance, if◌then◌else◌,
}
use tao_core_go.Text.{is_empty}
use tao_core_go.Float.{Float64}
use tao_core_go.Models.{Item}
use tao_core_go.Store.{
  Db, World, Tx, Result, ok, err, Error, duplicated_key, rejected, pure, raise, query, write,
  transaction, ◌>>=◌,
}
use tao_core_go.Qti.{ZipFile, Package, QtiLib}
use tao_core_go.Qti.Limits.{open_package}
use tao_core_go.Qti.Media.{Disk, disk_call, Scan, scan_files, cleanup}
use tao_core_go.Qti.Items.{ItemEnv, parse_qti_xml_file}

-- The directory for the media, and the random values: names of files, and for each XML file
pub record ImportEnv : Type 0 where
  pub root : Text
  pub file_id : ℕ → Text
  pub item_env : ℕ → ItemEnv

module _ {F : Type 0} where
  -- gorm writes the default of a column where the field is empty, into the row and the struct.
  abbrev pub with_default_layout : Item F → Item F
  with_default_layout item =
      if is_empty item.layout_hint then record item { layout_hint = codes "AUTO" } else item

  unfoldable pub create_item : Item F → Tx F Unit
  create_item item = write (λ db.
      if any (λ r. r.id == item.id) db.items
      then err duplicated_key
      else ok (tt, record db { items = db.items ++ item ∷ [] }))

  -- `Begin`
  unfoldable pub begin : Tx F Unit
  begin = query (λ db. tt)

abbrev pub some_imported : {F : Type 0} → List (Item F) → Tx F (List (Item F))
some_imported [] = raise rejected
some_imported (item ∷ items) = pure (item ∷ items)

abbrev pub no_scan : Scan
no_scan = record { media_map = []; xml_files = []; created = [] }

module _ {F : Type 0} ⦃float : Float64 F⦄ (lib : QtiLib F) (env : ImportEnv) where
  abbrev pub create_parsed : Option (Item F) → Tx F (List (Item F)) → Tx F (List (Item F))
  create_parsed none rest = rest
  create_parsed (some item) rest =
      let created = with_default_layout item in
      create_item created >>= λ done. rest >>= λ items. pure (created ∷ items)

  -- A file that is no question is skipped; a question that cannot be created ends the import.
  unfoldable pub import_items : List (Text × Text) → ℕ → List ZipFile → Tx F (List (Item F))
  import_items media_map i [] = pure []
  import_items media_map i (file ∷ files) =
      create_parsed (parse_qti_xml_file lib (env.item_env i) media_map file)
        (import_items media_map (suc i) files)

  unfoldable pub import_tx : Scan → Tx F (List (Item F))
  import_tx scan =
      begin >>= λ started. import_items scan.media_map 0 scan.xml_files >>= some_imported

  -- The files made are kept only once the questions are committed.
  abbrev pub keep_or_clean :
      Scan → Disk → Result (List (Item F)) × World F → (Result (List (Item F)) × Disk) × World F
  keep_or_clean scan d (ok items, w) = ((ok items, d), w)
  keep_or_clean scan d (err e, w) = ((err e, record d { files = cleanup scan.created d.files }), w)

  abbrev pub import_scanned :
      Bool × Scan × Disk → World F → (Result (List (Item F)) × Disk) × World F
  import_scanned (false, scan, d) w = keep_or_clean scan d (err rejected, w)
  import_scanned (true, scan, d) w = keep_or_clean scan d (transaction (import_tx scan) w)

  unfoldable pub import_files :
      List ZipFile → Disk → World F → (Result (List (Item F)) × Disk) × World F
  import_files files d w =
      let (made, d') = disk_call d in
      if made
      then import_scanned (scan_files lib env.root env.file_id 0 files no_scan d') w
      else ((err rejected, d'), w)

  abbrev pub import_opened :
      Option (List ZipFile) → Disk → World F → (Result (List (Item F)) × Disk) × World F
  import_opened none d w = ((err rejected, d), w)
  import_opened (some files) d w = import_files files d w

  -- `ImportQTIPackage`, where `os.Stat` has succeeded
  unfoldable pub import_qti_package :
      Package → Disk → World F → (Result (List (Item F)) × Disk) × World F
  import_qti_package p d w = import_opened (open_package p) d w
