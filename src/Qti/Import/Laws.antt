-- ===== src/Qti/Import/Laws.antt =====
-- An import creates all its questions and keeps its media files, or changes nothing.
use mathlib.Core.List.{append_assoc, append-nil}
use tao_core_go.Prelude.{
  ℕ, suc, Text, Bool, true, false, Option, none, some, List, [], ◌∷◌, ◌++◌, ◌≡◌, ◌≢◌, inl, inr,
  refl, sym, ap, ◌∙◌, any, ◌==◌, text_eq_instance, Bool-cases,
}
use tao_core_go.Float.{Float64}
use tao_core_go.Models.{Item}
use tao_core_go.Store.{
  Db, World, Tx, Result, ok, err, Error, duplicated_key, pure, transaction, ◌>>=◌,
}
use tao_core_go.Store.Faults.{transaction_atomic}
use tao_core_go.Store.Frame.{continue_rule, guarded_done, transaction_done, Keeps-query}
use tao_core_go.Qti.{ZipFile, Package, QtiLib}
use tao_core_go.Qti.Limits.{open_package}
use tao_core_go.Qti.Media.{Disk, disk_call, Scan, scan_files, cleanup}
use tao_core_go.Qti.Media.Cleanup.{disk_call-files, Restores, scan_files-Restores}
use tao_core_go.Qti.Items.{parse_qti_xml_file}
use tao_core_go.Qti.Import.{
  with_default_layout, ImportEnv, create_item, begin, some_imported, no_scan, create_parsed,
  import_items, import_tx, keep_or_clean, import_scanned, import_files, import_opened,
  import_qti_package,
}

-- The tables with the questions added
abbrev pub with_items : {F : Type 0} → List (Item F) → Db F → Db F
with_items items db = record db { items = db.items ++ items }

module _ {F : Type 0} where
  -- A success adds the questions that it returns, and nothing else.
  abbrev Adds : Db F → Result (List (Item F)) × World F → Type 0
  Adds db x = (items : List (Item F)) → x.0 ≡ ok items → x.1.db ≡ with_items items db

  create_item_done :
      (item : Item F) (w : World F) (a : Unit)
      → (create_item item w).0 ≡ ok a
      → (create_item item w).1.db ≡ with_items (item ∷ []) w.db
  unfolding create_item
  create_item_done item w a h =
      (guarded_done (λ db. any (λ r. r.id == item.id) db.items) duplicated_key
        (with_items (item ∷ [])) w a h).1

  pure-Adds :
      (items : List (Item F)) (db : Db F) (w : World F)
      → w.db ≡ with_items items db
      → Adds db (pure items w)
  pure-Adds items db w e later h =
      let same : items ≡ later = cc in e ∙ ap (λ is. with_items is db) same

  begin-same : (w : World F) → (begin w).1.db ≡ w.db
  unfolding begin
  begin-same w = (Keeps-query (λ db. db) (λ db. tt)).kept w

module _ {F : Type 0} ⦃float : Float64 F⦄ (lib : QtiLib F) (env : ImportEnv) where
  create_parsed-Adds :
      (o : Option (Item F)) (rest : Tx F (List (Item F)))
      → ((w : World F) → Adds w.db (rest w))
      → (w : World F) → Adds w.db (create_parsed lib env o rest w)
  create_parsed-Adds none rest k w = k w
  create_parsed-Adds (some item) rest k w =
      let row = with_default_layout item in
      continue_rule (Adds w.db) (λ done. rest >>= λ items. pure (row ∷ items)) (create_item row w).0
        (create_item row w).1 (λ e failed items h. cc)
        (λ done created.
          let w' = (create_item row w).1 in
          continue_rule (Adds w.db) (λ items. pure (row ∷ items)) (rest w').0 (rest w').1
            (λ e failed items h. cc)
            (λ items made. pure-Adds (row ∷ items) w.db (rest w').1 (
              k w' items made
              ∙ ap (with_items items) (create_item_done row w done created)
              ∙ ap (λ is. record (w.db) { items = is })
                  (append_assoc w.db.items (row ∷ []) items))))

  import_items-Adds :
      (media_map : List (Text × Text)) (i : ℕ) (files : List ZipFile) (w : World F)
      → Adds w.db (import_items lib env media_map i files w)
  unfolding import_items
  import_items-Adds media_map i [] w =
      pure-Adds [] w.db w (ap (λ is. record (w.db) { items = is }) (sym (append-nil w.db.items)))
  import_items-Adds media_map i (file ∷ files) w =
      create_parsed-Adds (parse_qti_xml_file lib (env.item_env i) media_map file)
        (import_items lib env media_map (suc i) files) (import_items-Adds media_map (suc i) files) w

  -- What an import that goes through has done: the package was within its limits, and there are new
  -- questions, all of which are in the table.
  pub record IsImported (p : Package) (w w' : World F) (items : List (Item F)) : Type 0 where
    pub opened : (files : List ZipFile) × (open_package p ≡ some files)
    pub some_new : items ≢ []
    pub added : w'.db ≡ with_items items w.db

  -- A failure leaves the tables and the files as they were.
  abbrev pub Ends : Package → Disk → World F → (Result (List (Item F)) × Disk) × World F → Type 0
  Ends p d w ((ok items, d'), w') = IsImported p w w' items
  Ends p d w ((err e, d'), w') = (w'.db ≡ w.db) × (d'.files ≡ d.files)

  some_imported-ok :
      (items later : List (Item F)) (w : World F)
      → (some_imported items w).0 ≡ ok later
      → (items ≡ later) × (later ≢ []) × ((some_imported items w).1.db ≡ w.db)
  some_imported-ok [] later w h = cc
  some_imported-ok (item ∷ items) later w h = (cc, (λ e. cc), refl)

  import_tx-ok :
      (scan : Scan) (w : World F) (items : List (Item F))
      → (import_tx lib env scan w).0 ≡ ok items
      → (items ≢ []) × ((import_tx lib env scan w).1.db ≡ with_items items w.db)
  unfolding import_tx
  import_tx-ok scan w =
      continue_rule
        (λ x.
          (items : List (Item F))
          → x.0 ≡ ok items
          → (items ≢ []) × (x.1.db ≡ with_items items w.db))
        _ (begin w).0 (begin w).1 (λ e failed items h. cc)
        (λ started begun.
          let w' = (begin w).1 in
          let m = import_items lib env scan.media_map 0 scan.xml_files in
          continue_rule
            (λ x.
              (items : List (Item F))
              → x.0 ≡ ok items
              → (items ≢ []) × (x.1.db ≡ with_items items w.db))
            some_imported (m w').0 (m w').1 (λ e failed items h. cc)
            (λ made imported later h.
              let (same, filled, kept) = some_imported-ok made later (m w').1 h in
              (
                filled,
                kept
                    ∙ import_items-Adds scan.media_map 0 scan.xml_files w' made imported
                    ∙ (λ i. with_items (same i) (begin-same w i)),
              )))

  import_scanned-Ends :
      (p : Package) (files : List ZipFile)
      → open_package p ≡ some files
      → (d : Disk) (w : World F) (r : Bool × Scan × Disk) → Restores d.files r.1.created r.2
      → Ends p d w (import_scanned lib env r w)
  import_scanned-Ends p files opened d w (false, scan, d') k = (refl, k)
  import_scanned-Ends p files opened d w (true, scan, d') k =
      go (transaction (import_tx lib env scan) w)
        (λ items h.
          let (inside, same) = transaction_done (import_tx lib env scan) w items h in
          let (filled, added) = import_tx-ok scan w items inside in (filled, same ∙ added))
        (λ e h. transaction_atomic (import_tx lib env scan) w e h)
    where
      go :
          (x : Result (List (Item F)) × World F)
          → ((items : List (Item F))
              → x.0 ≡ ok items
              → (items ≢ []) × (x.1.db ≡ with_items items w.db))
          → ((e : Error) → x.0 ≡ err e → x.1.db ≡ w.db)
          → Ends p d w (keep_or_clean lib env scan d' x)
      go (ok items, w') done undone =
          let (filled, added) = done items refl in
          record { opened = (files, opened); some_new = filled; added = added }
      go (err e, w') done undone = (undone e refl, k)

  import_files-Ends :
      (p : Package) (files : List ZipFile)
      → open_package p ≡ some files
      → (d : Disk) (w : World F) → Ends p d w (import_files lib env files d w)
  unfolding import_files
  import_files-Ends p files opened d w = elim (Bool-cases (disk_call d).0) [
    | inl made ↦ rw made (
        import_scanned-Ends p files opened d w
          (scan_files lib env.root env.file_id 0 files no_scan (disk_call d).1)
          (scan_files-Restores lib env.root env.file_id d.files 0 files no_scan (disk_call d).1
            (unfold cleanup in disk_call-files d)))
    | inr failed ↦ rw failed (refl, disk_call-files d)
  ]

  import_opened-Ends :
      (p : Package) (d : Disk) (w : World F) (o : Option (List ZipFile))
      → open_package p ≡ o
      → Ends p d w (import_opened lib env o d w)
  import_opened-Ends p d w none h = (refl, refl)
  import_opened-Ends p d w (some files) h = import_files-Ends p files h d w

  -- Whatever the driver does and whichever call on a file that is written fails, and where the
  -- files written can be removed again, an import that fails leaves the tables and the files as
  -- they were, and one that succeeds was of a package within the limits and returns one or more
  -- questions, which are added to the table as its only change.
  pub import_qti_package-Ends :
      (p : Package) (d : Disk) (w : World F) → Ends p d w (import_qti_package lib env p d w)
  unfolding import_qti_package
  import_qti_package-Ends p d w = import_opened-Ends p d w (open_package p) refl
