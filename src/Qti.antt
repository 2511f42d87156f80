-- ===== src/Qti.antt =====
-- internal/service/qti_service.go: the import of a QTI 3.0 package. Reading the ZIP archive and its
-- entries, decoding XML, sniffing a content type and the calls of the file system are parameters.
pub mod Limits
pub mod Paths
pub mod Media
pub mod Items
pub mod Import
mod Tests
use tao_core_go.Prelude.{ℕ, Text, Bool, Option, List}
use tao_core_go.Prelude.Int.{ℤ}
use tao_core_go.Models.{ItemOption}

-- What an opened entry gives: its bytes, and whether reading ends in an error instead of at the end.
pub record Stream : Type 0 where
  pub bytes : List ℕ
  pub broken : Bool

-- `zip.File`; the sizes are the uint64 values that the archive states, and `opened` is what `Open`
-- returns.
pub record ZipFile : Type 0 where
  pub name : Text
  pub uncompressed_size : ℕ
  pub compressed_size : ℕ
  pub opened : Option Stream

-- `os.Stat` and `zip.OpenReader` of the uploaded file
pub record Package : Type 0 where
  pub is_regular : Bool
  pub size : ℕ
  pub files : Option (List ZipFile)

-- `QTIAssessmentItem`, with the fields that the service reads
pub record AssessmentItem (F : Type 0) : Type 0 where
  pub identifier : Text
  pub title : Text
  pub correct_response : List Text
  pub default_value : F
  pub response_identifier : Text
  pub max_choices : ℤ
  pub prompt : Text
  pub simple_choices : List ItemOption

-- What the service takes from the packages that it imports.
pub record QtiLib (F : Type 0) : Type 0 where
  pub to_lower : Text → Text
  pub detect_content_type : List ℕ → Text
  pub unmarshal : List ℕ → Option (AssessmentItem F)
  pub marshal_options : List ItemOption → Text
  -- the order in which `range` visits a map
  pub visit : List (Text × Text) → List (Text × Text)
