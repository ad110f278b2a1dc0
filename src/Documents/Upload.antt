-- ===== src/Documents/Upload.antt =====
-- `validate_statement_upload` of core/serializers/statements.py and `create_statement_from_upload` of
-- core/views/statements.py. The hash, the object store's answer and the new id are arguments.
use nbe_financial_advisor_ba.Prelude.{
  ℕ, ◌*◌, Bool, true, false, not, Option, none, some, List, [], ◌∷◌, ◌++◌, ◌&&◌, ◌||◌, ltb, ◌==◌,
  if◌then◌else◌, length,
}
use nbe_financial_advisor_ba.Prelude.Text.{Text, codes, text_eq, has_char, has_text, is_blank}
use nbe_financial_advisor_ba.Statements.Model.{Status, uploaded, normalized, Statement}
use nbe_financial_advisor_ba.Statements.Pipeline.{Refusal, validate_advance}
use nbe_financial_advisor_ba.Categories.Model.{lower}
use nbe_financial_advisor_ba.Documents.Model.{StatementFile, Key, raw, Tables, save_file}

-- The uploaded file object.
pub record FileObject : Type 0 where
  pub name : Text
  pub size : ℕ
  pub content_type : Option Text
  pub bytes : List ℕ

abbrev pub max_statement_upload_bytes : ℕ
max_statement_upload_bytes = 20 * 1024 * 1024

abbrev pub allowed_statement_extensions : List Text
allowed_statement_extensions = codes "pdf" ∷ codes "png" ∷ codes "jpg" ∷ codes "jpeg" ∷ []

abbrev pub allowed_statement_content_types : List Text
allowed_statement_content_types =
    codes "application/pdf" ∷ codes "image/png" ∷ codes "image/jpeg" ∷ []

pub data Rejection : Type 0 where
  file_required too_large unsupported_type unsupported_content_type : Rejection
  duplicate_statement storage_failed : Rejection
  not_advanced : Refusal → Rejection

-- `name.rsplit(c, 1)[-1]`
unfoldable pub last_part : ℕ → Text → Text
last_part c [] = []
last_part c (a ∷ s) =
    let rest = last_part c s in if has_char c s then rest else if a == c then s else a ∷ s

-- A content type that is given and not an allowed one.
abbrev pub bad_content_type : Option Text → Bool
bad_content_type none = false
bad_content_type (some t) = not (is_blank t) && not (has_text t allowed_statement_content_types)

-- `StatementFile.objects.filter(user, checksum).exists()`
unfoldable pub is_uploaded : (user : ℕ) (checksum : Text) → List StatementFile → Bool
is_uploaded user checksum [] = false
is_uploaded user checksum (f ∷ fs) =
    ((f.user == user) && text_eq f.checksum checksum) || is_uploaded user checksum fs

abbrev pub new_state : Statement
new_state = record {
  account = none;
  status = uploaded;
  failure_reason = none;
  failed_phase = none;
  is_processing = false;
  start_transaction_date = none;
  last_transaction_date = none;
}

abbrev pub started : StatementFile → StatementFile
started f = record f { state = record f.state { is_processing = true } }

-- `advance_statement_to`, on the row of a file
unfoldable pub advance_file : (target : Status) → StatementFile → Tables → Option Refusal × Tables
advance_file target f db = elim (validate_advance f.state target) [
  | some refusal ↦ (some refusal, db)
  | none ↦ (
    none,
    record db { files = save_file (started f) db.files; queue = db.queue ++ ((f.id, target) ∷ []) },
  )
]

-- `target_status or StatementFile.STATUS_NORMALIZED`
abbrev pub or_normalized : Option Status → Status
or_normalized none = normalized
or_normalized (some s) = s

-- The answer to the upload: the row's id, or the rejection.
pub data Answer : Type 0 where
  created : ℕ → Answer
  rejected : Rejection → Answer

module _ (unicode_lower : Text → Text) (sha256 : List ℕ → Text) where
  -- The extension, or the given text for a name without a dot.
  abbrev pub extension_of : (default : Text) → Text → Text
  extension_of default name =
      if has_char b'.' name then lower unicode_lower (last_part b'.' name) else default

  -- `validate_statement_upload`: the rejection, if any.
  unfoldable pub validate_statement_upload : FileObject → Option Rejection
  validate_statement_upload file =
      if ltb max_statement_upload_bytes file.size
      then some too_large
      else if not (has_text (extension_of [] file.name) allowed_statement_extensions)
      then some unsupported_type
      else if bad_content_type file.content_type
      then some unsupported_content_type
      else none

  unfoldable pub new_file : (id user : ℕ) → FileObject → StatementFile
  new_file id user file = record {
    id = id;
    user = user;
    checksum = sha256 file.bytes;
    file_size = length file.bytes;
    file_type = extension_of (codes "bin") file.name;
    state = new_state;
  }

  abbrev pub raw_key : (id user : ℕ) → FileObject → Key
  raw_key id user file = record {
    bucket = raw;
    user = user;
    statement = id;
    name = codes "original." ++ extension_of (codes "bin") file.name;
  }

  unfoldable pub answer : (id : ℕ) → Option Refusal × Tables → Answer × Tables
  answer id (some refusal, db) = (rejected (not_advanced refusal), db)
  answer id (none, db) = (created id, db)

  -- The row and the start of its pipeline, once the file is stored.
  unfoldable pub create_row :
      (id user : ℕ) → FileObject → (target : Status) → Tables → Answer × Tables
  unfolding answer
  create_row id user file target db =
      let f = new_file id user file in
      answer id (
        advance_file target f
          (record db { files = f ∷ db.files; objects = raw_key id user file ∷ db.objects }))

  -- A file that has passed validation.
  unfoldable pub store_upload :
      (id user : ℕ) (stored : Bool) → FileObject → (target : Status) → Tables → Answer × Tables
  store_upload id user stored file target db =
      if is_uploaded user (sha256 file.bytes) db.files
      then (rejected duplicate_statement, db)
      else if not stored
      then (rejected storage_failed, db)
      else create_row id user file target db

  unfoldable pub on_validation :
      (id user : ℕ) (stored : Bool)
      → FileObject
      → (target_status : Option Status) → Tables
      → Option Rejection
      → Answer × Tables
  on_validation id user stored file target_status db (some rejection) = (rejected rejection, db)
  on_validation id user stored file target_status db none =
      store_upload id user stored file (or_normalized target_status) db

  -- A file object without a name counts as missing.
  unfoldable pub create_statement_from_upload :
      (id user : ℕ) (stored : Bool)
      → Option FileObject
      → (target_status : Option Status) → Tables
      → Answer × Tables
  create_statement_from_upload id user stored none target_status db = (rejected file_required, db)
  create_statement_from_upload id user stored (some file) target_status db =
      if is_blank file.name
      then (rejected file_required, db)
      else on_validation id user stored file target_status db (validate_statement_upload file)
