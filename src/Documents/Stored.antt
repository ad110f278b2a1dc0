-- ===== src/Documents/Stored.antt =====
-- An upload creates one row or nothing.
use mathlib.Core.Path.{subst}
use nbe_financial_advisor_ba.Prelude.{
  ℕ, ◌≡◌, refl, sym, ◌⊎◌, inl, inr, Bool, true, false, Option, none, some, List, [], ◌∷◌, ◌++◌,
  ◌||◌, ◌==◌, ==_iff, arith, Bool-cases, Option-cases,
}
use nbe_financial_advisor_ba.Prelude.Text.{Text, is_blank}
use nbe_financial_advisor_ba.Statements.Model.{Status, uploaded, extracted, normalized, approved}
use nbe_financial_advisor_ba.Statements.Pipeline.{validate_advance}
use nbe_financial_advisor_ba.Documents.Model.{StatementFile, Tables, save_file}
use nbe_financial_advisor_ba.Documents.Upload.{
  FileObject, Rejection, file_required, duplicate_statement, storage_failed, created, rejected,
  is_uploaded, started, advance_file, validate_statement_upload, new_file, raw_key, answer,
  create_row, store_upload, on_validation, create_statement_from_upload, or_normalized,
}

-- Some row has the id.
abbrev pub has_id : ℕ → List StatementFile → Bool
has_id id [] = false
has_id id (f ∷ fs) = (f.id == id) || has_id id fs

save_file_unknown :
    (f : StatementFile) (gs : List StatementFile) → has_id f.id gs ≡ false → save_file f gs ≡ gs
unfolding save_file
save_file_unknown f [] unknown = refl
save_file_unknown f (g ∷ gs) unknown =
    let other : (g.id == f.id) ≡ false = ground (arith, unknown) in
    rw (other, save_file_unknown f gs (ground (arith, unknown))) refl

-- A target that the request may name, or none.
abbrev pub is_target : Option Status → Bool
is_target none = true
is_target (some extracted) = true
is_target (some normalized) = true
is_target (some _) = false

module _ (unicode_lower : Text → Text) (sha256 : List ℕ → Text) (id user : ℕ) where
  -- The tables after an upload that succeeds.
  unfoldable pub with_upload : FileObject → (target : Status) → Tables → Tables
  with_upload file target db = record db {
    files = started (new_file unicode_lower sha256 id user file) ∷ db.files;
    objects = raw_key unicode_lower sha256 id user file ∷ db.objects;
    queue = db.queue ++ ((id, target) ∷ []);
  }

  create_row_lem :
      (file : FileObject) (target_status : Option Status) (db : Tables)
      → is_target target_status ≡ true
      → has_id id db.files ≡ false
      → create_row unicode_lower sha256 id user file (or_normalized target_status) db
        ≡ (created id, with_upload file (or_normalized target_status) db)
  unfolding create_row answer advance_file validate_advance new_file with_upload save_file
  create_row_lem file none db target unknown =
      let f = new_file unicode_lower sha256 id user file in
      rw ((==_iff id id).1 refl, save_file_unknown (started f) db.files unknown) refl
  create_row_lem file (some extracted) db target unknown =
      let f = new_file unicode_lower sha256 id user file in
      rw ((==_iff id id).1 refl, save_file_unknown (started f) db.files unknown) refl
  create_row_lem file (some normalized) db target unknown =
      let f = new_file unicode_lower sha256 id user file in
      rw ((==_iff id id).1 refl, save_file_unknown (started f) db.files unknown) refl
  create_row_lem file (some uploaded) db target unknown = absurd (ground (arith, target))
  create_row_lem file (some approved) db target unknown = absurd (ground (arith, target))

  -- With a fresh id and a target that the request may name, an upload either is rejected and changes
  -- nothing, or it creates one row whose pipeline runs, one object and one task, and no file of the
  -- user had the checksum.
  pub upload_all_or_nothing :
      (stored : Bool) (file : Option FileObject) (target_status : Option Status) (db : Tables)
      → is_target target_status ≡ true
      → has_id id db.files ≡ false
      → (let result =
            create_statement_from_upload unicode_lower sha256 id user stored file target_status
              db in
          ((r : Rejection) × (result ≡ (rejected r, db)))
          ⊎ ((f : FileObject) × (file ≡ some f)
              × (is_uploaded user (sha256 f.bytes) db.files ≡ false)
              × (result ≡ (created id, with_upload f (or_normalized target_status) db))))
  unfolding create_statement_from_upload on_validation store_upload
  upload_all_or_nothing stored none target_status db target unknown = inl (file_required, refl)
  upload_all_or_nothing stored (some f) target_status db target unknown =
      elim (Bool-cases (is_blank f.name)) [
        | inl nameless ↦ rw nameless (inl (file_required, refl))
        | inr named ↦ elim (Option-cases (validate_statement_upload unicode_lower sha256 f)) [
          | inr (r, bad) ↦ rw (named, bad) (inl (r, refl))
          | inl good ↦ elim (Bool-cases (is_uploaded user (sha256 f.bytes) db.files)) [
            | inl known ↦ rw (named, good, known) (inl (duplicate_statement, refl))
            | inr new ↦ elim (Bool-cases stored) [
              | inl kept ↦
                  rw (named, good, new, kept)
                    (inr (f, refl, new, create_row_lem f target_status db target unknown))
              | inr lost ↦ rw (named, good, new, lost) (inl (storage_failed, refl))
            ]
          ]
        ]
      ]

-- No user has two files with one checksum.
abbrev pub IsUniqueFile : List StatementFile → Type 0
IsUniqueFile [] = Unit
IsUniqueFile (f ∷ fs) = (is_uploaded f.user f.checksum fs ≡ false) × IsUniqueFile fs

-- The rows of a user stay pairwise different in their checksums over an upload.
upload-IsUniqueFile :
    (unicode_lower : Text → Text) (sha256 : List ℕ → Text) (id user : ℕ) (stored : Bool)
    (file : Option FileObject) (target_status : Option Status) (db : Tables)
    → is_target target_status ≡ true
    → has_id id db.files ≡ false
    → IsUniqueFile db.files
    → IsUniqueFile
        (create_statement_from_upload unicode_lower sha256 id user stored file target_status
          db).1.files
unfolding with_upload new_file
upload-IsUniqueFile unicode_lower sha256 id user stored file target_status db target unknown
      unique =
    elim (upload_all_or_nothing unicode_lower sha256 id user stored file target_status db target
      unknown) [
        | inl (r, e) ↦ subst (λ x. IsUniqueFile x.1.files) (sym e) unique
        | inr (f, _, new, e) ↦ subst (λ x. IsUniqueFile x.1.files) (sym e) (new, unique)
      ]
