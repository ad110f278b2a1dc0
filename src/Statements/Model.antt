-- ===== src/Statements/Model.antt =====
-- The rows that the statement pipeline reads and writes: core/models/statements/file.py and its
-- neighbours. Identifiers are numbers; dates are day numbers.
use nbe_financial_advisor_ba.Prelude.{ℕ, Bool, Option, none, some, List}
use nbe_financial_advisor_ba.Prelude.Text.{Text}

pub data Status : Type 0 where
  uploaded extracted normalized approved : Status

pub data Phase : Type 0 where
  extraction normalization : Phase

-- What is stored as `failure_reason`: the text of an exception, the error that the AI service gave
-- for a job, its default, or the message of an exhausted poll budget.
pub data Reason : Type 0 where
  exception : Text → Reason
  job_error : Text → Reason
  job_failed : Reason
  timed_out : (job_id : ℕ) → Reason

pub record Statement : Type 0 where
  pub account : Option ℕ
  pub status : Status
  pub failure_reason : Option Reason
  pub failed_phase : Option Phase
  pub is_processing : Bool
  pub start_transaction_date : Option ℕ
  pub last_transaction_date : Option ℕ

pub record OcrResult : Type 0 where
  pub seaweed_file_id : Text
  pub ocr_engine : Text
  pub confidence_score : ℕ

-- `transaction_dates` has `none` where the text is no ISO date.
pub record NormalizedJson : Type 0 where
  pub bank_name : Option Text
  pub account_number : Option Text
  pub transaction_dates : List (Option ℕ)

-- A bank account of the statement's user.
pub record Account : Type 0 where
  pub id : ℕ
  pub bank_name : Text
  pub account_number : Text

-- The payload of the `statement_status` event.
pub record StatusEvent : Type 0 where
  pub status : Status
  pub is_processing : Bool
  pub failure_reason : Option Reason
  pub failed_phase : Option Phase

-- The statement's row and all that the pipeline adds to: its OCR and normalization records, the
-- user's accounts, the notices sent (by number of transactions found) and the events published.
pub record Db : Type 0 where
  pub statement : Statement
  pub ocr_results : List OcrResult
  pub normalized_records : List NormalizedJson
  pub accounts : List Account
  pub notices : List ℕ
  pub events : List StatusEvent

-- The index of a status in `_STATUS_ORDER`.
abbrev pub rank : Status → ℕ
rank uploaded = 0
rank extracted = 1
rank normalized = 2
rank approved = 3

-- `_PHASE_FOR_STATUS.get(status)`
abbrev pub phase_for_status : Status → Option Phase
phase_for_status uploaded = some extraction
phase_for_status extracted = some normalization
phase_for_status _ = none
