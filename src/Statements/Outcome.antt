-- ===== src/Statements/Outcome.antt =====
-- How a run of the statement task can end.
use nbe_financial_advisor_ba.Prelude.{
  ℕ, suc, ◌≤◌, ◌≡◌, refl, true, false, Option, none, some, List, [], ◌∷◌, arith, is_some, inl, inr,
  Bool-cases, leb,
}
use nbe_financial_advisor_ba.Statements.Model.{
  extracted, Phase, extraction, normalization, NormalizedJson, Db, rank, phase_for_status,
}
use nbe_financial_advisor_ba.Statements.Phases.{
  Finalized, saved, raised, finalize, finalize_extraction, finalize_normalization, normalize_onto,
  store_normalized, with_dates, resolve_account, parse_dates, account_is, several_match, JobResult,
  ocr, normalization_result, incomplete, malformed, raise_onto,
}
use nbe_financial_advisor_ba.Statements.Pipeline.{
  Celery, Round, Exit, finished, retry, raises, retry_refused, out_of_fuel, Submission, Poll,
  max_poll_attempts, mark_processing, after_finalize, on_poll, keep_polling, on_submission, round,
  job, submit_raises, no_job_id, malformed_status, succeeded, failed, pending, poll_raises,
}

-- A phase that succeeded has moved the statement to the next status and cleared any failure.
abbrev Advances : Db → Finalized → Type 0
Advances db (saved db') =
    (rank db'.statement.status ≡ suc (rank db.statement.status))
    × (db'.statement.is_processing ≡ false)
    × (db'.statement.failure_reason ≡ none)
    × (db'.statement.failed_phase ≡ none)
Advances db (raised e db') = db'.statement ≡ db.statement

-- A failed phase leaves the statement as it was, and says why it failed.
store_normalized-Advances :
    (j : NormalizedJson) (dates : Option (List ℕ)) (account : ℕ) (db : Db)
    → db.statement.status ≡ extracted
    → Advances db (store_normalized j dates account db)
unfolding store_normalized with_dates
store_normalized-Advances j none account db e = refl
store_normalized-Advances j (some []) account db e = rw e (refl, refl, refl, refl)
store_normalized-Advances j (some (d ∷ ds)) account db e = rw e (refl, refl, refl, refl)

finalize-Advances :
    (phase : Phase) (r : JobResult) (fresh : ℕ) (db : Db)
    → phase_for_status db.statement.status ≡ some phase
    → Advances db (finalize phase r fresh db)
unfolding finalize finalize_extraction finalize_normalization normalize_onto raise_onto
finalize-Advances extraction (ocr r) fresh db e = ground arith
finalize-Advances extraction (normalization_result j) fresh db e = refl
finalize-Advances extraction (incomplete j t) fresh db e = refl
finalize-Advances extraction (malformed t) fresh db e = refl
finalize-Advances normalization (ocr r) fresh db e = refl
finalize-Advances normalization (incomplete j t) fresh db e =
    elim (resolve_account db.statement.account j fresh db.accounts)
      as (λ a. Advances db (raise_onto t a db)) [
        | several_match ↦ refl
        | account_is a accounts ↦ refl
      ]
finalize-Advances normalization (malformed t) fresh db e = refl
finalize-Advances normalization (normalization_result j) fresh db e =
    elim (resolve_account db.statement.account j fresh db.accounts)
      as (λ a. Advances db (normalize_onto j a db)) [
        | several_match ↦ refl
        | account_is a accounts ↦
            store_normalized-Advances j (parse_dates j.transaction_dates) a
              (record db { accounts = accounts }) (ground arith)
      ]

-- What a round has done, by how it goes on: `none` is another round.
abbrev pub RoundOk : (poll_attempt : ℕ) → Phase → Db → Option Exit → Db → Type 0
RoundOk poll_attempt phase db none db' =
    (rank db'.statement.status ≡ suc (rank db.statement.status))
    × (db'.statement.is_processing ≡ false)
    × (db'.statement.failure_reason ≡ none)
    × (db'.statement.failed_phase ≡ none)
RoundOk poll_attempt phase db (some finished) db' =
    (db'.statement.status ≡ db.statement.status)
    × (db'.statement.is_processing ≡ false)
    × (is_some db'.statement.failure_reason ≡ true)
    × (db'.statement.failed_phase ≡ some phase)
RoundOk poll_attempt phase db (some (retry job_id next_attempt)) db' =
    (db'.statement.status ≡ db.statement.status)
    × (db'.statement.is_processing ≡ true)
    × (db'.statement.failed_phase ≡ db.statement.failed_phase)
    × (next_attempt ≡ suc poll_attempt)
    × (next_attempt ≤ max_poll_attempts)
RoundOk poll_attempt phase db (some (raises e)) db' =
    (db'.statement.status ≡ db.statement.status)
    × (db'.statement.failed_phase ≡ db.statement.failed_phase)
RoundOk poll_attempt phase db (some (retry_refused e)) db' =
    (db'.statement.status ≡ db.statement.status)
    × (db'.statement.failed_phase ≡ db.statement.failed_phase)
RoundOk poll_attempt phase db (some out_of_fuel) db' = ⊥

module _ (poll_attempt : ℕ) (phase : Phase) (db : Db) where
  after_finalize-RoundOk :
      (f : Finalized)
      → Advances (mark_processing db) f
      → let (exit, db') = after_finalize f in RoundOk poll_attempt phase db exit db'
  unfolding after_finalize
  after_finalize-RoundOk (saved db') a = a
  after_finalize-RoundOk (raised e db') a = ground arith

  module _ (celery : Celery) (retries : ℕ)
      (e : phase_for_status db.statement.status ≡ some phase) where
    on_poll-RoundOk :
        (job_id fresh : ℕ) (p : Poll)
        → let (exit, db') =
            on_poll celery retries job_id poll_attempt phase fresh p (mark_processing db) in
          RoundOk poll_attempt phase db exit db'
    unfolding on_poll keep_polling
    on_poll-RoundOk job_id fresh (succeeded r) =
        after_finalize-RoundOk (finalize phase r fresh (mark_processing db))
          (finalize-Advances phase r fresh (mark_processing db) e)
    on_poll-RoundOk job_id fresh (failed err) = (refl, refl, refl, refl)
    on_poll-RoundOk job_id fresh (poll_raises t) = (refl, refl, refl, refl)
    on_poll-RoundOk job_id fresh (malformed_status t) = (refl, refl)
    on_poll-RoundOk job_id fresh pending = elim (Bool-cases (leb max_poll_attempts poll_attempt)) [
      | inl exhausted ↦ rw exhausted (refl, refl, refl, refl)
      | inr more ↦ elim (Bool-cases (celery.refuses max_poll_attempts retries)) [
        | inl refused ↦ rw (more, refused) (refl, refl)
        | inr granted ↦ rw (more, granted) (refl, refl, refl, omega arith, ground arith)
      ]
    ]

    on_submission-RoundOk :
        (r : Round) (s : Submission)
        → let (exit, db') =
            on_submission celery retries poll_attempt phase r s (mark_processing db) in
          RoundOk poll_attempt phase db exit db'
    unfolding on_submission
    on_submission-RoundOk r (job job_id) = on_poll-RoundOk job_id r.fresh r.poll
    on_submission-RoundOk r (submit_raises t) = (refl, refl, refl, refl)
    on_submission-RoundOk r (no_job_id t) = (refl, refl)

    pub round-RoundOk :
        (job_id : Option ℕ) (r : Round)
        → let (exit, db') = round celery retries job_id poll_attempt (some phase) r db in
          RoundOk poll_attempt phase db exit db'
    unfolding round
    round-RoundOk none r = on_submission-RoundOk r r.submission
    round-RoundOk (some job_id) r = on_submission-RoundOk r (job job_id)
