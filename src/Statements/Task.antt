-- ===== src/Statements/Task.antt =====
-- One run of the task, from the guard of its loop to the event that it publishes.
use nbe_financial_advisor_ba.Prelude.{
  ℕ, zero, suc, ◌+◌, ◌≤◌, ◌<◌, ◌≡◌, refl, ap, true, false, Option, none, some, arith, is_some, ◌⊎◌,
  inl, inr, Bool-cases, ltb,
}
use native.Mathlib.Decide.{dec_lt}
use nbe_financial_advisor_ba.Statements.Model.{
  Status, uploaded, extracted, normalized, approved, Phase, extraction, normalization, Db, rank,
  phase_for_status,
}
use nbe_financial_advisor_ba.Statements.Pipeline.{
  Celery, Round, Exit, finished, retry, raises, retry_refused, out_of_fuel, max_poll_attempts,
  round, resume, loop, close, process_statement_pipeline,
}
use nbe_financial_advisor_ba.Statements.Outcome.{RoundOk, round-RoundOk}

-- A recorded failure is that of the phase that the status waits for.
abbrev pub IsConsistent : Db → Type 0
IsConsistent db =
    (db.statement.failed_phase ≡ none)
    ⊎ (db.statement.failed_phase ≡ phase_for_status db.statement.status)

-- The statement has reached the target, with nothing left of an earlier failure.
abbrev pub HasArrived : Status → Db → Type 0
HasArrived target db =
    (db.statement.status ≡ target)
    × (db.statement.is_processing ≡ false)
    × (db.statement.failure_reason ≡ none)
    × (db.statement.failed_phase ≡ none)

-- The statement stands before the target, released, with the failure of its phase recorded.
abbrev pub HasFailed : Status → Db → Type 0
HasFailed target db =
    (rank db.statement.status < rank target)
    × (db.statement.is_processing ≡ false)
    × (is_some db.statement.failure_reason ≡ true)
    × (db.statement.failed_phase ≡ phase_for_status db.statement.status)

-- The statement waits for a job; a new phase has begun its own count of polls.
abbrev pub IsWaiting : Status → Db → (attempt next_attempt : ℕ) → Db → Type 0
IsWaiting target start attempt next_attempt db =
    (rank db.statement.status < rank target)
    × (db.statement.is_processing ≡ true)
    × IsConsistent db
    × (next_attempt ≤ max_poll_attempts)
    × ((db.statement.status ≡ start.statement.status) × (next_attempt ≡ suc attempt)
        ⊎ (rank start.statement.status < rank db.statement.status) × (next_attempt ≡ 1))

-- How the loop ends.
abbrev pub LoopEnded : Status → Db → (attempt : ℕ) → Exit → Db → Type 0
LoopEnded target start attempt finished db = HasArrived target db ⊎ HasFailed target db
LoopEnded target start attempt (retry job_id next_attempt) db =
    IsWaiting target start attempt next_attempt db
LoopEnded target start attempt (raises e) db =
    (rank db.statement.status < rank target) × IsConsistent db
LoopEnded target start attempt (retry_refused e) db =
    (rank db.statement.status < rank target) × IsConsistent db
LoopEnded target start attempt out_of_fuel db = ⊥

rank-injective : (a b : Status) → rank a ≡ rank b → a ≡ b
rank-injective a b h = ground arith

phase_below : (s : Status) → rank s < 2 → (p : Phase) × (phase_for_status s ≡ some p)
phase_below uploaded h = (extraction, refl)
phase_below extracted h = (normalization, refl)
phase_below normalized h = absurd (omega arith)
phase_below approved h = absurd (omega arith)

-- A round that was not the last leaves what the loop expects.
abbrev Ready : Status → Db → Type 0
Ready target db = (rank db.statement.status < rank target) ⊎ HasArrived target db

module _ (target : Status) (db : Db) (attempt : ℕ) (phase : Phase) where
  advanced-Ready :
      (db' : Db)
      → rank db.statement.status < rank target
      → RoundOk attempt phase db none db'
      → Ready target db' × IsConsistent db'
  advanced-Ready db' below (next, released, no_reason, no_phase) =
      elim (dec_lt (rank db'.statement.status) (rank target)) [
        | yes still ↦ (inl still, inl no_phase)
        | no reached ↦ (
          inr (
            rank-injective db'.statement.status target (omega arith),
            released,
            no_reason,
            no_phase,
          ),
          inl no_phase,
        )
      ]

  -- What ended a later round ended the loop that had come to it.
  later-LoopEnded :
      (db' : Db) (exit : Exit) (db'' : Db)
      → rank db.statement.status < rank db'.statement.status
      → LoopEnded target db' 0 exit db''
      → LoopEnded target db attempt exit db''
  later-LoopEnded db' finished db'' lt h = h
  later-LoopEnded db' (retry job_id next_attempt) db'' lt (a, b, c, d, inl (same, one)) =
      (a, b, c, d, inr (omega (arith, ap rank same), one))
  later-LoopEnded db' (retry job_id next_attempt) db'' lt (a, b, c, d, inr (more, one)) =
      (a, b, c, d, inr (omega arith, one))
  later-LoopEnded db' (raises e) db'' lt h = h
  later-LoopEnded db' (retry_refused e) db'' lt h = h
  later-LoopEnded db' out_of_fuel db'' lt h = absurd h

  resume-LoopEnded :
      (exit : Option Exit) (db' : Db) (rest : Db → Exit × Db)
      → rank db.statement.status < rank target
      → phase_for_status db.statement.status ≡ some phase
      → IsConsistent db
      → RoundOk attempt phase db exit db'
      → (exit ≡ none → let (e, db'') = rest db' in LoopEnded target db' 0 e db'')
      → let (e, db'') = resume exit db' rest in LoopEnded target db attempt e db''
  unfolding resume
  resume-LoopEnded none db' rest below waits c ok ih =
      later-LoopEnded db' (rest db').0 (rest db').1 (omega arith) (ih refl)
  resume-LoopEnded (some finished) db' rest below waits c ok ih = ground arith
  resume-LoopEnded (some (retry job_id next_attempt)) db' rest below waits c ok ih = ground arith
  resume-LoopEnded (some (raises e)) db' rest below waits c ok ih = ground arith
  resume-LoopEnded (some (retry_refused e)) db' rest below waits c ok ih = ground arith
  resume-LoopEnded (some out_of_fuel) db' rest below waits c ok ih = absurd ok

module _ (celery : Celery) (answers : ℕ → Round) (retries : ℕ) (target : Status)
    (reachable : rank target ≤ 2) where
  loop-LoopEnded :
      (fuel n attempt : ℕ) (job_id : Option ℕ) (db : Db)
      → rank target < rank db.statement.status + fuel
      → Ready target db
      → IsConsistent db
      → let (exit, db') = loop fuel celery answers n retries target job_id attempt db in
        LoopEnded target db attempt exit db'
  unfolding loop
  loop-LoopEnded zero n attempt job_id db enough (inl below) c = absurd (omega arith)
  loop-LoopEnded zero n attempt job_id db enough (inr arrived) c =
      absurd (omega (arith, ap rank arrived.0))
  loop-LoopEnded (suc fuel) n attempt job_id db enough (inr arrived) c =
      elim (Bool-cases (ltb (rank db.statement.status) (rank target))) [
        | inl below ↦ absurd (ground (arith, ap rank arrived.0))
        | inr reached ↦ rw (reached, loop) (inl arrived)
      ]
  loop-LoopEnded (suc fuel) n attempt job_id db enough (inl below) c =
      let (phase, waits) = phase_below db.statement.status (omega arith) in
      let test : ltb (rank db.statement.status) (rank target) ≡ true = ground arith in
      let ended = round-RoundOk attempt phase db celery retries waits job_id (answers n) in
      let after = (round celery retries job_id attempt (some phase) (answers n) db).1 in
      rw (test, waits, loop)
        (resume-LoopEnded target db attempt phase
          (round celery retries job_id attempt (some phase) (answers n) db).0
          (round celery retries job_id attempt (some phase) (answers n) db).1
          (λ next. loop fuel celery answers (suc n) retries target none 0 next) below waits c ended
          (λ going.
            let ok : RoundOk attempt phase db none after = rw going at ended in
            let (ready, c') = advanced-Ready target db attempt phase after below ok in
            loop-LoopEnded fuel (suc n) 0 none after (omega (arith, ok.0)) ready c'))

-- How a run of the task ends: a run that raises has recorded the failure too.
abbrev pub TaskEnded : Status → Db → (attempt : ℕ) → Exit → Db → Type 0
TaskEnded target start attempt finished db = HasArrived target db ⊎ HasFailed target db
TaskEnded target start attempt (retry job_id next_attempt) db =
    IsWaiting target start attempt next_attempt db
TaskEnded target start attempt (raises e) db = HasFailed target db
TaskEnded target start attempt (retry_refused e) db = HasFailed target db
TaskEnded target start attempt out_of_fuel db = ⊥

close-TaskEnded :
    (target : Status) (start : Db) (attempt : ℕ) (exit : Exit) (db : Db)
    → rank target ≤ 2
    → LoopEnded target start attempt exit db
    → TaskEnded target start attempt exit (close exit db)
unfolding close
close-TaskEnded target start attempt finished db r h = h
close-TaskEnded target start attempt (retry job_id next_attempt) db r h = h
close-TaskEnded target start attempt (raises e) db r h =
    let (phase, waits) = phase_below db.statement.status (omega arith) in ground arith
close-TaskEnded target start attempt (retry_refused e) db r h =
    let (phase, waits) = phase_below db.statement.status (omega arith) in ground arith
close-TaskEnded target start attempt out_of_fuel db r h = absurd h

-- Started on a statement below its target, a run of the task ends in one of four ways: at the
-- target and released; released with the failure of the phase it stands before, also if it raises or
-- Celery refuses the retry;
-- or still processing and waiting for its next poll, within the poll budget of its phase. Its loop
-- never needs more rounds than the model gives it.
pub pipeline-TaskEnded :
    (celery : Celery) (answers : ℕ → Round) (retries : ℕ) (target : Status) (job_id : Option ℕ)
    → (attempt : ℕ) (db : Db) → rank target ≤ 2
    → rank db.statement.status < rank target
    → IsConsistent db
    → let (exit, db') =
        process_statement_pipeline celery answers retries target job_id attempt db in
      TaskEnded target db attempt exit db'
unfolding process_statement_pipeline
pipeline-TaskEnded celery answers retries target job_id attempt db reachable below c =
    close-TaskEnded target db attempt _ _ reachable (
      loop-LoopEnded celery answers retries target reachable 4 0 attempt job_id db (omega arith)
        (inl below) c)
