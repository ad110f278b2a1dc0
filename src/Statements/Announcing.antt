-- ===== src/Statements/Announcing.antt =====
-- The `statement_status` events: none while the task retries, one when it ends.
use nbe_financial_advisor_ba.Prelude.{
  ℕ, zero, suc, ◌≤◌, ◌<◌, ◌≡◌, refl, Option, none, some, [], ◌∷◌, ◌++◌, arith,
}
use nbe_financial_advisor_ba.Statements.Model.{
  Status, extraction, normalization, Phase, Db, rank, phase_for_status,
}
use nbe_financial_advisor_ba.Statements.Phases.{
  Finalized, saved, raised, finalize, finalize_extraction, finalize_normalization, normalize_onto,
  store_normalized, JobResult, ocr, normalization_result, incomplete, malformed, raise_onto,
}
use nbe_financial_advisor_ba.Statements.Pipeline.{
  Celery, Round, Exit, finished, retry, raises, retry_refused, out_of_fuel, Submission, job,
  submit_raises, no_job_id, malformed_status, Poll, succeeded, failed, pending, poll_raises,
  mark_processing, after_finalize, on_poll, keep_polling, on_submission, round, resume, loop, close,
  event_of, process_statement_pipeline,
}
use nbe_financial_advisor_ba.Statements.Task.{
  IsConsistent, TaskEnded, IsWaiting, pipeline-TaskEnded,
}
use nbe_financial_advisor_ba.Statements.Settling.{run_task, reschedule, budget, budget_falls}

abbrev rows : Finalized → Db
rows (saved db) = db
rows (raised e db) = db

finalize-events :
    (phase : Phase) (r : JobResult) (fresh : ℕ) (db : Db)
    → (rows (finalize phase r fresh db)).events ≡ db.events
unfolding finalize finalize_extraction finalize_normalization normalize_onto store_normalized
    raise_onto
finalize-events extraction (ocr r) fresh db = refl
finalize-events extraction (normalization_result j) fresh db = refl
finalize-events extraction (incomplete j t) fresh db = refl
finalize-events extraction (malformed t) fresh db = refl
finalize-events normalization (ocr r) fresh db = refl
finalize-events normalization (incomplete j t) fresh db = ground arith
finalize-events normalization (malformed t) fresh db = refl
finalize-events normalization (normalization_result j) fresh db = ground arith

module _ (celery : Celery) (retries : ℕ) where
  on_poll-events :
      (job_id attempt : ℕ) (phase : Phase) (fresh : ℕ) (p : Poll) (db : Db)
      → (on_poll celery retries job_id attempt phase fresh p db).1.events ≡ db.events
  unfolding on_poll keep_polling after_finalize
  on_poll-events job_id attempt phase fresh (succeeded r) db =
      ground (arith, finalize-events phase r fresh db)
  on_poll-events job_id attempt phase fresh (failed e) db = refl
  on_poll-events job_id attempt phase fresh (poll_raises t) db = refl
  on_poll-events job_id attempt phase fresh (malformed_status t) db = refl
  on_poll-events job_id attempt phase fresh pending db = ground arith

  on_submission-events :
      (attempt : ℕ) (phase : Phase) (r : Round) (s : Submission) (db : Db)
      → (on_submission celery retries attempt phase r s db).1.events ≡ db.events
  unfolding on_submission
  on_submission-events attempt phase r (job job_id) db =
      on_poll-events job_id attempt phase r.fresh r.poll db
  on_submission-events attempt phase r (submit_raises t) db = refl
  on_submission-events attempt phase r (no_job_id t) db = refl

  round-events :
      (job_id : Option ℕ) (attempt : ℕ) (phase : Option Phase) (r : Round) (db : Db)
      → (round celery retries job_id attempt phase r db).1.events ≡ db.events
  unfolding round
  round-events job_id attempt none r db = refl
  round-events none attempt (some phase) r db =
      on_submission-events attempt phase r r.submission (mark_processing db)
  round-events (some job_id) attempt (some phase) r db =
      on_submission-events attempt phase r (job job_id) (mark_processing db)

  loop-events :
      (fuel : ℕ) (answers : ℕ → Round) (n : ℕ) (target : Status) (job_id : Option ℕ) (attempt : ℕ)
      (db : Db)
      → (loop fuel celery answers n retries target job_id attempt db).1.events ≡ db.events
  unfolding loop resume
  loop-events zero answers n target job_id attempt db = refl
  loop-events (suc fuel) answers n target job_id attempt db =
      let (exit, db') =
        round celery retries job_id attempt (phase_for_status db.statement.status) (answers n) db in
      ground (
        arith,
        round-events job_id attempt (phase_for_status db.statement.status) (answers n) db,
        loop-events fuel answers (suc n) target none 0
            (round celery retries job_id attempt (phase_for_status db.statement.status) (answers n)
              db).1,
      )

-- What a run of the task has published, by how it ends.
abbrev Announced : Db → Exit → Db → Type 0
Announced start (retry job_id attempt) db = db.events ≡ start.events
Announced start (retry_refused e) db = db.events ≡ start.events
Announced start out_of_fuel db = db.events ≡ start.events
Announced start exit db = db.events ≡ start.events ++ event_of db.statement ∷ []

close-Announced :
    (start : Db) (exit : Exit) (db : Db)
    → db.events ≡ start.events
    → Announced start exit (close exit db)
unfolding close
close-Announced start finished db e = rw e
close-Announced start (retry job_id attempt) db e = e
close-Announced start (raises t) db e = rw e
close-Announced start (retry_refused t) db e = e
close-Announced start out_of_fuel db e = e

pipeline-Announced :
    (celery : Celery) (answers : ℕ → Round) (retries : ℕ) (target : Status) (job_id : Option ℕ)
    → (attempt : ℕ) (db : Db)
    → let (exit, db') =
        process_statement_pipeline celery answers retries target job_id attempt db in
      Announced db exit db'
unfolding process_statement_pipeline
pipeline-Announced celery answers retries target job_id attempt db =
    close-Announced db _ _ (loop-events celery retries 4 answers 0 target job_id attempt db)

-- What all runs together have published, by how the last one ended; it has not ended by a retry.
abbrev pub AnnouncedOnce : Db → Exit → Db → Type 0
AnnouncedOnce start (retry_refused e) db = db.events ≡ start.events
AnnouncedOnce start (retry job_id attempt) db = ⊥
AnnouncedOnce start out_of_fuel db = ⊥
AnnouncedOnce start exit db = db.events ≡ start.events ++ event_of db.statement ∷ []

module _ (celery : Celery) (answers : ℕ → ℕ → Round) (target : Status)
    (reachable : rank target ≤ 2) where
  later-AnnouncedOnce :
      (start middle : Db) (exit : Exit) (db : Db)
      → middle.events ≡ start.events
      → AnnouncedOnce middle exit db
      → AnnouncedOnce start exit db
  later-AnnouncedOnce start middle finished db e h = rw (← e) h
  later-AnnouncedOnce start middle (retry job_id attempt) db e h = h
  later-AnnouncedOnce start middle (raises t) db e h = rw (← e) h
  later-AnnouncedOnce start middle (retry_refused t) db e h = rw (← e) h
  later-AnnouncedOnce start middle out_of_fuel db e h = h

  reschedule-AnnouncedOnce :
      (start : Db) (attempt : ℕ) (exit : Exit) (db : Db) (next : ℕ → ℕ → Db → Exit × Db)
      → TaskEnded target start attempt exit db
      → Announced start exit db
      → ((job_id next_attempt : ℕ)
          → IsWaiting target start attempt next_attempt db
          → let (e, db') = next job_id next_attempt db in AnnouncedOnce db e db')
      → let (e, db') = reschedule exit db next in AnnouncedOnce start e db'
  unfolding reschedule
  reschedule-AnnouncedOnce start attempt (retry job_id next_attempt) db next h quiet rest =
      later-AnnouncedOnce start db (next job_id next_attempt db).0 (next job_id next_attempt db).1
        quiet (rest job_id next_attempt h)
  reschedule-AnnouncedOnce start attempt finished db next h once rest = once
  reschedule-AnnouncedOnce start attempt (raises e) db next h once rest = once
  reschedule-AnnouncedOnce start attempt (retry_refused e) db next h once rest = once
  reschedule-AnnouncedOnce start attempt out_of_fuel db next h once rest = absurd h

  run_task-AnnouncedOnce :
      (fuel retries : ℕ) (job_id : Option ℕ) (attempt : ℕ) (db : Db)
      → budget celery answers target reachable db attempt < fuel
      → attempt ≤ 240
      → rank db.statement.status < rank target
      → IsConsistent db
      → let (exit, db') = run_task fuel celery answers retries target job_id attempt db in
        AnnouncedOnce db exit db'
  unfolding run_task
  run_task-AnnouncedOnce zero retries job_id attempt db enough a below c = absurd (omega arith)
  run_task-AnnouncedOnce (suc fuel) retries job_id attempt db enough a below c =
      let (exit, db') =
        process_statement_pipeline celery (answers retries) retries target job_id attempt db in
      reschedule-AnnouncedOnce db attempt exit db' _
        (pipeline-TaskEnded celery (answers retries) retries target job_id attempt db reachable
          below c)
        (pipeline-Announced celery (answers retries) retries target job_id attempt db)
        λ next_job next_attempt w.
          run_task-AnnouncedOnce fuel (suc retries) (some next_job) next_attempt db'
            (omega
              (arith, budget_falls celery answers target reachable db attempt next_attempt db' a w))
            w.3 w.0 w.2

  -- All the runs of the task together publish exactly one event, after all earlier ones: the state
  -- in which they leave the statement. If the last run ended because Celery refused a retry, they
  -- publish none.
  pub run_task_announces :
      (db : Db)
      → rank db.statement.status < rank target
      → IsConsistent db
      → let (exit, db') = run_task 481 celery answers 0 target none 0 db in
        AnnouncedOnce db exit db'
  run_task_announces db below c =
      run_task-AnnouncedOnce 481 0 none 0 db (omega arith) (omega arith) below c
