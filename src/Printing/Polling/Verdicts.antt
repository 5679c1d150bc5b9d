-- ===== src/Printing/Polling/Verdicts.antt =====
-- apps/server/src/modules/print/jobs.ts: when a reading of the queue says that a job is done.
use local_cast.Base.{
  ◌≡◌, ◌↔◌, refl, ℕ, Bool, true, false, Option, none, some, arith, ◌+◌, leb, if◌then◌else◌,
}
use local_cast.Printing.Rows.{done, error, queue_stopped}
use local_cast.Printing.Polling.{
  Verdict, returns, goes_on, find_id, outcome_verdict, job_verdict, verdict,
}
use local_cast.Printing.Spooler.{SpoolerJob, SpoolerQueue, SpoolerOutcome, classify_job_status}

abbrev pub done_verdict : Verdict
done_verdict = returns (record { status = done; message = none })

-- The job has left the queue, or the spooler says that it is done.
abbrev pub IsDone : Option SpoolerJob → Type 0
IsDone none = Unit
IsDone (some job) = classify_job_status job.status ≡ SpoolerOutcome.done

outcome_done :
    (job : SpoolerJob) (o : SpoolerOutcome)
    → (outcome_verdict job.status o ≡ done_verdict) ↔ (o ≡ SpoolerOutcome.done)
unfolding outcome_verdict
outcome_done job SpoolerOutcome.done = ((λ e. refl), (λ e. refl))
outcome_done job SpoolerOutcome.error = ((λ e. ground arith), (λ e. ground arith))
outcome_done job SpoolerOutcome.cancelled = ((λ e. ground arith), (λ e. ground arith))
outcome_done job SpoolerOutcome.printing = ((λ e. ground arith), (λ e. ground arith))

job-IsDone : (m : Option SpoolerJob) → (job_verdict m ≡ done_verdict) ↔ IsDone m
unfolding job_verdict
job-IsDone none = ((λ e. tt), (λ e. refl))
job-IsDone (some job) = outcome_done job (classify_job_status job.status)

-- The watch says that a job is done exactly on a reading that could be read and in which the job is
-- no more, or has a status that stands for done: never on a reading that failed, however many did.
verdict-IsDone :
    (wid unreadable : ℕ) (seen : SpoolerQueue)
    → (verdict wid unreadable seen ≡ done_verdict)
      ↔ ((seen.readable ≡ true) × IsDone (find_id wid seen.jobs))
unfolding verdict
verdict-IsDone wid unreadable seen = go seen.readable (leb 3 (unreadable + 1))
  where
    go :
        (readable last : Bool)
        → ((if readable
              then job_verdict (find_id wid seen.jobs)
              else if last
              then returns (record { status = error; message = some queue_stopped })
              else goes_on (unreadable + 1))
            ≡ done_verdict)
          ↔ ((readable ≡ true) × IsDone (find_id wid seen.jobs))
    go true last =
        let (to, from) = job-IsDone (find_id wid seen.jobs) in
        ((λ e. (refl, to e)), (λ h. from h.1))
    go false true = ((λ e. ground arith), (λ h. ground arith))
    go false false = ((λ e. ground arith), (λ h. ground arith))
