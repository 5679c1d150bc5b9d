-- ===== src/Printing/Polling.antt =====
-- apps/server/src/modules/print/jobs.ts: what `discoverJobId` and `watch` make of the readings of the
-- queue of the spooler.
pub mod Discovery
pub mod Verdicts
use local_cast.Base.{
  ℕ, zero, suc, ◌+◌, ◌*◌, Bool, true, false, ◌||◌, List, [], ◌∷◌, Option, none, some, Text, leb,
  ◌==◌, if◌then◌else◌, max,
}
use local_cast.Printing.Rows.{
  PrintJobStatus, done, error, cancelled, Message, queue_stopped, printer_reported,
}
use local_cast.Printing.Spooler.{SpoolerJob, SpoolerQueue, SpoolerOutcome, classify_job_status}

-- `before.has`
pub has_id : ℕ → List ℕ → Bool
has_id n [] = false
has_id n (m ∷ ms) = m == n || has_id n ms

-- The first job of a reading that was not there before.
pub fresh_id : List ℕ → List SpoolerJob → Option ℕ
unfolding has_id
fresh_id before [] = none
fresh_id before (job ∷ jobs) =
    let rest = fresh_id before jobs in if has_id job.id before then rest else some job.id

-- A look of `discoverJobId`: the queue, and whether the submission still goes on behind it.
pub record Look : Type 0 where
  pub queue : SpoolerQueue
  pub submitting : Bool

-- What a look comes to: the new job, that it goes on, or that these were attempts enough.
abbrev pub looked :
    Option ℕ → Bool → Bool → Option (Option ℕ) → Option (Option ℕ) → Option (Option ℕ)
looked (some id) submitting enough during after = some (some id)
looked none true enough during after = during
looked none false true during after = some none
looked none false false during after = after

-- The loop, with the attempts that are left. The outer `none` is that it waits for a further look.
pub discover : ℕ → ℕ → ℕ → List ℕ → List Look → Option (Option ℕ)
unfolding fresh_id
discover zero attempts trailing before looks = some none
discover (suc n) attempts trailing before [] = none
discover (suc n) attempts trailing before (look ∷ looks) =
    looked (fresh_id before look.queue.jobs) look.submitting (leb attempts (trailing + 1))
      (discover n attempts trailing before looks) (discover n attempts (trailing + 1) before looks)

abbrev pub discovery_cap : ℕ → ℕ
discovery_cap attempts = max attempts 1 * 40

unfoldable pub discover_job_id : ℕ → List ℕ → List Look → Option (Option ℕ)
unfolding discover
discover_job_id attempts before looks = discover (discovery_cap attempts) attempts 0 before looks

-- What `watch` returns.
pub record Outcome : Type 0 where
  pub status : PrintJobStatus
  pub message : Option Message

-- What a reading says to `watch`: to return, or to go on with so many failed readings.
pub data Verdict : Type 0 where
  returns : Outcome → Verdict
  goes_on : ℕ → Verdict

pub find_id : ℕ → List SpoolerJob → Option SpoolerJob
find_id wid [] = none
find_id wid (job ∷ jobs) = let rest = find_id wid jobs in if job.id == wid then some job else rest

unfoldable pub outcome_verdict : Text → SpoolerOutcome → Verdict
outcome_verdict status SpoolerOutcome.error =
    returns (record { status = error; message = some (printer_reported status) })
outcome_verdict status SpoolerOutcome.cancelled =
    returns (record { status = cancelled; message = none })
outcome_verdict status SpoolerOutcome.done = returns (record { status = done; message = none })
outcome_verdict status SpoolerOutcome.printing = goes_on 0

unfoldable pub job_verdict : Option SpoolerJob → Verdict
unfolding outcome_verdict classify_job_status
job_verdict none = returns (record { status = done; message = none })
job_verdict (some job) = outcome_verdict job.status (classify_job_status job.status)

unfoldable pub verdict : ℕ → ℕ → SpoolerQueue → Verdict
unfolding job_verdict find_id
verdict wid unreadable seen =
    if seen.readable
    then job_verdict (find_id wid seen.jobs)
    else if leb 3 (unreadable + 1)
    then returns (record { status = error; message = some queue_stopped })
    else goes_on (unreadable + 1)
