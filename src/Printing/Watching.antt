-- ===== src/Printing/Watching.antt =====
-- apps/server/src/modules/print/jobs.ts: the pieces of `watch` and of what comes before it keep the job
-- printing until it is finished.
use local_cast.Base.{◌≡◌, refl, ℕ, ◌∙◌, ◌+◌, Bool, true, List, Option, none, some, Text, ltb, arith}
use local_cast.Maps.{get-set_self, get-set_ne}
use local_cast.Printing.{printing, done, error, gave_up, PrintJobRow, PrintQueue, to_dto}
use local_cast.Sets.{has}
use local_cast.Printing.Effects.{Told, Apart}
use local_cast.Printing.Lifecycle.{can_finish, Fits, Moved, stay, clear-Moved}
use local_cast.Printing.Polling.{
  Look, Outcome, Verdict, returns, goes_on, verdict, discover_job_id, outcome_verdict, job_verdict,
}
use local_cast.Printing.Running.{
  PrintQueueOptions, finishing, Phase, submitting, watching, reading, sleeping, removing, clear,
  set_windows_job_id, loop_head, after_verdict, after_read, start_watch, submit_settled,
  after_submit, submit_message, trailing_attempts,
}
use local_cast.Printing.Segments.{if-Moved}
use local_cast.Printing.Spooler.{SpoolerQueue}

-- What a verdict returns can be the end of a printing job.
verdict-can_finish :
    (wid unreadable : ℕ) (seen : SpoolerQueue) (o : Outcome)
    → verdict wid unreadable seen ≡ returns o
    → can_finish printing o.status ≡ true
unfolding verdict job_verdict outcome_verdict
verdict-can_finish wid unreadable seen o e = ground arith

module _ (id : Text) (q : PrintQueue) (row : PrintJobRow) (h : Told id q row) where
  module _ (f : Fits (watching none 0 0 removing) row) where
    pub clear_printing-Moved :
        (path : Option Text) (o : Outcome)
        → can_finish printing o.status ≡ true
        → Moved id q (clear q path (finishing o))
    clear_printing-Moved path o e = clear-Moved id q row h path (finishing o) (ground arith)

    pub loop_head-Moved :
        (options : PrintQueueOptions) (path : Option Text) (wid deadline unreadable t : ℕ)
        → Moved id q (loop_head options q id path wid deadline unreadable t)
    unfolding loop_head
    loop_head-Moved options path wid deadline unreadable t =
        if-Moved id q row h (ltb t deadline) _ _
          (if-Moved id q row h (has id q.cancel_requested) _ _
            (stay id q row h (watching path wid deadline removing) f)
            (stay id q row h (watching path wid deadline (reading unreadable)) f))
          (clear_printing-Moved path
            (record { status = error; message = some (gave_up options.poll_timeout_ms) }) refl)

    after_verdict-Moved :
        (path : Option Text) (wid deadline : ℕ) (v : Verdict)
        → ((o : Outcome) → v ≡ returns o → can_finish printing o.status ≡ true)
        → Moved id q (after_verdict q path wid deadline v)
    unfolding after_verdict
    after_verdict-Moved path wid deadline (returns o) k = clear_printing-Moved path o (k o refl)
    after_verdict-Moved path wid deadline (goes_on n) k =
        if-Moved id q row h q.disposed _ _
          (clear_printing-Moved path (record { status = printing; message = none }) refl)
          (stay id q row h (watching path wid deadline (sleeping n)) f)

    pub after_read-Moved :
        (path : Option Text) (wid deadline unreadable : ℕ) (seen : SpoolerQueue)
        → Moved id q (after_read q path wid deadline unreadable seen)
    unfolding after_read
    after_read-Moved path wid deadline unreadable seen =
        after_verdict-Moved path wid deadline (verdict wid unreadable seen)
          (verdict-can_finish wid unreadable seen)

    start_watch-Moved :
        (options : PrintQueueOptions) (path : Option Text) (found : Option ℕ) (t : ℕ)
        → Moved id q (start_watch options q id path found t)
    unfolding start_watch
    start_watch-Moved options path none t =
        clear_printing-Moved path (record { status = done; message = none }) refl
    start_watch-Moved options path (some wid) t =
        loop_head-Moved options path wid (t + options.poll_timeout_ms) 0 t

set_windows_job_id-Told :
    (id : Text) (q : PrintQueue) (row : PrintJobRow) (n : ℕ)
    → Told id q row
    → Told id (set_windows_job_id q id (some n)) (record row { windows_job_id = some n })
unfolding set_windows_job_id to_dto
set_windows_job_id-Told id q row n h =
    rw (h.found, set_windows_job_id)
      (record {
        found = get-set_self id (record row { windows_job_id = some n }) q.jobs;
        keyed = h.keyed;
        told = h.told;
      })

set_windows_job_id-Apart :
    (id : Text) (q : PrintQueue) (row : PrintJobRow) (n : ℕ)
    → Told id q row
    → Apart id q (set_windows_job_id q id (some n))
unfolding set_windows_job_id
set_windows_job_id-Apart id q row n h =
    rw (h.found, set_windows_job_id)
      (record {
        rows = λ k a. get-set_ne id k (record row { windows_job_id = some n }) q.jobs a;
        events = λ k a. refl;
        printers = refl;
      })

Moved-behind :
    (id : Text) (q q' : PrintQueue) (out : PrintQueue × Phase)
    → Apart id q q'
    → Moved id q' out
    → Moved id q out
Moved-behind id q q' out a m = record {
  row = m.row;
  told = m.told;
  fits = m.fits;
  apart = record {
    rows = λ k n. m.apart.rows k n ∙ a.rows k n;
    events = λ k n. m.apart.events k n ∙ a.events k n;
    printers = m.apart.printers ∙ a.printers;
  };
}

module _ (options : PrintQueueOptions) (id : Text) (q : PrintQueue) (row r : PrintJobRow)
    (h : Told id q row) (f : Fits (watching none 0 0 removing) row) where
  submit_settled-Moved :
      (sumatra : Bool) (failure : Option Text) (found : Option ℕ) (t : ℕ)
      → Moved id q (submit_settled options q id r sumatra failure found t)
  unfolding submit_settled set_windows_job_id
  submit_settled-Moved sumatra (some m) found t =
      clear_printing-Moved id q row h f r.spool_path
        (record { status = error; message = some (submit_message sumatra m) }) refl
  submit_settled-Moved sumatra none none t =
      start_watch-Moved id q row h f options r.spool_path none t
  submit_settled-Moved sumatra none (some n) t =
      Moved-behind id q (set_windows_job_id q id (some n)) _ (set_windows_job_id-Apart id q row n h)
        (start_watch-Moved id (set_windows_job_id q id (some n))
          (record row { windows_job_id = some n }) (set_windows_job_id-Told id q row n h) f options
          r.spool_path (some n) t)

  pub after_submit-Moved :
      (sumatra : Bool) (before : List ℕ) (failure : Option Text) (looks : List Look) (t : ℕ)
      → Moved id q (after_submit options q id r sumatra before failure looks t)
  unfolding after_submit
  after_submit-Moved sumatra before failure looks t =
      go (discover_job_id (trailing_attempts options sumatra) before looks)
    where
      go :
          (m : Option (Option ℕ))
          → Moved id q (elim m [
            | none ↦ (q, submitting r sumatra before)
            | some found ↦ submit_settled options q id r sumatra failure found t
          ])
      go none = stay id q row h (submitting r sumatra before) f
      go (some found) = submit_settled-Moved sumatra failure found t
