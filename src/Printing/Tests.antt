-- ===== src/Printing/Tests.antt =====
-- Runs of the print queue, and each theorem at a job.
use local_cast.Base.{
  arith, ◌≡◌, refl, inl, inr, ℕ, true, false, List, [], ◌∷◌, ◌++◌, Option, none, some, Text, codes,
  ok, err,
}
use local_cast.Contract.Errors.{plain, bad_request, spooler_failed}
use local_cast.Maps.{get}
use local_cast.Printing.{
  EnqueueInput, upload, PrintJobRow, PrintJobStatus, queued, done, cancelled, new_row, cancel,
  to_dto,
}
use local_cast.Printing.Effects.{finished}
use local_cast.Printing.Polling.{Look, discover_job_id}
use local_cast.Printing.Polling.Discovery.{discover_job_id_ends}
use local_cast.Printing.Running.{
  PrintQueueOptions, Answer, waiting, listing, watching, reading, ended,
}
use local_cast.Printing.Running.Endings.{drive, watch_ends}
use local_cast.Printing.Segments.{handed}
use local_cast.Printing.Service.{Call, enqueues, cancels, resumes, Run, PrintService, step, steps}
use local_cast.Printing.Service.History.{
  new, history-Inv, one_at_a_time, finished_stays, cancelled_before_turn, cancelled_too_late,
}
use local_cast.Printing.Service.Invariant.{Inv}
use local_cast.Printing.Spooler.{
  PrintSettings, Color, Duplex, SpoolerQueue, SpoolerOutcome, classify_job_status,
  build_print_settings, assert_fallback_can_honour,
}

abbrev join_temp : Text → Text
join_temp name = codes "/tmp/" ++ name

abbrev extname : Text → Text
extname name = codes ".pdf"

abbrev options : PrintQueueOptions
options = record { poll_timeout_ms = 600_000; discover_attempts = 2 }

abbrev settings : PrintSettings
settings = record {
  copies = 2;
  color = Color.mono;
  duplex = Duplex.long;
  page_range = some (codes " 1-4, 7 ");
}

settings_text : build_print_settings settings ≡ ok (codes "1-4,7,monochrome,duplexlong,2x")
unfolding build_print_settings
settings_text = refl

bad_range :
    build_print_settings (record settings { page_range = some (codes "1-") })
    ≡ err (plain bad_request)
unfolding build_print_settings
bad_range = refl

settings_fallback : assert_fallback_can_honour settings ≡ err (plain spooler_failed)
unfolding assert_fallback_can_honour
settings_fallback = refl

statuses :
    (classify_job_status (codes "Spooling, Printing, Retained") ≡ SpoolerOutcome.printing)
    × (classify_job_status (codes "Error, Offline") ≡ SpoolerOutcome.error)
    × (classify_job_status (codes "8216") ≡ SpoolerOutcome.printing)
    × (classify_job_status (codes " 128 ") ≡ SpoolerOutcome.done)
unfolding classify_job_status
statuses = (refl, refl, refl, refl)

abbrev input : EnqueueInput
input = record {
  device_id = codes "d1";
  printer_id = codes "p1";
  printer_name = codes "Office";
  source_kind = upload;
  source_path = codes "/a.pdf";
  file_name = codes "a.pdf";
  settings = settings;
}

abbrev printers : List (Text × Text)
printers = (codes "p1", codes "Office") ∷ []

abbrev empty : SpoolerQueue
empty = record { readable = true; jobs = [] }

abbrev one_job : SpoolerQueue
one_job = record { readable = true; jobs = record { id = 7; status = codes "Printing" } ∷ [] }

abbrev looks : List Look
looks = record { queue = one_job; submitting = true } ∷ []

abbrev quiet_looks : List Look
quiet_looks = record { queue = empty; submitting = false } ∷ []

abbrev answer : Answer
answer = record {
  failure = none;
  sumatra = true;
  support = record { ext = codes ".pdf"; registered = false; known = true };
  seen = empty;
  looks = looks;
}

abbrev job : Text
job = codes "j1"

abbrev go : ℕ → Call
go t = resumes job answer t

abbrev queued_calls : List Call
queued_calls = enqueues input job 1 ∷ enqueues input (codes "j2") 2 ∷ []

-- Up to the first reading of the queue, and up to the end.
abbrev listing_calls : List Call
listing_calls = queued_calls ++ (go 3 ∷ go 4 ∷ go 5 ∷ [])

abbrev whole_run : List Call
whole_run = listing_calls ++ (go 6 ∷ go 7 ∷ go 8 ∷ go 9 ∷ [])

abbrev after_calls : List Call → PrintService
after_calls calls = steps join_temp extname options (new printers) calls

status_of : Option PrintJobRow → Option PrintJobStatus
status_of none = none
status_of (some row) = some row.status

printed : status_of (get job (after_calls whole_run).queue.jobs) ≡ some done
unfolding status_of steps new get
printed = refl

history-Inv_example : Inv (after_calls whole_run)
history-Inv_example = history-Inv join_temp extname options printers whole_run

abbrev job_run : Run
job_run = record {
  printer_id = codes "p1";
  phase = listing (new_row join_temp extname input job 1) true;
}

job_run-here : get job (after_calls listing_calls).runs ≡ some job_run
unfolding steps new get new_row
job_run-here = refl

abbrev job_row : PrintJobRow
job_row = new_row join_temp extname input job 1

one_at_a_time_example : job ≡ job
one_at_a_time_example =
    one_at_a_time join_temp extname options printers listing_calls job job job_run job_run
      job_run-here job_run-here refl refl refl

abbrev done_row : PrintJobRow
done_row = record job_row {
  status = done;
  windows_job_id = some 7;
  started_at = some 6;
  finished_at = some 9;
}

done_row-found : get job (after_calls whole_run).queue.jobs ≡ some done_row
unfolding steps new get new_row
done_row-found = refl

finished_stays_example :
    get job
      (steps join_temp extname options
        (after_calls whole_run)
        (cancels job (codes "d1") 10 ∷ go 11 ∷ [])).queue.jobs
    ≡ some done_row
finished_stays_example =
    finished_stays join_temp extname options printers whole_run
      (cancels job (codes "d1") 10 ∷ go 11 ∷ []) job done_row done_row-found (inl refl)

queued_row-found : get job (after_calls queued_calls).queue.jobs ≡ some job_row
unfolding steps new get new_row
queued_row-found = refl

abbrev waiting_run : Run
waiting_run = record { printer_id = codes "p1"; phase = waiting }

waiting_run-here : get job (after_calls queued_calls).runs ≡ some waiting_run
unfolding steps new get
waiting_run-here = refl

row_queued : job_row.status ≡ queued
unfolding new_row
row_queued = refl

cancelled_before_turn_example :
    let s = after_calls queued_calls in
    ((cancel s.queue job job_row.device_id 3).1
      ≡ ok (to_dto s.queue.printers (finished cancelled none 3 job_row)))
    × (get job
          (steps join_temp extname options
            (step join_temp extname options s (cancels job job_row.device_id 3))
            (go 4 ∷ go 5 ∷ [])).queue.jobs
        ≡ some (finished cancelled none 3 job_row))
cancelled_before_turn_example =
    cancelled_before_turn join_temp extname options printers queued_calls (go 4 ∷ go 5 ∷ []) job
      job_row waiting_run 3 queued_row-found waiting_run-here row_queued refl

listing_row-found : get job (after_calls listing_calls).queue.jobs ≡ some job_row
unfolding steps new get new_row
listing_row-found = refl

cancelled_too_late_example :
    let s = after_calls listing_calls in
    let s' = steps join_temp extname options s (cancels job job_row.device_id 6 ∷ go 7 ∷ []) in
    ((cancel s.queue job job_row.device_id 6).1
      ≡ ok (to_dto s.queue.printers (finished cancelled none 6 job_row)))
    × (get job s'.queue.jobs ≡ some (handed 7 (finished cancelled none 6 job_row)))
cancelled_too_late_example =
    cancelled_too_late join_temp extname options printers listing_calls job job_row job_row
      (codes "p1") true answer 6 7 listing_row-found job_run-here row_queued

watch_ends_example :
    (drive options
      (after_calls whole_run).queue
      job
      (watching none 7 100 (reading 0))
      ((answer, 50) ∷ (answer, 100) ∷ (answer, 101) ∷ (answer, 102) ∷ [])).1
    ≡ ended
watch_ends_example =
    watch_ends options job (after_calls whole_run).queue none 7 100 (reading 0) ((answer, 50) ∷ [])
      ((answer, 100) ∷ (answer, 101) ∷ (answer, 102) ∷ [])
      (omega arith, (omega arith, (omega arith, tt))) (omega arith)

discover_job_id_ends_example :
    (found : Option ℕ) × (discover_job_id 1 (3 ∷ []) quiet_looks ≡ some found)
discover_job_id_ends_example =
    discover_job_id_ends 1 (3 ∷ []) quiet_looks (inr ((refl, tt), omega arith))

seven_found : discover_job_id 2 (3 ∷ []) looks ≡ some (some 7)
unfolding discover_job_id
seven_found = refl
