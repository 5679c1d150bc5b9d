-- ===== src/Printing/Effects.antt =====
-- apps/server/src/modules/print/jobs.ts: what `transition` and `finish` do to the row of a job, and
-- that they leave the others alone.
use local_cast.Base.{
  ◌≡◌, ◌≢◌, refl, ℕ, List, [], ◌∷◌, Option, none, some, Text, text_eq, text_eq_iff, text_eq_refl,
  if◌then◌else◌, ok, arith,
}
use local_cast.Maps.{get, set, get-set_self, get-set_ne}
use local_cast.Printing.{
  PrintJobStatus, Message, PrintJobRow, PrintJob, PrintQueue, Extra, to_dto, publish, find_job,
  patched, transition_found, transition, recorded, finish,
}
use local_cast.Sets.{without}

-- The last event of a job.
pub last_told : Text → List PrintJob → Option PrintJob
last_told id [] = none
last_told id (job ∷ jobs) =
    let rest = last_told id jobs in if text_eq job.id id then some job else rest

-- The row of a job is there, and the last event of the job shows it.
pub record Recorded (id : Text) (jobs : List (Text × PrintJobRow)) (events : List PrintJob)
    (printers : List (Text × Text)) (row : PrintJobRow) : Type 0 where
  pub found : get id jobs ≡ some row
  pub keyed : row.id ≡ id
  pub told : last_told id events ≡ some (to_dto printers row)

abbrev pub Told : Text → PrintQueue → PrintJobRow → Type 0
Told id q row = Recorded id q.jobs q.events q.printers row

-- Nothing but the job of this id differs.
pub record Apart (id : Text) (q q' : PrintQueue) : Type 0 where
  pub rows : (k : Text) → id ≢ k → get k q'.jobs ≡ get k q.jobs
  pub events : (k : Text) → id ≢ k → last_told k q'.events ≡ last_told k q.events
  pub printers : q'.printers ≡ q.printers

pub Apart-refl : (id : Text) (q : PrintQueue) → Apart id q q
Apart-refl id q = record { rows = λ k h. refl; events = λ k h. refl; printers = refl }

-- A row is put in and published.
abbrev pub put : PrintQueue → Text → PrintJobRow → PrintQueue
put q id row = publish (record q { jobs = set id row q.jobs }) row

pub put-Told :
    (q : PrintQueue) (id : Text) (row : PrintJobRow) → row.id ≡ id → Told id (put q id row) row
unfolding publish last_told to_dto
put-Told q id row keyed = record {
  found = get-set_self id row q.jobs;
  keyed = keyed;
  told = rw (keyed, text_eq_refl id) refl;
}

pub put-Apart :
    (q : PrintQueue) (id : Text) (row : PrintJobRow) → row.id ≡ id → Apart id q (put q id row)
unfolding publish last_told to_dto
put-Apart q id row keyed = record {
  rows = λ k h. get-set_ne id k row q.jobs h;
  events = λ k h. ground (arith, text_eq_iff row.id k);
  printers = refl;
}

pub transition_lem :
    (q : PrintQueue) (id : Text) (row : PrintJobRow) (status : PrintJobStatus) (extra : Extra)
    → get id q.jobs ≡ some row
    → transition q id status extra
      ≡ (put q id (patched status extra row), ok (patched status extra row))
unfolding transition transition_found find_job
transition_lem q id row status extra found = rw found refl

abbrev pub finished : PrintJobStatus → Option Message → ℕ → PrintJobRow → PrintJobRow
finished status message t row =
    patched status (record { started_at = none; finished_at = some t; error_message = message }) row

pub finish_lem :
    (q : PrintQueue) (id : Text) (row : PrintJobRow) (status : PrintJobStatus)
    (message : Option Message) (t : ℕ)
    → get id q.jobs ≡ some row
    → finish q id status message t
      ≡ recorded status message (
        put
            (record q { cancel_requested = without id q.cancel_requested })
            id
            (finished status message t row),
        ok (finished status message t row),
      )
unfolding finish
finish_lem q id row status message t found =
    rw
      (transition_lem (record q { cancel_requested = without id q.cancel_requested }) id row status
        (record { started_at = none; finished_at = some t; error_message = message }) found)
      refl

pub finish-Told :
    (q : PrintQueue) (id : Text) (row : PrintJobRow) (status : PrintJobStatus)
    (message : Option Message) (t : ℕ)
    → Told id q row
    → Told id (finish q id status message t).0 (finished status message t row)
unfolding recorded patched
finish-Told q id row status message t h = rw (finish_lem q id row status message t h.found) (
    put-Told (record q { cancel_requested = without id q.cancel_requested }) id
      (finished status message t row) h.keyed)

pub finish-Apart :
    (q : PrintQueue) (id : Text) (row : PrintJobRow) (status : PrintJobStatus)
    (message : Option Message) (t : ℕ)
    → Told id q row
    → Apart id q (finish q id status message t).0
unfolding recorded patched
finish-Apart q id row status message t h =
    let apart =
      put-Apart (record q { cancel_requested = without id q.cancel_requested }) id
        (finished status message t row) h.keyed in
    rw (finish_lem q id row status message t h.found)
      (record { rows = apart.rows; events = apart.events; printers = apart.printers })
