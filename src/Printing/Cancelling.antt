-- ===== src/Printing/Cancelling.antt =====
-- apps/server/src/modules/print/jobs.ts: what `cancel` does to the row of a job.
use local_cast.Base.{
  ◌≡◌, refl, ℕ, true, Option, none, some, Text, text_eq, text_eq_refl, Result, ok, err, arith, inl,
  inr, Bool-cases,
}
use local_cast.Printing.{
  PrintJobRow, PrintQueue, PrintJobStatus, queued, printing, done, error, cancelled, find_job,
  publish, recorded, to_dto, patched, cancel, cancel_found, cancel_row, cancelled_dto, finish,
  request_cancel, cleanup_spool,
}
use local_cast.Maps.{get}
use local_cast.Printing.Effects.{Told, finish_lem, put-Told, finished, finish-Told, finish-Apart}
use local_cast.Printing.Lifecycle.{fits, Fits, Moved, stay}
use local_cast.Printing.Running.{
  Phase, waiting, ended, copying, locating, probing, listing, submitting, watching, clearing, leave,
  finishing,
}

-- A cancelled job fits where a queued one does.
fits-cancelled : (phase : Phase) → fits phase queued ≡ true → fits phase cancelled ≡ true
fits-cancelled waiting e = refl
fits-cancelled (copying r) e = refl
fits-cancelled (locating r) e = refl
fits-cancelled (probing r) e = refl
fits-cancelled (listing r b) e = refl
fits-cancelled (submitting r b l) e = cc
fits-cancelled (watching p w d x) e = cc
fits-cancelled (clearing leave) e = refl
fits-cancelled (clearing (finishing o)) e = ground arith
fits-cancelled ended e = refl

cancelled_dto-Moved :
    (id : Text) (q : PrintQueue) (phase : Phase) (path : Option Text)
    (m : PrintQueue × Result PrintJobRow)
    → Moved id q (m.0, phase)
    → Moved id q ((cancelled_dto path m).0, phase)
unfolding cancelled_dto cleanup_spool
cancelled_dto-Moved id q phase path (q', err e) h = h
cancelled_dto-Moved id q phase none (q', ok row) h = h
cancelled_dto-Moved id q phase (some path) (q', ok row) h = record {
  row = h.row;
  told = h.told;
  fits = h.fits;
  apart = record { rows = h.apart.rows; events = h.apart.events; printers = h.apart.printers };
}

module _ (id : Text) (q : PrintQueue) (row : PrintJobRow) (phase : Phase) (h : Told id q row)
    (f : Fits phase row) where
  request_cancel-Moved : Moved id q (request_cancel q id, phase)
  unfolding request_cancel
  request_cancel-Moved = record {
    row = row;
    told = h;
    fits = f;
    apart = record { rows = λ k n. refl; events = λ k n. refl; printers = refl };
  }

  cancelled-Fits : (t : ℕ) → row.status ≡ queued → Fits phase (finished cancelled none t row)
  unfolding patched
  cancelled-Fits t e = (fits-cancelled phase (rw⁻¹ e f.0), refl)

  cancel_row-Moved :
      (status : PrintJobStatus) (t : ℕ)
      → row.status ≡ status
      → Moved id q ((cancel_row q id row status t).0, phase)
  unfolding cancel_row
  cancel_row-Moved cancelled t e = stay id q row h phase f
  cancel_row-Moved done t e = stay id q row h phase f
  cancel_row-Moved error t e = stay id q row h phase f
  cancel_row-Moved printing t e = request_cancel-Moved
  cancel_row-Moved queued t e =
      let apart = finish-Apart (request_cancel q id) id row cancelled none t h in
      cancelled_dto-Moved id q phase row.spool_path
        (finish (request_cancel q id) id cancelled none t)
        (record {
          row = finished cancelled none t row;
          told = finish-Told (request_cancel q id) id row cancelled none t h;
          fits = cancelled-Fits t e;
          apart = record { rows = apart.rows; events = apart.events; printers = apart.printers };
        })

  pub cancel-Moved : (device : Text) (t : ℕ) → Moved id q ((cancel q id device t).0, phase)
  unfolding cancel cancel_found find_job
  cancel-Moved device t = elim (Bool-cases (text_eq row.device_id device)) [
    | inl e ↦ rw (h.found, e, cancel) (cancel_row-Moved row.status t refl)
    | inr e ↦ rw (h.found, e, cancel) (stay id q row h phase f)
  ]

pub cancel-missing :
    (id : Text) (q : PrintQueue) (device : Text) (t : ℕ)
    → get id q.jobs ≡ none
    → (cancel q id device t).0 ≡ q
unfolding cancel cancel_found find_job
cancel-missing id q device t e = rw (e, cancel) refl

-- The row of a queued job is cancelled at once, and the answer shows it.
cancelled_dto_lem :
    (q : PrintQueue) (id : Text) (row : PrintJobRow) (path : Option Text)
    → get id q.jobs ≡ some row
    → (get id (cancelled_dto path (q, ok row)).0.jobs ≡ some row)
      × ((cancelled_dto path (q, ok row)).1 ≡ ok (to_dto q.printers row))
unfolding cancelled_dto cleanup_spool
cancelled_dto_lem q id row none found = (found, refl)
cancelled_dto_lem q id row (some path) found = (found, refl)

pub cancel_queued :
    (q : PrintQueue) (id : Text) (row : PrintJobRow) (t : ℕ)
    → Told id q row
    → row.status ≡ queued
    → (get id (cancel q id row.device_id t).0.jobs ≡ some (finished cancelled none t row))
      × ((cancel q id row.device_id t).1 ≡ ok (to_dto q.printers (finished cancelled none t row)))
unfolding cancel cancel_found cancel_row find_job recorded request_cancel publish
cancel_queued q id row t h e =
    rw
      (
        h.found,
        cancel,
        text_eq_refl row.device_id,
        e,
        finish_lem (request_cancel q id) id row cancelled none t h.found,
      )
      (cancelled_dto_lem _ id (finished cancelled none t row) row.spool_path
        (put-Told q id (finished cancelled none t row) h.keyed).found)
