-- ===== src/Printing/Lifecycle.antt =====
-- apps/server/src/modules/print/jobs.ts: the status that a job can have at each place of its run.
use local_cast.Base.{◌≡◌, refl, ℕ, Bool, true, false, Option, none, some, Text, arith}
use local_cast.Printing.{
  PrintJobStatus, queued, printing, done, error, cancelled, PrintJobRow, PrintQueue, patched,
  cleanup_spool,
}
use local_cast.Printing.Effects.{Told, Apart, Apart-refl, finished, finish-Told, finish-Apart}
use local_cast.Printing.Polling.{Outcome}
use local_cast.Printing.Running

-- The statuses that a job can have before it is handed over.
abbrev pub is_early : PrintJobStatus → Bool
is_early queued = true
is_early cancelled = true
is_early _ = false

abbrev pub is_printing : PrintJobStatus → Bool
is_printing printing = true
is_printing _ = false

-- A job with this status can be finished with that one.
abbrev pub can_finish : PrintJobStatus → PrintJobStatus → Bool
can_finish printing queued = false
can_finish printing _ = true
can_finish queued error = true
can_finish cancelled error = true
can_finish _ _ = false

abbrev pub fits_after : Running.After → PrintJobStatus → Bool
fits_after Running.leave status = is_early status
fits_after (Running.finishing o) status = can_finish status o.status

abbrev pub fits : Running.Phase → PrintJobStatus → Bool
fits Running.waiting status = is_early status
fits (Running.copying row) status = is_early status
fits (Running.locating row) status = is_early status
fits (Running.probing row) status = is_early status
fits (Running.listing row sumatra) status = is_early status
fits (Running.submitting row sumatra before) status = is_printing status
fits (Running.watching path wid deadline w) status = is_printing status
fits (Running.clearing after) status = fits_after after status
fits Running.ended status = true

-- What the times of a row say of its status.
abbrev pub dated : PrintJobStatus → Option ℕ → Option ℕ → Bool
dated queued none none = true
dated printing (some s) f = true
dated done (some s) (some f) = true
dated error s (some f) = true
dated cancelled s (some f) = true
dated _ s f = false

abbrev pub Fits : Running.Phase → PrintJobRow → Type 0
Fits p row = (fits p row.status ≡ true) × (dated row.status row.started_at row.finished_at ≡ true)

-- What a run has made of its job by the next `await`.
pub record Moved (id : Text) (q : PrintQueue) (out : PrintQueue × Running.Phase) : Type 0 where
  pub row : PrintJobRow
  pub told : Told id out.0 row
  pub fits : Fits out.1 row
  pub apart : Apart id q out.0

module _ (id : Text) (q : PrintQueue) (row : PrintJobRow) (h : Told id q row) where
  pub stay : (p : Running.Phase) → Fits p row → Moved id q (q, p)
  stay p f = record { row = row; told = h; fits = f; apart = Apart-refl id q }

  pub clear-Moved :
      (path : Option Text) (after : Running.After)
      → Fits (Running.clearing after) row
      → Moved id q (Running.clear q path after)
  unfolding Running.clear cleanup_spool
  clear-Moved none after f = record { row = row; told = h; fits = f; apart = Apart-refl id q }
  clear-Moved (some path) after f = record {
    row = row;
    told = h;
    fits = f;
    apart = record { rows = λ k n. refl; events = λ k n. refl; printers = refl };
  }

  finished-dated :
      (o : Outcome) (t : ℕ)
      → Fits (Running.clearing (Running.finishing o)) row
      → Fits Running.ended (finished o.status o.message t row)
  unfolding patched
  finished-dated o t f = ground arith

  pub settle-Moved :
      (after : Running.After) (t : ℕ)
      → Fits (Running.clearing after) row
      → Moved id q (Running.settle q id after t)
  unfolding Running.settle
  settle-Moved Running.leave t f = stay Running.ended (refl, f.1)
  settle-Moved (Running.finishing o) t f = record {
    row = finished o.status o.message t row;
    told = finish-Told q id row o.status o.message t h;
    fits = finished-dated o t f;
    apart = finish-Apart q id row o.status o.message t h;
  }
