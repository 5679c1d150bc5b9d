-- ===== src/Printing/Service/History.antt =====
-- apps/server/src/modules/print/jobs.ts: what no later call changes, and what a cancellation reaches.
use mathlib.Core.Path.{subst}
use local_cast.Base.{◌≡◌, ◌⊎◌, refl, ℕ, Bool, true, false, List, [], ◌∷◌, none, some, Text, ok}
use local_cast.Maps.{get, get-set_self}
use local_cast.Printing.{publish, PrintJobRow, queued, done, error, cancelled, to_dto, cancel}
use local_cast.Printing.Effects.{finished}
use local_cast.Printing.Cancelling.{cancel_queued}
use local_cast.Printing.Running.{PrintQueueOptions, waiting, listing, Answer, advance}
use local_cast.Printing.Segments.{handed, after_list_lem}
use local_cast.Printing.Service.{
  Run, PrintService, Call, cancels, resumes, chain, is_first, moved, resume, step, steps,
}
use local_cast.Printing.Service.Invariant.{Inv, step-Inv, steps-Inv}
use local_cast.Printing.Service.Finality.{steps-Kept, Told-of_Sound, final_of_Sound}
use local_cast.Printing.Service.Turns.{Turn, has_begun, is_first_unique}

unfoldable pub new : List (Text × Text) → PrintService
new printers = record {
  queue = record {
    jobs = [];
    printers = printers;
    cancel_requested = [];
    disposed = false;
    events = [];
    activity = [];
    removed = [];
  };
  runs = [];
  chains = [];
}

module _ (join_temp extname : Text → Text) (options : PrintQueueOptions) where
  new-Inv : (printers : List (Text × Text)) → Inv (new printers)
  unfolding new get
  new-Inv printers = record { sound = λ id. refl; turn = λ id. tt }

  -- Whatever calls come in, in whatever order, from an empty table on: a job has a row exactly when
  -- it has a run; the status of the row and its times are such as belong to the place of the run; the
  -- last event that was published of the job shows the row as it is; and a run that has begun is the
  -- first in the chain of its printer.
  pub history-Inv :
      (printers : List (Text × Text)) (calls : List Call)
      → Inv (steps join_temp extname options (new printers) calls)
  history-Inv printers calls =
      steps-Inv join_temp extname options (new printers) calls (new-Inv printers)

  -- A printer works on one job at a time: behind any calls, two jobs of one printer whose runs have
  -- begun and have not ended are the same job.
  pub one_at_a_time :
      (printers : List (Text × Text)) (calls : List Call) (j k : Text) (a b : Run)
      → let s = steps join_temp extname options (new printers) calls in
        get j s.runs ≡ some a
        → get k s.runs ≡ some b
        → has_begun a.phase ≡ true
        → has_begun b.phase ≡ true
        → a.printer_id ≡ b.printer_id
        → j ≡ k
  one_at_a_time printers calls j k a b e f begun begun' same =
      let s = steps join_temp extname options (new printers) calls in
      let inv = history-Inv printers calls in
      let first = subst (Turn j s.chains) e (inv.turn j) begun in
      let first' = subst (Turn k s.chains) f (inv.turn k) begun' in
      is_first_unique j k (chain b.printer_id s.chains)
        (subst (λ p. is_first j (chain p s.chains) ≡ true) same first) first'

  -- A job that is done, or has failed, never changes again: whatever calls come in behind those that
  -- have led to it, its row stays as it is.
  pub finished_stays :
      (printers : List (Text × Text)) (calls later : List Call) (id : Text) (row : PrintJobRow)
      → let s = steps join_temp extname options (new printers) calls in
        get id s.queue.jobs ≡ some row
        → (row.status ≡ done) ⊎ (row.status ≡ error)
        → get id (steps join_temp extname options s later).queue.jobs ≡ some row
  finished_stays printers calls later id row found over =
      let s = steps join_temp extname options (new printers) calls in
      let inv = history-Inv printers calls in
      (steps-Kept join_temp extname options s later id row inv (record {
        found = found;
        final = final_of_Sound s.queue id row (get id s.runs) found over (inv.sound id);
      })).found

  -- A job that is cancelled by its device before its turn is told that it is cancelled, and is never
  -- printed: whatever calls come in later, its row stays the one that the cancellation has left.
  pub cancelled_before_turn :
      (printers : List (Text × Text)) (calls later : List Call) (id : Text) (row : PrintJobRow)
      (run : Run) (t : ℕ)
      → let s = steps join_temp extname options (new printers) calls in
        get id s.queue.jobs ≡ some row
        → get id s.runs ≡ some run
        → row.status ≡ queued
        → run.phase ≡ waiting
        → ((cancel s.queue id row.device_id t).1
            ≡ ok (to_dto s.queue.printers (finished cancelled none t row)))
          × (get id
                (steps join_temp extname options
                  (step join_temp extname options s (cancels id row.device_id t))
                  later).queue.jobs
              ≡ some (finished cancelled none t row))
  cancelled_before_turn printers calls later id row run t found here e place =
      let s = steps join_temp extname options (new printers) calls in
      let inv = history-Inv printers calls in
      let (kept, told) =
        cancel_queued s.queue id row t
          (Told-of_Sound s.queue id row (get id s.runs) found (inv.sound id)) e in
      (
        told,
        (steps-Kept join_temp extname options
            (step join_temp extname options s (cancels id row.device_id t)) later id
            (finished cancelled none t row)
            (step-Inv join_temp extname options s (cancels id row.device_id t) inv)
            (unfold step in record { found = kept; final = rw (here, place) refl })).found,
      )

  listing_resumed :
      (s : PrintService) (id : Text) (row r : PrintJobRow) (printer : Text) (sumatra : Bool)
      (a : Answer) (t : ℕ)
      → get id s.queue.jobs ≡ some row
      → get id s.runs ≡ some (record { printer_id = printer; phase = listing r sumatra })
      → get id (step join_temp extname options s (resumes id a t)).queue.jobs ≡ some (handed t row)
  unfolding step resume moved advance publish
  listing_resumed s id row r printer sumatra a t found here =
      rw (here, step, after_list_lem s.queue id row r sumatra a.seen t found)
        (get-set_self id (handed t row) s.queue.jobs)

  -- A cancellation that comes while the run of the job already waits for the first reading of the
  -- queue does not reach it: the device is told that the job is cancelled, and with the reading the
  -- job is printing.
  pub cancelled_too_late :
      (printers : List (Text × Text)) (calls : List Call) (id : Text) (row r : PrintJobRow)
      (printer : Text) (sumatra : Bool) (a : Answer) (t t' : ℕ)
      → let s = steps join_temp extname options (new printers) calls in
        get id s.queue.jobs ≡ some row
        → get id s.runs ≡ some (record { printer_id = printer; phase = listing r sumatra })
        → row.status ≡ queued
        → let s' =
            steps join_temp extname options s (cancels id row.device_id t ∷ resumes id a t' ∷ []) in
          ((cancel s.queue id row.device_id t).1
            ≡ ok (to_dto s.queue.printers (finished cancelled none t row)))
          × (get id s'.queue.jobs ≡ some (handed t' (finished cancelled none t row)))
  cancelled_too_late printers calls id row r printer sumatra a t t' found here e =
      let s = steps join_temp extname options (new printers) calls in
      let (kept, told) =
        cancel_queued s.queue id row t
          (Told-of_Sound s.queue id row (get id s.runs) found
            ((history-Inv printers calls).sound id))
          e in
      (
        told,
        unfold steps step in
            listing_resumed (step join_temp extname options s (cancels id row.device_id t)) id
              (finished cancelled none t row) r printer sumatra a t' kept here,
      )
