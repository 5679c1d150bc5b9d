-- ===== src/Printing/Segments.antt =====
-- apps/server/src/modules/print/jobs.ts: each piece of `run` between two `await`s takes its job from a
-- status that fits the one place to a status that fits the other.
use local_cast.Base.{
  ◌≡◌, refl, ℕ, Result, Bool, true, false, ◌||◌, not, Option, none, some, Text, if◌then◌else◌, ok,
  err, arith,
}
use local_cast.Maps.{get}
use local_cast.Printing.{
  printing, error, lost_source, unreadable_source, refused, PrintJobRow, PrintQueue, find_job,
  patched,
}
use local_cast.Sets.{has}
use local_cast.Printing.Effects.{Told, transition_lem, put, put-Told, put-Apart}
use local_cast.Printing.Lifecycle.{Fits, Moved, stay, clear-Moved, settle-Moved}
use local_cast.Printing.Polling.{Outcome}
use local_cast.Printing.Running.{
  leave, finishing, Phase, waiting, copying, locating, probing, listing, submitting, failing, clear,
  is_queued, is_missing, begin_row, begin, ids_of, after_copy, after_locate, after_probe,
  handed_over, after_list,
}
use local_cast.Printing.Spooler.{
  PrintToSupport, SpoolerQueue, build_print_settings, assert_fallback_can_honour,
  assert_fallback_can_print_type,
}

-- The row of a job that is handed over.
abbrev pub handed : ℕ → PrintJobRow → PrintJobRow
handed t row =
    patched printing (record { started_at = some t; finished_at = none; error_message = none }) row

pub after_list_lem :
    (q : PrintQueue) (id : Text) (row r : PrintJobRow) (sumatra : Bool) (seen : SpoolerQueue)
    (t : ℕ)
    → get id q.jobs ≡ some row
    → after_list q id r sumatra seen t
      ≡ (put q id (handed t row), submitting r sumatra (ids_of seen.jobs))
unfolding after_list handed_over
after_list_lem q id row r sumatra seen t found =
    rw
      (transition_lem q id row printing
        (record { started_at = some t; finished_at = none; error_message = none }) found)
      refl

module _ (id : Text) (q : PrintQueue) (row : PrintJobRow) (h : Told id q row) where
  pub if-Moved :
      (b : Bool) (x y : PrintQueue × Phase)
      → Moved id q x
      → Moved id q y
      → Moved id q (if b then x else y)
  if-Moved true x y k l = k
  if-Moved false x y k l = l

  begin_row-Moved : (t : ℕ) → Fits waiting row → Moved id q (begin_row q id row t)
  unfolding begin_row
  begin_row-Moved t f =
      if-Moved (not (is_queued row.status) || has id q.cancel_requested || q.disposed) _ _
        (clear-Moved id q row h row.spool_path leave f)
        (if-Moved (is_missing row.spool_path || is_missing row.source_path) _ _
          (settle-Moved id q row h (failing lost_source) t (ground arith))
          (stay id q row h (copying row) f))

  pub begin-Moved : (t : ℕ) → Fits waiting row → Moved id q (begin q id t)
  unfolding begin find_job
  begin-Moved t f = rw (h.found, begin) (begin_row-Moved t f)

  module _ (r : PrintJobRow) (f : Fits waiting row) where
    failing-Moved :
        (path : Option Text) (m : Outcome)
        → m.status ≡ error
        → Moved id q (clear q path (finishing m))
    failing-Moved path m e = clear-Moved id q row h path (finishing m) (ground arith)

    pub after_copy-Moved : (failure : Option Text) → Moved id q (after_copy q r failure)
    unfolding after_copy
    after_copy-Moved none = stay id q row h (locating r) f
    after_copy-Moved (some m) =
        failing-Moved r.spool_path (record { status = error; message = some (unreadable_source m) })
          refl

    -- Refused with an exception, or on to the next place.
    checked-Moved {ℓ} :
        {A : Type ℓ} (m : Result A) (next : PrintQueue × Phase)
        → Moved id q next
        → Moved id q (elim m [ err e ↦ clear q r.spool_path (failing (refused e)) | ok u ↦ next ])
    checked-Moved (err e) next k =
        failing-Moved r.spool_path (record { status = error; message = some (refused e) }) refl
    checked-Moved (ok u) next k = k

    pub after_locate-Moved : (sumatra : Bool) → Moved id q (after_locate q r sumatra)
    unfolding after_locate
    after_locate-Moved true =
        checked-Moved (build_print_settings r.settings) (q, listing r true)
          (stay id q row h (listing r true) f)
    after_locate-Moved false =
        checked-Moved (assert_fallback_can_honour r.settings) (q, probing r)
          (stay id q row h (probing r) f)

    pub after_probe-Moved : (support : PrintToSupport) → Moved id q (after_probe q r support)
    unfolding after_probe
    after_probe-Moved support =
        checked-Moved (assert_fallback_can_print_type support) (q, listing r false)
          (stay id q row h (listing r false) f)

    pub after_list-Moved :
        (sumatra : Bool) (seen : SpoolerQueue) (t : ℕ)
        → Moved id q (after_list q id r sumatra seen t)
    unfolding patched
    after_list-Moved sumatra seen t =
        rw (after_list_lem q id row r sumatra seen t h.found) (record {
          row = handed t row;
          told = put-Told q id (handed t row) h.keyed;
          fits = (refl, refl);
          apart = put-Apart q id (handed t row) h.keyed;
        })
