-- ===== src/Printing.antt =====
-- apps/server/src/modules/print/jobs.ts: the table of print jobs and the operations on it.
--
-- The prose of a message is left out, what is put into it is kept. `join` with the directory for
-- scratch files and `extname` are parameters; ids and times are arguments.
mod Rows
pub mod Spooler
pub mod Polling
pub mod Running
pub mod Service
mod Effects
pub mod Lifecycle
mod Segments
mod Watching
mod Advancing
mod Tests
mod Cancelling
pub use Rows.*
use local_cast.Base.{
  ℕ, Bool, true, false, ◌||◌, List, [], ◌∷◌, ◌++◌, Option, none, some, Text, codes, text_eq,
  if◌then◌else◌, Result, ok, err,
}
use local_cast.Contract.Errors.{plain, not_found, bad_request}
use local_cast.Sets.{has, without}
use local_cast.Maps.{get, set}

-- `events` and `activity` have the newest first. `removed` has the spool copies that `rm` was called for.
pub record PrintQueue : Type 0 where
  pub jobs : List (Text × PrintJobRow)
  pub printers : List (Text × Text)
  pub cancel_requested : List Text
  pub disposed : Bool
  pub events : List PrintJob
  pub activity : List Activity
  pub removed : List Text

or_unknown : Option Text → Text
or_unknown none = codes "unknown"
or_unknown (some name) = name

pub to_dto : List (Text × Text) → PrintJobRow → PrintJob
unfolding or_unknown get
to_dto printers row = record {
  id = row.id;
  file_name = row.file_name;
  printer_name = or_unknown (get row.printer_id printers);
  status = row.status;
  copies = row.settings.copies;
  color = row.settings.color;
  error_message = row.error_message;
  created_at = row.created_at;
  finished_at = row.finished_at;
}

unfoldable pub publish : PrintQueue → PrintJobRow → PrintQueue
publish q row = record q { events = to_dto q.printers row ∷ q.events }

unfoldable pub find_job : PrintQueue → Text → Option PrintJobRow
find_job q id = get id q.jobs

module _ (join_temp extname : Text → Text) where
  unfoldable pub new_row : EnqueueInput → Text → ℕ → PrintJobRow
  new_row input id at = record {
    id = id;
    device_id = input.device_id;
    printer_id = input.printer_id;
    source_kind = input.source_kind;
    source_path = some input.source_path;
    spool_path = some (join_temp (codes "print-" ++ (id ++ extname input.file_name)));
    file_name = input.file_name;
    settings = input.settings;
    status = queued;
    error_message = none;
    windows_job_id = none;
    created_at = at;
    started_at = none;
    finished_at = none;
  }

  -- `enqueue`, less the promise of the job, which is put behind the last one of its printer.
  unfoldable pub enqueue : PrintQueue → EnqueueInput → Text → ℕ → PrintQueue × PrintJob
  unfolding new_row publish get set
  enqueue q input id at =
      let row = new_row input id at in
      let told = publish (record q { jobs = set id row q.jobs }) row in
      (
        record told {
          activity =
              record {
                status = queued;
                device_id = input.device_id;
                job_id = id;
                file_name = input.file_name;
                message = none;
              }
              ∷ q.activity;
        },
        to_dto q.printers row,
      )

-- `COALESCE(a, b)`
abbrev coalesce {ℓ} : {A : Type ℓ} → Option A → Option A → Option A
coalesce none b = b
coalesce (some a) b = some a

pub record Extra : Type 0 where
  pub started_at : Option ℕ
  pub finished_at : Option ℕ
  pub error_message : Option Message

pub patched : PrintJobStatus → Extra → PrintJobRow → PrintJobRow
patched status extra row = record row {
  status = status;
  started_at = coalesce extra.started_at row.started_at;
  finished_at = coalesce extra.finished_at row.finished_at;
  error_message = coalesce extra.error_message row.error_message;
}

pub transition_found :
    PrintQueue
    → Text
    → PrintJobStatus
    → Extra
    → Option PrintJobRow
    → PrintQueue × Result PrintJobRow
unfolding patched set publish
transition_found q id status extra none = (q, err (plain not_found))
transition_found q id status extra (some row) =
    let next = patched status extra row in
    (publish (record q { jobs = set id next q.jobs }) next, ok next)

pub transition : PrintQueue → Text → PrintJobStatus → Extra → PrintQueue × Result PrintJobRow
unfolding transition_found find_job
transition q id status extra = transition_found q id status extra (find_job q id)

pub recorded :
    PrintJobStatus
    → Option Message
    → PrintQueue × Result PrintJobRow
    → PrintQueue × Result PrintJobRow
recorded status message (q, err e) = (q, err e)
recorded status message (q, ok row) = (
  record q {
    activity =
        record {
          status = status;
          device_id = row.device_id;
          job_id = row.id;
          file_name = row.file_name;
          message = message;
        }
        ∷ q.activity;
  },
  ok row,
)

pub finish :
    PrintQueue → Text → PrintJobStatus → Option Message → ℕ → PrintQueue × Result PrintJobRow
unfolding without transition recorded
finish q id status message t = recorded status message (
    transition (record q { cancel_requested = without id q.cancel_requested }) id status
      (record { started_at = none; finished_at = some t; error_message = message }))

-- `cleanupSpool`
pub cleanup_spool : PrintQueue → Option Text → PrintQueue
cleanup_spool q none = q
cleanup_spool q (some path) = record q { removed = path ∷ q.removed }

pub request_cancel : PrintQueue → Text → PrintQueue
request_cancel q id = record q { cancel_requested = id ∷ q.cancel_requested }

pub cancelled_dto : Option Text → PrintQueue × Result PrintJobRow → PrintQueue × Result PrintJob
unfolding cleanup_spool to_dto
cancelled_dto path (q, err e) = (q, err e)
cancelled_dto path (q, ok row) = (cleanup_spool q path, ok (to_dto q.printers row))

pub cancel_row : PrintQueue → Text → PrintJobRow → PrintJobStatus → ℕ → PrintQueue × Result PrintJob
unfolding request_cancel finish cancelled_dto to_dto
cancel_row q id row cancelled t = (q, ok (to_dto q.printers row))
cancel_row q id row done t = (q, err (plain bad_request))
cancel_row q id row error t = (q, err (plain bad_request))
cancel_row q id row queued t =
    cancelled_dto row.spool_path (finish (request_cancel q id) id cancelled none t)
cancel_row q id row printing t = (request_cancel q id, ok (to_dto q.printers row))

pub cancel_found : PrintQueue → Text → Text → Option PrintJobRow → ℕ → PrintQueue × Result PrintJob
unfolding cancel_row text_eq
cancel_found q id device none t = (q, err (plain not_found))
cancel_found q id device (some row) t =
    if text_eq row.device_id device
    then cancel_row q id row row.status t
    else (q, err (plain not_found))

pub cancel : PrintQueue → Text → Text → ℕ → PrintQueue × Result PrintJob
unfolding cancel_found find_job
cancel q id device t = cancel_found q id device (find_job q id) t

pub dispose : PrintQueue → PrintQueue
dispose q = record q { disposed = true }
