-- ===== src/Printing/Rows.antt =====
-- apps/server/src/modules/print/jobs.ts: the rows of the table `print_jobs`, and what is told of them.
use local_cast.Base.{ℕ, Option, Text}
use local_cast.Contract.Errors.{ApiException}
use local_cast.Printing.Spooler.{Color, PrintSettings}

pub data PrintJobStatus : Type 0 where
  queued printing done error cancelled : PrintJobStatus

pub data SourceKind : Type 0 where
  library upload : SourceKind

-- What `error_message` says.
pub data Message : Type 0 where
  lost_source : Message
  unreadable_source : Text → Message
  refused : ApiException → Message
  helper_failed : Text → Message
  windows_failed : Text → Message
  queue_stopped : Message
  printer_reported : Text → Message
  gave_up : ℕ → Message

pub record PrintJobRow : Type 0 where
  pub id : Text
  pub device_id : Text
  pub printer_id : Text
  pub source_kind : SourceKind
  pub source_path : Option Text
  pub spool_path : Option Text
  pub file_name : Text
  pub settings : PrintSettings
  pub status : PrintJobStatus
  pub error_message : Option Message
  pub windows_job_id : Option ℕ
  pub created_at : ℕ
  pub started_at : Option ℕ
  pub finished_at : Option ℕ

pub record EnqueueInput : Type 0 where
  pub device_id : Text
  pub printer_id : Text
  pub printer_name : Text
  pub source_kind : SourceKind
  pub source_path : Text
  pub file_name : Text
  pub settings : PrintSettings

-- The job as the clients are told of it.
pub record PrintJob : Type 0 where
  pub id : Text
  pub file_name : Text
  pub printer_name : Text
  pub status : PrintJobStatus
  pub copies : ℕ
  pub color : Color
  pub error_message : Option Message
  pub created_at : ℕ
  pub finished_at : Option ℕ

-- A line of the activity log: `print.` and the status, the device, the job, and the message.
pub record Activity : Type 0 where
  pub status : PrintJobStatus
  pub device_id : Text
  pub job_id : Text
  pub file_name : Text
  pub message : Option Message
