-- ===== src/Printing/Running.antt =====
-- apps/server/src/modules/print/jobs.ts: `run`, `discoverJobId` and `watch`.
--
-- `run` stops at every `await`, where other calls may come in. A `Phase` is the place where a run
-- stands, with what it holds there, and `advance` goes on from one `await` to the next with the answer
-- that was awaited.
pub mod Endings
use local_cast.Base.{
  ℕ, ◌+◌, ◌*◌, Bool, true, false, not, ◌||◌, List, [], ◌∷◌, Option, none, some, Text, ltb,
  if◌then◌else◌, Result, ok, err,
}
use local_cast.Maps.{get, set}
use local_cast.Printing.{
  PrintJobStatus, queued, printing, done, error, cancelled, Message, lost_source, unreadable_source,
  refused, helper_failed, windows_failed, gave_up, PrintJobRow, PrintQueue, find_job, transition,
  finish, cleanup_spool,
}
use local_cast.Sets.{has}
use local_cast.Printing.Polling.{Look, discover_job_id, Outcome, Verdict, returns, goes_on, verdict}
use local_cast.Printing.Spooler.{
  PrintToSupport, SpoolerJob, SpoolerQueue, build_print_settings, assert_fallback_can_honour,
  assert_fallback_can_print_type,
}

pub record PrintQueueOptions : Type 0 where
  pub poll_timeout_ms : ℕ
  pub discover_attempts : ℕ

-- What `run` has left to do behind the removal of the spool copy.
pub data After : Type 0 where
  leave : After
  finishing : Outcome → After

-- The place in the loop of `watch`: the number of readings in a row that failed.
pub data Watch : Type 0 where
  reading sleeping : ℕ → Watch
  removing : Watch

pub data Phase : Type 0 where
  waiting : Phase
  copying locating probing : PrintJobRow → Phase
  listing : PrintJobRow → Bool → Phase
  submitting : PrintJobRow → Bool → List ℕ → Phase
  watching : Option Text → ℕ → ℕ → Watch → Phase
  clearing : After → Phase
  ended : Phase

-- What the call that is awaited comes back with: each place looks at its own part of it.
pub record Answer : Type 0 where
  pub failure : Option Text
  pub sumatra : Bool
  pub support : PrintToSupport
  pub seen : SpoolerQueue
  pub looks : List Look

abbrev pub failing : Message → After
failing m = finishing (record { status = error; message = some m })

-- `await this.cleanupSpool(…)`, and what is behind it.
unfoldable pub clear : PrintQueue → Option Text → After → PrintQueue × Phase
unfolding cleanup_spool
clear q path after = (cleanup_spool q path, clearing after)

unfoldable pub settle : PrintQueue → Text → After → ℕ → PrintQueue × Phase
unfolding finish
settle q id leave t = (q, ended)
settle q id (finishing o) t = ((finish q id o.status o.message t).0, ended)

unfoldable pub is_queued : PrintJobStatus → Bool
is_queued queued = true
is_queued _ = false

-- `!path`
pub is_missing : Option Text → Bool
is_missing none = true
is_missing (some []) = true
is_missing (some (c ∷ s)) = false

unfoldable pub begin_row : PrintQueue → Text → PrintJobRow → ℕ → PrintQueue × Phase
unfolding is_queued is_missing has clear settle
begin_row q id row t =
    if not (is_queued row.status) || has id q.cancel_requested || q.disposed
    then clear q row.spool_path leave
    else if is_missing row.spool_path || is_missing row.source_path
    then settle q id (failing lost_source) t
    else (q, copying row)

-- `run` up to the copy.
unfoldable pub begin : PrintQueue → Text → ℕ → PrintQueue × Phase
unfolding begin_row find_job
begin q id t = elim (find_job q id) [ none ↦ (q, ended) | some row ↦ begin_row q id row t ]

unfoldable pub after_copy : PrintQueue → PrintJobRow → Option Text → PrintQueue × Phase
unfolding clear
after_copy q row none = (q, locating row)
after_copy q row (some m) = clear q row.spool_path (failing (unreadable_source m))

-- Whether the helper is there: its settings can be built, or the verb can do without them.
unfoldable pub after_locate : PrintQueue → PrintJobRow → Bool → PrintQueue × Phase
unfolding clear build_print_settings assert_fallback_can_honour
after_locate q row true = elim (build_print_settings row.settings) [
  | err e ↦ clear q row.spool_path (failing (refused e))
  | ok s ↦ (q, listing row true)
]
after_locate q row false = elim (assert_fallback_can_honour row.settings) [
  | err e ↦ clear q row.spool_path (failing (refused e))
  | ok u ↦ (q, probing row)
]

unfoldable pub after_probe : PrintQueue → PrintJobRow → PrintToSupport → PrintQueue × Phase
unfolding clear assert_fallback_can_print_type
after_probe q row support = elim (assert_fallback_can_print_type support) [
  | err e ↦ clear q row.spool_path (failing (refused e))
  | ok u ↦ (q, listing row false)
]

pub ids_of : List SpoolerJob → List ℕ
ids_of [] = []
ids_of (job ∷ jobs) = job.id ∷ ids_of jobs

unfoldable pub handed_over :
    PrintJobRow → Bool → SpoolerQueue → PrintQueue × Result PrintJobRow → PrintQueue × Phase
unfolding ids_of
handed_over row sumatra seen (q, err e) = (q, ended)
handed_over row sumatra seen (q, ok r) = (q, submitting row sumatra (ids_of seen.jobs))

unfoldable pub after_list :
    PrintQueue → Text → PrintJobRow → Bool → SpoolerQueue → ℕ → PrintQueue × Phase
unfolding handed_over transition
after_list q id row sumatra seen t = handed_over row sumatra seen (
    transition q id printing
      (record { started_at = some t; finished_at = none; error_message = none }))

abbrev pub submit_message : Bool → Text → Message
submit_message true m = helper_failed m
submit_message false m = windows_failed m

-- `UPDATE print_jobs SET windows_job_id = ?`
unfoldable pub set_windows_job_id : PrintQueue → Text → Option ℕ → PrintQueue
unfolding get set
set_windows_job_id q id none = q
set_windows_job_id q id (some n) = elim (get id q.jobs) [
  | none ↦ q
  | some row ↦ record q { jobs = set id (record row { windows_job_id = some n }) q.jobs }
]

module _ (options : PrintQueueOptions) where
  -- The head of the loop of `watch`.
  unfoldable pub loop_head : PrintQueue → Text → Option Text → ℕ → ℕ → ℕ → ℕ → PrintQueue × Phase
  unfolding clear has
  loop_head q id path wid deadline unreadable t =
      if ltb t deadline
      then if has id q.cancel_requested
        then (q, watching path wid deadline removing)
        else (q, watching path wid deadline (reading unreadable))
      else clear q path
          (finishing (record { status = error; message = some (gave_up options.poll_timeout_ms) }))

unfoldable pub after_verdict : PrintQueue → Option Text → ℕ → ℕ → Verdict → PrintQueue × Phase
unfolding clear
after_verdict q path wid deadline (returns o) = clear q path (finishing o)
after_verdict q path wid deadline (goes_on n) =
    if q.disposed
    then clear q path (finishing (record { status = printing; message = none }))
    else (q, watching path wid deadline (sleeping n))

unfoldable pub after_read : PrintQueue → Option Text → ℕ → ℕ → ℕ → SpoolerQueue → PrintQueue × Phase
unfolding after_verdict verdict
after_read q path wid deadline unreadable seen =
    after_verdict q path wid deadline (verdict wid unreadable seen)

module _ (options : PrintQueueOptions) where
  -- The start of `watch`.
  unfoldable pub start_watch : PrintQueue → Text → Option Text → Option ℕ → ℕ → PrintQueue × Phase
  unfolding clear loop_head
  start_watch q id path none t = clear q path (finishing (record { status = done; message = none }))
  start_watch q id path (some wid) t =
      loop_head options q id path wid (t + options.poll_timeout_ms) 0 t

  abbrev pub trailing_attempts : Bool → ℕ
  trailing_attempts true = options.discover_attempts
  trailing_attempts false = options.discover_attempts * 4

  unfoldable pub submit_settled :
      PrintQueue → Text → PrintJobRow → Bool → Option Text → Option ℕ → ℕ → PrintQueue × Phase
  unfolding start_watch set_windows_job_id clear
  submit_settled q id row sumatra (some m) found t =
      clear q row.spool_path (failing (submit_message sumatra m))
  submit_settled q id row sumatra none found t =
      start_watch (set_windows_job_id q id found) id row.spool_path found t

  unfoldable pub after_submit :
      PrintQueue
      → Text
      → PrintJobRow
      → Bool
      → List ℕ
      → Option Text
      → List Look
      → ℕ
      → PrintQueue × Phase
  unfolding submit_settled discover_job_id
  after_submit q id row sumatra before failure looks t =
      elim (discover_job_id (trailing_attempts sumatra) before looks) [
        | none ↦ (q, submitting row sumatra before)
        | some found ↦ submit_settled q id row sumatra failure found t
      ]

  unfoldable pub advance : PrintQueue → Text → Phase → Answer → ℕ → PrintQueue × Phase
  unfolding begin after_copy after_locate after_probe after_list after_submit after_read loop_head
      clear settle
  advance q id waiting a t = begin q id t
  advance q id (copying row) a t = after_copy q row a.failure
  advance q id (locating row) a t = after_locate q row a.sumatra
  advance q id (probing row) a t = after_probe q row a.support
  advance q id (listing row sumatra) a t = after_list q id row sumatra a.seen t
  advance q id (submitting row sumatra before) a t =
      after_submit q id row sumatra before a.failure a.looks t
  advance q id (watching path wid deadline (reading unreadable)) a t =
      after_read q path wid deadline unreadable a.seen
  advance q id (watching path wid deadline (sleeping unreadable)) a t =
      loop_head options q id path wid deadline unreadable t
  advance q id (watching path wid deadline removing) a t =
      clear q path (finishing (record { status = cancelled; message = none }))
  advance q id (clearing after) a t = settle q id after t
  advance q id ended a t = (q, ended)
