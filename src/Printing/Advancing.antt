-- ===== src/Printing/Advancing.antt =====
-- apps/server/src/modules/print/jobs.ts: `advance` takes a job from a status that fits the one place of
-- its run to a status that fits the other.
use local_cast.Base.{refl, ℕ, none, Text}
use local_cast.Printing.{cancelled, PrintJobRow, PrintQueue}
use local_cast.Printing.Effects.{Told}
use local_cast.Printing.Lifecycle.{Fits, Moved, stay, settle-Moved}
use local_cast.Printing.Running.{
  PrintQueueOptions, Phase, waiting, copying, locating, probing, listing, submitting, watching,
  clearing, ended, reading, sleeping, removing, Answer, advance,
}
use local_cast.Printing.Segments.{
  begin-Moved, after_copy-Moved, after_locate-Moved, after_probe-Moved, after_list-Moved,
}
use local_cast.Printing.Watching.{
  after_submit-Moved, after_read-Moved, loop_head-Moved, clear_printing-Moved,
}

pub advance-Moved :
    (options : PrintQueueOptions) (id : Text) (q : PrintQueue) (row : PrintJobRow) (phase : Phase)
    (a : Answer) (t : ℕ)
    → Told id q row
    → Fits phase row
    → Moved id q (advance options q id phase a t)
unfolding advance
advance-Moved options id q row waiting a t h f = begin-Moved id q row h t f
advance-Moved options id q row (copying r) a t h f = after_copy-Moved id q row h r f a.failure
advance-Moved options id q row (locating r) a t h f = after_locate-Moved id q row h r f a.sumatra
advance-Moved options id q row (probing r) a t h f = after_probe-Moved id q row h r f a.support
advance-Moved options id q row (listing r sumatra) a t h f =
    after_list-Moved id q row h r f sumatra a.seen t
advance-Moved options id q row (submitting r sumatra before) a t h f =
    after_submit-Moved options id q row r h f sumatra before a.failure a.looks t
advance-Moved options id q row (watching path wid deadline (reading n)) a t h f =
    after_read-Moved id q row h f path wid deadline n a.seen
advance-Moved options id q row (watching path wid deadline (sleeping n)) a t h f =
    loop_head-Moved id q row h f options path wid deadline n t
advance-Moved options id q row (watching path wid deadline removing) a t h f =
    clear_printing-Moved id q row h f path (record { status = cancelled; message = none }) refl
advance-Moved options id q row (clearing after) a t h f = settle-Moved id q row h after t f
advance-Moved options id q row ended a t h f = stay id q row h ended f
