-- ===== src/Printing/Service.antt =====
-- apps/server/src/modules/print/jobs.ts: the queue with its runs, and the calls that come in from
-- outside, in any order.
--
-- `chains` has, for each printer, the jobs whose promises have not settled, in their order. A promise
-- runs when those before it have settled.
mod Turns
pub mod Invariant
mod Finality
pub mod History
use local_cast.Base.{
  ℕ, Bool, true, false, List, [], ◌∷◌, ◌++◌, Option, none, some, Text, text_eq, if◌then◌else◌,
}
use local_cast.Maps.{get, set}
use local_cast.Printing.{EnqueueInput, PrintQueue, find_job, enqueue, cancel, dispose}
use local_cast.Printing.Running.{PrintQueueOptions, Phase, waiting, ended, Answer, advance}

pub record Run : Type 0 where
  pub printer_id : Text
  pub phase : Phase

pub record PrintService : Type 0 where
  pub queue : PrintQueue
  pub runs : List (Text × Run)
  pub chains : List (Text × List Text)

pub data Call : Type 0 where
  enqueues : EnqueueInput → Text → ℕ → Call
  cancels : Text → Text → ℕ → Call
  disposes : Call
  resumes : Text → Answer → ℕ → Call

abbrev pub or_empty : Option (List Text) → List Text
or_empty none = []
or_empty (some ids) = ids

unfoldable pub chain : Text → List (Text × List Text) → List Text
unfolding get
chain printer chains = or_empty (get printer chains)

abbrev pub is_first : Text → List Text → Bool
is_first id [] = false
is_first id (j ∷ js) = text_eq j id

abbrev pub behind : List Text → List Text
behind [] = []
behind (j ∷ js) = js

-- Whether the run may go on: its promise is the next one, or it has begun.
abbrev pub is_turn : Text → List Text → Phase → Bool
is_turn id ids waiting = is_first id ids
is_turn id ids ended = false
is_turn id ids phase = true

abbrev pub is_ended : Phase → Bool
is_ended ended = true
is_ended phase = false

-- A promise that has settled leaves its chain.
abbrev pub settled_chain : Text → Bool → List (Text × List Text) → List (Text × List Text)
settled_chain printer true chains = set printer (behind (chain printer chains)) chains
settled_chain printer false chains = chains

unfoldable pub moved : PrintService → Text → Run → PrintQueue × Phase → PrintService
unfolding set chain
moved s id run (q, phase) = record {
  queue = q;
  runs = set id (record run { phase = phase }) s.runs;
  chains = settled_chain run.printer_id (is_ended phase) s.chains;
}

module _ (join_temp extname : Text → Text) (options : PrintQueueOptions) where
  pub enqueued : PrintService → EnqueueInput → Text → ℕ → PrintService
  unfolding enqueue set chain
  enqueued s input id at = record {
    queue = (enqueue join_temp extname s.queue input id at).0;
    runs = set id (record { printer_id = input.printer_id; phase = waiting }) s.runs;
    chains = set input.printer_id (chain input.printer_id s.chains ++ (id ∷ [])) s.chains;
  }

  pub resume : PrintService → Text → Run → Answer → ℕ → PrintService
  unfolding moved chain advance
  resume s id run answer t =
      if is_turn id (chain run.printer_id s.chains) run.phase
      then moved s id run (advance options s.queue id run.phase answer t)
      else s

  -- The table refuses an id that it has.
  unfoldable pub step : PrintService → Call → PrintService
  unfolding enqueued resume cancel dispose find_job get
  step s (enqueues input id at) = elim (find_job s.queue id) [
    | none ↦ enqueued s input id at
    | some row ↦ s
  ]
  step s (cancels id device t) = record s { queue = (cancel s.queue id device t).0 }
  step s disposes = record s { queue = dispose s.queue }
  step s (resumes id answer t) = elim (get id s.runs) [
    | none ↦ s
    | some run ↦ resume s id run answer t
  ]

  unfoldable pub steps : PrintService → List Call → PrintService
  unfolding step
  steps s [] = s
  steps s (call ∷ calls) = steps (step s call) calls
