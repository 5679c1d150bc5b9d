-- ===== src/Printing/Service/Invariant.antt =====
-- apps/server/src/modules/print/jobs.ts: what holds of the queue and its runs behind any calls.
use mathlib.Core.Path.{subst}
use local_cast.Base.{
  ◌≡◌, ◌≢◌, refl, sym, ◌∙◌, inl, inr, ℕ, true, List, [], ◌∷◌, ◌++◌, Option, none, some, Text,
  Bool-cases, Option-cases,
}
use local_cast.Maps.{Text-cases, get, set, get-set_self, get-set_ne}
use local_cast.Printing.{
  EnqueueInput, PrintJobRow, PrintQueue, find_job, new_row, enqueue, cancel, dispose,
}
use local_cast.Printing.Effects.{Told, Apart, put-Told, put-Apart}
use local_cast.Printing.Cancelling.{cancel-Moved, cancel-missing}
use local_cast.Printing.Lifecycle.{Fits, Moved}
use local_cast.Printing.Running.{PrintQueueOptions, Phase, waiting, Answer, advance}
use local_cast.Printing.Advancing.{advance-Moved}
use local_cast.Printing.Service.{
  is_ended, Run, PrintService, Call, enqueues, cancels, disposes, resumes, chain, is_first, is_turn,
  settled_chain, moved, enqueued, resume, step, steps,
}
use local_cast.Printing.Service.Turns.{
  Turn, Turn-set, is_first-append, is_turn-is_first, Turn-settled_chain, Turn-moved,
}

-- A job has a row exactly when it has a run, and the row, its last event, and the run fit.
abbrev pub Sound : Text → PrintQueue → Option Run → Type 0
Sound id q none = get id q.jobs ≡ none
Sound id q (some run) = (row : PrintJobRow) × Told id q row × Fits run.phase row

pub record Inv (s : PrintService) : Type 0 where
  pub sound : (id : Text) → Sound id s.queue (get id s.runs)
  pub turn : (id : Text) → Turn id s.chains (get id s.runs)

Sound-of_Apart :
    (id k : Text) (q q' : PrintQueue) (m : Option Run)
    → id ≢ k
    → Apart id q q'
    → Sound k q m
    → Sound k q' m
Sound-of_Apart id k q q' none n a h = a.rows k n ∙ h
Sound-of_Apart id k q q' (some run) n a (row, told, f) = (
  row,
  record {
    found = a.rows k n ∙ told.found;
    keyed = told.keyed;
    told = rw a.printers (a.events k n ∙ told.told);
  },
  f,
)

Sound-disposed : (k : Text) (q : PrintQueue) (m : Option Run) → Sound k q m → Sound k (dispose q) m
unfolding dispose
Sound-disposed k q none h = h
Sound-disposed k q (some run) h = h

-- The run of one job is put in, with a queue that differs in that job only.
Sound-set :
    (s : PrintService) (id : Text) (run : Run) (q : PrintQueue) (row : PrintJobRow)
    → Inv s
    → Told id q row
    → Fits run.phase row
    → Apart id s.queue q
    → (k : Text) → Sound k q (get k (set id run s.runs))
Sound-set s id run q row inv told f a k = elim (Text-cases id k) [
  | inl e ↦
      subst (λ j. Sound j q (get j (set id run s.runs))) e
        (rw (get-set_self id run s.runs) (row, told, f))
  | inr n ↦
      rw (get-set_ne id k run s.runs n)
        (Sound-of_Apart id k s.queue q (get k s.runs) n a (inv.sound k))
]

-- A run goes on.
moved-Inv :
    (s : PrintService) (id : Text) (run : Run) (out : PrintQueue × Phase)
    → Inv s
    → is_first id (chain run.printer_id s.chains) ≡ true
    → Moved id s.queue out
    → Inv (moved s id run out)
unfolding moved
moved-Inv s id run (q, phase) inv first m = record {
  sound = Sound-set s id (record run { phase = phase }) q m.row inv m.told m.fits m.apart;
  turn =
      Turn-set s.runs (settled_chain run.printer_id (is_ended phase) s.chains) id
        (record run { phase = phase }) (Turn-moved id run.printer_id phase s.chains first)
        (λ k n.
          Turn-settled_chain id k run.printer_id (is_ended phase) s.chains (get k s.runs) n first
            (inv.turn k));
}

resume-Inv :
    (join_temp extname : Text → Text) (options : PrintQueueOptions) (s : PrintService) (id : Text)
    (run : Run) (a : Answer) (t : ℕ)
    → Inv s
    → get id s.runs ≡ some run
    → Inv (resume join_temp extname options s id run a t)
unfolding resume
resume-Inv join_temp extname options s id run a t inv here =
    let (row, told, f) = subst (Sound id s.queue) here (inv.sound id) in
    elim (Bool-cases (is_turn id (chain run.printer_id s.chains) run.phase)) [
      | inr e ↦ rw e inv
      | inl e ↦ rw e (
          moved-Inv s id run (advance options s.queue id run.phase a t) inv
            (is_turn-is_first id s.chains run (subst (Turn id s.chains) here (inv.turn id)) e)
            (advance-Moved options id s.queue row run.phase a t told f))
    ]

Turn-append :
    (id k printer : Text) (chains : List (Text × List Text)) (m : Option Run)
    → Turn k chains m
    → Turn k (set printer (chain printer chains ++ (id ∷ [])) chains) m
unfolding chain
Turn-append id k printer chains none h = tt
Turn-append id k printer chains (some run) h = λ begun. elim (Text-cases printer run.printer_id) [
  | inl e ↦
      subst
        (λ p. is_first k (chain p (set printer (chain printer chains ++ (id ∷ [])) chains)) ≡ true)
        e
        (rw (get-set_self printer (chain printer chains ++ (id ∷ [])) chains) (
          is_first-append k id (chain printer chains)
            (subst (λ p. is_first k (chain p chains) ≡ true) (sym e) (h begun))))
  | inr d ↦
      rw (get-set_ne printer run.printer_id (chain printer chains ++ (id ∷ [])) chains d) (h begun)
]

module _ (join_temp extname : Text → Text) (options : PrintQueueOptions) where
  enqueued-Inv :
      (s : PrintService) (input : EnqueueInput) (id : Text) (at : ℕ)
      → Inv s
      → Inv (enqueued join_temp extname options s input id at)
  unfolding enqueued enqueue new_row
  enqueued-Inv s input id at inv =
      let row = new_row join_temp extname input id at in
      let run : Run = record { printer_id = input.printer_id; phase = waiting } in
      let apart = put-Apart s.queue id row refl in
      record {
        sound =
            Sound-set s id run (enqueue join_temp extname s.queue input id at).0 row inv
              (put-Told s.queue id row refl) (refl, refl)
              (record { rows = apart.rows; events = apart.events; printers = apart.printers });
        turn =
            Turn-set s.runs
              (set input.printer_id (chain input.printer_id s.chains ++ (id ∷ [])) s.chains) id run
              (λ begun. cc)
              (λ k n. Turn-append id k input.printer_id s.chains (get k s.runs) (inv.turn k));
      }

  Sound-cancel :
      (s : PrintService) (id device : Text) (t : ℕ) (m : Option Run)
      → get id s.runs ≡ m
      → Inv s
      → (k : Text) → Sound k (cancel s.queue id device t).0 (get k s.runs)
  Sound-cancel s id device t none here inv k =
      rw (cancel-missing id s.queue device t (subst (Sound id s.queue) here (inv.sound id)))
        (inv.sound k)
  Sound-cancel s id device t (some run) here inv k =
      let (row, told, f) = subst (Sound id s.queue) here (inv.sound id) in
      let m = cancel-Moved id s.queue row run.phase told f device t in
      elim (Text-cases id k) [
        | inl e ↦
            subst (λ j. Sound j (cancel s.queue id device t).0 (get j s.runs)) e
              (rw here (m.row, m.told, m.fits))
        | inr n ↦
            Sound-of_Apart id k s.queue (cancel s.queue id device t).0 (get k s.runs) n m.apart
              (inv.sound k)
      ]

  pub step-Inv :
      (s : PrintService) (call : Call) → Inv s → Inv (step join_temp extname options s call)
  unfolding step dispose find_job
  step-Inv s (enqueues input id at) inv = elim (Option-cases (get id s.queue.jobs)) [
    | inl e ↦ rw (e, step) (enqueued-Inv s input id at inv)
    | inr (row, e) ↦ rw (e, step) inv
  ]
  step-Inv s (cancels id device t) inv = record {
    sound = Sound-cancel s id device t (get id s.runs) refl inv;
    turn = inv.turn;
  }
  step-Inv s disposes inv = record {
    sound = λ k. Sound-disposed k s.queue (get k s.runs) (inv.sound k);
    turn = inv.turn;
  }
  step-Inv s (resumes id a t) inv = elim (Option-cases (get id s.runs)) [
    | inl e ↦ rw (e, step) inv
    | inr (run, e) ↦ rw (e, step) (resume-Inv join_temp extname options s id run a t inv e)
  ]

  pub steps-Inv :
      (s : PrintService) (calls : List Call) → Inv s → Inv (steps join_temp extname options s calls)
  unfolding steps
  steps-Inv s [] inv = inv
  steps-Inv s (call ∷ calls) inv =
      steps-Inv (step join_temp extname options s call) calls (step-Inv s call inv)
