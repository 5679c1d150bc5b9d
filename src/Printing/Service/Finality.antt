-- ===== src/Printing/Service/Finality.antt =====
-- apps/server/src/modules/print/jobs.ts: a row that nothing is left to change.
use mathlib.Core.Path.{subst}
use local_cast.Base.{
  ◌≡◌, ◌≢◌, ◌⊎◌, refl, sym, ◌∙◌, inl, inr, ap, ℕ, Bool, true, false, List, [], ◌∷◌, Option, none,
  some, Text, Bool-cases, Option-cases, text_eq, arith,
}
use local_cast.Maps.{Text-cases, get, set, get-set_self, get-set_ne}
use local_cast.Printing.{
  PrintJobRow, PrintJobStatus, done, error, cancelled, PrintQueue, find_job, new_row, enqueue,
  cancel, cancel_found, cancel_row, dispose, cleanup_spool,
}
use local_cast.Printing.Effects.{Told}
use local_cast.Printing.Cancelling.{cancel-Moved, cancel-missing}
use local_cast.Printing.Lifecycle.{fits}
use local_cast.Printing.Running.{
  PrintQueueOptions, Phase, waiting, clearing, ended, leave, Answer, advance, begin, begin_row,
  is_queued, clear, settle,
}
use local_cast.Printing.Advancing.{advance-Moved}
use local_cast.Printing.Service.{
  Run, PrintService, Call, enqueues, cancels, disposes, resumes, chain, is_turn, moved, enqueued,
  resume, step, steps,
}
use local_cast.Printing.Service.Invariant.{Inv, Sound, step-Inv}

-- A row that nothing is left to change.
abbrev pub is_final : Phase → PrintJobStatus → Bool
is_final waiting cancelled = true
is_final (clearing leave) cancelled = true
is_final ended done = true
is_final ended error = true
is_final ended cancelled = true
is_final phase status = false

abbrev pub is_final_run : PrintJobStatus → Option Run → Bool
is_final_run status none = false
is_final_run status (some run) = is_final run.phase status

absurd-none : (row : PrintJobRow) → ¬ (none ≡ some row)
absurd-none row e = cc

final_of_done :
    (phase : Phase) (status : PrintJobStatus)
    → (status ≡ done) ⊎ (status ≡ error)
    → fits phase status ≡ true
    → is_final phase status ≡ true
final_of_done phase status d f = ground arith

some-row : (a b : PrintJobRow) → some a ≡ some b → a ≡ b
some-row a b e = cc

pub Told-of_Sound :
    (q : PrintQueue) (id : Text) (row : PrintJobRow) (m : Option Run)
    → get id q.jobs ≡ some row
    → Sound id q m
    → Told id q row
Told-of_Sound q id row none found h = absurd (absurd-none row (sym h ∙ found))
Told-of_Sound q id row (some run) found (r, told, f) =
    subst (Told id q) (some-row r row (sym told.found ∙ found)) told

pub final_of_Sound :
    (q : PrintQueue) (id : Text) (row : PrintJobRow) (m : Option Run)
    → get id q.jobs ≡ some row
    → (row.status ≡ done) ⊎ (row.status ≡ error)
    → Sound id q m
    → is_final_run row.status m ≡ true
final_of_Sound q id row none found over h = absurd (absurd-none row (sym h ∙ found))
final_of_Sound q id row (some run) found over (r, told, f) =
    final_of_done run.phase row.status over
      (subst (λ x. fits run.phase x.status ≡ true) (some-row r row (sym told.found ∙ found)) f.0)

module _ (join_temp extname : Text → Text) (options : PrintQueueOptions) where
  -- What is kept of a final row.
  pub record Kept (id : Text) (row : PrintJobRow) (s : PrintService) : Type 0 where
    pub found : get id s.queue.jobs ≡ some row
    pub final : is_final_run row.status (get id s.runs) ≡ true

  begin_cancelled :
      (id : Text) (q : PrintQueue) (row : PrintJobRow) (t : ℕ)
      → get id q.jobs ≡ some row
      → row.status ≡ cancelled
      → begin q id t ≡ clear q row.spool_path leave
  unfolding begin begin_row is_queued find_job
  begin_cancelled id q row t found e = rw (found, begin, e) refl

  clear-is_final :
      (id : Text) (q : PrintQueue) (row : PrintJobRow) (path : Option Text)
      → get id q.jobs ≡ some row
      → (get id (clear q path leave).0.jobs ≡ some row)
        × (is_final (clear q path leave).1 cancelled ≡ true)
  unfolding clear cleanup_spool
  clear-is_final id q row none found = (found, refl)
  clear-is_final id q row (some path) found = (found, refl)

  advance-is_final :
      (id : Text) (q : PrintQueue) (row : PrintJobRow) (phase : Phase) (status : PrintJobStatus)
      (a : Answer) (t : ℕ)
      → get id q.jobs ≡ some row
      → row.status ≡ status
      → is_final phase status ≡ true
      → (get id (advance options q id phase a t).0.jobs ≡ some row)
        × (is_final (advance options q id phase a t).1 status ≡ true)
  unfolding advance settle
  advance-is_final id q row waiting cancelled a t found e f =
      rw (begin_cancelled id q row t found e) (clear-is_final id q row row.spool_path found)
  advance-is_final id q row (clearing leave) cancelled a t found e f = (found, refl)
  advance-is_final id q row ended status a t found e f = (found, f)
  advance-is_final id q row phase status a t found e f = cc

  cancel_final :
      (id : Text) (q : PrintQueue) (row : PrintJobRow) (m : Option Run) (status : PrintJobStatus)
      (t : ℕ)
      → is_final_run status m ≡ true
      → (cancel_row q id row status t).0 ≡ q
  unfolding cancel_row
  cancel_final id q row m cancelled t f = refl
  cancel_final id q row m done t f = refl
  cancel_final id q row m error t f = refl
  cancel_final id q row m status t f = ground arith

  cancel-Kept :
      (s : PrintService) (id device : Text) (row : PrintJobRow) (t : ℕ)
      → Kept id row s
      → (cancel s.queue id device t).0 ≡ s.queue
  unfolding cancel cancel_found find_job
  cancel-Kept s id device row t h = elim (Bool-cases (text_eq row.device_id device)) [
    | inl e ↦
        rw (h.found, e, cancel) (cancel_final id s.queue row (get id s.runs) row.status t h.final)
    | inr e ↦ rw (h.found, e, cancel) refl
  ]

  -- The row of another job stays.
  cancel_other :
      (s : PrintService) (j id device : Text) (t : ℕ) (m : Option Run)
      → get j s.runs ≡ m
      → Inv s
      → j ≢ id
      → get id (cancel s.queue j device t).0.jobs ≡ get id s.queue.jobs
  cancel_other s j id device t none e inv n =
      rw (cancel-missing j s.queue device t (subst (Sound j s.queue) e (inv.sound j))) refl
  cancel_other s j id device t (some run) e inv n =
      let (row, told, f) = subst (Sound j s.queue) e (inv.sound j) in
      (cancel-Moved j s.queue row run.phase told f device t).apart.rows id n

  resume-Kept :
      (s : PrintService) (j id : Text) (row : PrintJobRow) (run : Run) (a : Answer) (t : ℕ)
      → Inv s
      → get j s.runs ≡ some run
      → Kept id row s
      → Kept id row (moved s j run (advance options s.queue j run.phase a t))
  unfolding moved
  resume-Kept s j id row run a t inv e h = elim (Text-cases j id) [
    | inl same ↦
        let final =
          subst (λ m. is_final_run row.status m ≡ true) (sym (ap (λ k. get k s.runs) same) ∙ e)
            h.final in
        let out = advance options s.queue j run.phase a t in
        let (found, final') =
          advance-is_final j s.queue row run.phase row.status a t
            (subst (λ k. get k s.queue.jobs ≡ some row) (sym same) h.found) refl final in
        record {
          found = subst (λ k. get k out.0.jobs ≡ some row) same found;
          final =
              subst
                (λ k.
                  is_final_run row.status (get k (set j (record run { phase = out.1 }) s.runs))
                  ≡ true)
                same (rw (get-set_self j (record run { phase = out.1 }) s.runs) final');
        }
    | inr n ↦
        let (r, told, f) = subst (Sound j s.queue) e (inv.sound j) in
        let out = advance options s.queue j run.phase a t in
        record {
          found =
              (advance-Moved options j s.queue r run.phase a t told f).apart.rows id n ∙ h.found;
          final = rw (get-set_ne j id (record run { phase = out.1 }) s.runs n) h.final;
        }
  ]

  pub step-Kept :
      (s : PrintService) (call : Call) (id : Text) (row : PrintJobRow)
      → Inv s
      → Kept id row s
      → Kept id row (step join_temp extname options s call)
  unfolding step find_job dispose enqueued enqueue new_row
  step-Kept s (enqueues input j at) id row inv h = elim (Option-cases (get j s.queue.jobs)) [
    | inr (r, e) ↦ rw (e, step) h
    | inl e ↦
        let new_id : j ≢ id =
          λ same. absurd-none row (sym e ∙ ap (λ k. get k s.queue.jobs) same ∙ h.found) in
        rw (e, step)
          (record {
            found =
                get-set_ne j id (new_row join_temp extname input j at) s.queue.jobs new_id
                ∙ h.found;
            final =
                rw
                  (get-set_ne j id (record { printer_id = input.printer_id; phase = waiting })
                    s.runs new_id)
                  h.final;
          })
  ]
  step-Kept s (cancels j device t) id row inv h = elim (Text-cases j id) [
    | inl same ↦ record {
      found =
          subst (λ k. get id (cancel s.queue k device t).0.jobs ≡ some row) (sym same)
            (ap (λ q. get id q.jobs) (cancel-Kept s id device row t h) ∙ h.found);
      final = h.final;
    }
    | inr n ↦ record {
      found = cancel_other s j id device t (get j s.runs) refl inv n ∙ h.found;
      final = h.final;
    }
  ]
  step-Kept s disposes id row inv h = record { found = h.found; final = h.final }
  step-Kept s (resumes j a t) id row inv h = elim (Option-cases (get j s.runs)) [
    | inl e ↦ rw (e, step) h
    | inr (run, e) ↦
        rw (e, step)
          (elim (Bool-cases (is_turn j (chain run.printer_id s.chains) run.phase)) [
            | inl turn ↦ rw (turn, resume) (resume-Kept s j id row run a t inv e h)
            | inr turn ↦ rw (turn, resume) h
          ])
  ]

  pub steps-Kept :
      (s : PrintService) (calls : List Call) (id : Text) (row : PrintJobRow)
      → Inv s
      → Kept id row s
      → Kept id row (steps join_temp extname options s calls)
  unfolding steps
  steps-Kept s [] id row inv h = h
  steps-Kept s (call ∷ calls) id row inv h =
      steps-Kept (step join_temp extname options s call) calls id row
        (step-Inv join_temp extname options s call inv) (step-Kept s call id row inv h)
