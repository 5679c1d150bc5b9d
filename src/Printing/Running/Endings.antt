-- ===== src/Printing/Running/Endings.antt =====
-- apps/server/src/modules/print/jobs.ts: `watch` ends, and when it says that a job is done.
use mathlib.Core.Path.{subst}
use local_cast.Base.{
  ==_iff, length, ◌≡◌, refl, ◌≤◌, ◌-◌, ℕ, Bool, true, false, List, [], ◌∷◌, ◌++◌, Option, Text,
  arith, ltb, ◌==◌, if◌then◌else◌,
}
use local_cast.Printing.{PrintQueue}
use local_cast.Sets.{has}
use local_cast.Printing.Polling.{Verdict, returns, goes_on, verdict}
use local_cast.Printing.Running.{
  PrintQueueOptions, Phase, watching, clearing, ended, waiting, copying, locating, probing, listing,
  submitting, Watch, reading, sleeping, removing, After, leave, finishing, Answer, advance, clear,
  settle, after_verdict, after_read, loop_head,
}

-- The answers that come to a run, with their times.
unfoldable pub drive :
    PrintQueueOptions → PrintQueue → Text → Phase → List (Answer × ℕ) → PrintQueue × Phase
unfolding advance
drive options q id phase [] = (q, phase)
drive options q id phase ((a, t) ∷ answers) =
    let (q', phase') = advance options q id phase a t in drive options q' id phase' answers

-- How many answers a run is away from its end, once the deadline of its watch has passed.
abbrev distance : Phase → ℕ
distance (watching path wid deadline (reading n)) = 3
distance (watching path wid deadline (sleeping n)) = 2
distance (watching path wid deadline removing) = 2
distance (clearing after) = 1
distance ended = 0
distance phase = 4

-- The run is in a watch with this deadline, or behind it.
abbrev pub is_late : ℕ → Phase → Bool
is_late deadline (watching path wid d w) = d == deadline
is_late deadline (clearing after) = true
is_late deadline ended = true
is_late deadline phase = false

-- It is late, and not farther away.
abbrev Nears : ℕ → ℕ → PrintQueue × Phase → Type 0
Nears deadline n out = (is_late deadline out.1 ≡ true) × (distance out.1 ≤ n)

if-Nears :
    (deadline n : ℕ) (b : Bool) (x y : PrintQueue × Phase)
    → (b ≡ true → Nears deadline n x)
    → (b ≡ false → Nears deadline n y)
    → Nears deadline n (if b then x else y)
if-Nears deadline n true x y k l = k refl
if-Nears deadline n false x y k l = l refl

module _ (options : PrintQueueOptions) (q : PrintQueue) (id : Text) where
  after_verdict-Nears :
      (path : Option Text) (wid deadline : ℕ) (v : Verdict)
      → Nears deadline 2 (after_verdict q path wid deadline v)
  unfolding after_verdict clear
  after_verdict-Nears path wid deadline (returns o) = (refl, omega arith)
  after_verdict-Nears path wid deadline (goes_on n) =
      if-Nears deadline 2 q.disposed _ _ (λ e. (refl, omega arith))
        (λ e. (ground arith, omega arith))

  loop_head-Nears :
      (path : Option Text) (wid deadline n t : ℕ)
      → Nears deadline 3 (loop_head options q id path wid deadline n t)
        × (deadline ≤ t → Nears deadline 1 (loop_head options q id path wid deadline n t))
  unfolding loop_head clear
  loop_head-Nears path wid deadline n t = (
    if-Nears deadline 3 (ltb t deadline) _ _
        (λ e.
          if-Nears deadline 3 (has id q.cancel_requested) _ _ (λ c. (ground arith, omega arith))
            (λ c. (ground arith, omega arith)))
        (λ e. (refl, omega arith)),
    (λ late.
        if-Nears deadline 1 (ltb t deadline) _ _ (λ e. absurd (ground arith))
          (λ e. (refl, omega arith))),
  )

  settle-ended : (after : After) (t : ℕ) → (settle q id after t).1 ≡ ended
  unfolding settle
  settle-ended leave t = refl
  settle-ended (finishing o) t = refl

  watching-Nears :
      (path : Option Text) (wid d t : ℕ) (w : Watch) (a : Answer)
      → (is_late d (advance options q id (watching path wid d w) a t).1 ≡ true)
        × (d ≤ t
            → distance (advance options q id (watching path wid d w) a t).1
              ≤ distance (watching path wid d w) - 1)
  unfolding advance after_read clear
  watching-Nears path wid d t removing a = (refl, λ late. omega arith)
  watching-Nears path wid d t (reading n) a =
      let (late, near) = after_verdict-Nears path wid d (verdict wid n a.seen) in (late, λ _. near)
  watching-Nears path wid d t (sleeping n) a =
      let (far, near) = loop_head-Nears path wid d n t in (far.0, λ late. (near late).1)

  advance-Nears :
      (phase : Phase) (a : Answer) (t deadline : ℕ)
      → is_late deadline phase ≡ true
      → (is_late deadline (advance options q id phase a t).1 ≡ true)
        × (deadline ≤ t → distance (advance options q id phase a t).1 ≤ distance phase - 1)
  unfolding advance
  advance-Nears ended a t deadline h = (refl, λ late. omega arith)
  advance-Nears (clearing after) a t deadline h =
      rw (settle-ended after t) (refl, λ late. omega arith)
  advance-Nears (watching path wid d w) a t deadline h =
      subst
        (λ x.
          (is_late x (advance options q id (watching path wid d w) a t).1 ≡ true)
          × (x ≤ t
              → distance (advance options q id (watching path wid d w) a t).1
                ≤ distance (watching path wid d w) - 1))
        ((==_iff d deadline).0 h) (watching-Nears path wid d t w a)
  advance-Nears waiting a t deadline h = cc
  advance-Nears (copying r) a t deadline h = cc
  advance-Nears (locating r) a t deadline h = cc
  advance-Nears (probing r) a t deadline h = cc
  advance-Nears (listing r b) a t deadline h = cc
  advance-Nears (submitting r b l) a t deadline h = cc

-- The answers come at or behind a time.
abbrev pub AllFrom : ℕ → List (Answer × ℕ) → Type 0
AllFrom deadline [] = Unit
AllFrom deadline ((a, t) ∷ answers) = (deadline ≤ t) × AllFrom deadline answers

module _ (options : PrintQueueOptions) (id : Text) where
  drive-Nears :
      (q : PrintQueue) (phase : Phase) (deadline : ℕ) (answers : List (Answer × ℕ))
      → is_late deadline phase ≡ true
      → AllFrom deadline answers
      → (is_late deadline (drive options q id phase answers).1 ≡ true)
        × (distance (drive options q id phase answers).1 ≤ distance phase - length answers)
  unfolding drive
  drive-Nears q phase deadline [] h late = (h, omega arith)
  drive-Nears q phase deadline ((a, t) ∷ answers) h (late, more) =
      let (h', near) = advance-Nears options q id phase a t deadline h in
      let (q', phase') = advance options q id phase a t in
      let (l, rest) = drive-Nears q' phase' deadline answers h' more in
      (l, omega (arith, near late))

  drive-is_late :
      (q : PrintQueue) (phase : Phase) (deadline : ℕ) (answers : List (Answer × ℕ))
      → is_late deadline phase ≡ true
      → is_late deadline (drive options q id phase answers).1 ≡ true
  unfolding drive
  drive-is_late q phase deadline [] h = h
  drive-is_late q phase deadline ((a, t) ∷ answers) h =
      let (q', phase') = advance options q id phase a t in
      drive-is_late q' phase' deadline answers (advance-Nears options q id phase a t deadline h).0

  drive-append :
      (q : PrintQueue) (phase : Phase) (xs ys : List (Answer × ℕ))
      → drive options q id phase (xs ++ ys)
        ≡ (let (q', phase') = drive options q id phase xs in drive options q' id phase' ys)
  unfolding drive
  drive-append q phase [] ys = refl
  drive-append q phase ((a, t) ∷ xs) ys =
      let (q', phase') = advance options q id phase a t in drive-append q' phase' xs ys

  distance-ended :
      (deadline : ℕ) (phase : Phase)
      → is_late deadline phase ≡ true
      → distance phase ≤ 0
      → phase ≡ ended
  distance-ended deadline phase h d = ground arith

  is_late-distance :
      (deadline : ℕ) (phase : Phase) → is_late deadline phase ≡ true → distance phase ≤ 3
  is_late-distance deadline phase h = ground arith

  -- A watch ends: whatever the readings of the queue have been, three answers that come when the
  -- deadline has passed take the run to its end.
  pub watch_ends :
      (q : PrintQueue) (path : Option Text) (wid deadline : ℕ) (w : Watch)
      (before after : List (Answer × ℕ))
      → AllFrom deadline after
      → 3 ≤ length after
      → (drive options q id (watching path wid deadline w) (before ++ after)).1 ≡ ended
  watch_ends q path wid deadline w before after late three =
      let here : is_late deadline (watching path wid deadline w) ≡ true = ground arith in
      let mid = drive options q id (watching path wid deadline w) before in
      let h = drive-is_late q (watching path wid deadline w) deadline before here in
      let (l, near) = drive-Nears mid.0 mid.1 deadline after h late in
      rw (drive-append q (watching path wid deadline w) before after) (
        distance-ended deadline (drive options mid.0 id mid.1 after).1 l
          (omega (arith, is_late-distance deadline mid.1 h)))
