-- ===== src/Printing/Polling/Discovery.antt =====
-- apps/server/src/modules/print/jobs.ts: the search of `discoverJobId` ends, and names a new job.
use mathlib.Core.Path.{subst}
use local_cast.Base.{
  ◌⊎◌, ◌∙◌, ◌<◌, max, ◌≡◌, refl, ◌≤◌, ◌+◌, ℕ, zero, suc, Bool, true, false, List, [], ◌∷◌, Option,
  none, some, inl, inr, arith, length, leb, if◌then◌else◌,
}
use local_cast.Printing.Polling.{
  has_id, fresh_id, Look, looked, discover, discovery_cap, discover_job_id,
}
use local_cast.Printing.Spooler.{SpoolerJob}

-- The job of this id is in a reading.
abbrev pub IsListed : ℕ → List SpoolerJob → Type 0
IsListed id [] = ⊥
IsListed id (job ∷ jobs) = (job.id ≡ id) ⊎ IsListed id jobs

-- One of the looks has shown it.
abbrev pub IsShown : ℕ → List Look → Type 0
IsShown id [] = ⊥
IsShown id (look ∷ looks) = IsListed id look.queue.jobs ⊎ IsShown id looks

-- The submission is over at each of the looks.
abbrev pub IsBehind : List Look → Type 0
IsBehind [] = Unit
IsBehind (look ∷ looks) = (look.submitting ≡ false) × IsBehind looks

if-cases {ℓ} :
    {A : Type ℓ} (b : Bool) (x y z : A)
    → (if b then x else y) ≡ z
    → ((b ≡ true) × (x ≡ z)) ⊎ ((b ≡ false) × (y ≡ z))
if-cases true x y z e = inl (refl, e)
if-cases false x y z e = inr (refl, e)

some-number : (m n : ℕ) → some m ≡ some n → m ≡ n
some-number m n e = cc

fresh_id-IsListed :
    (id : ℕ) (before : List ℕ) (jobs : List SpoolerJob)
    → fresh_id before jobs ≡ some id
    → IsListed id jobs × (has_id id before ≡ false)
unfolding fresh_id
fresh_id-IsListed id before [] e = cc
fresh_id-IsListed id before (job ∷ jobs) e =
    elim (if-cases (has_id job.id before) (fresh_id before jobs) (some job.id) (some id) e) [
      | inl (h, f) ↦ let (listed, new) = fresh_id-IsListed id before jobs f in (inr listed, new)
      | inr (h, f) ↦
          let same = some-number job.id id f in
          (inl same, subst (λ n. has_id n before ≡ false) same h)
    ]

abbrev Ends : Option (Option ℕ) → Type 0
Ends m = (found : Option ℕ) × (m ≡ some found)

looked-Ends :
    (new : Option ℕ) (submitting enough : Bool) (during after : Option (Option ℕ))
    → Ends during
    → Ends after
    → Ends (looked new submitting enough during after)
looked-Ends (some id) s l during after d a = (some id, refl)
looked-Ends none true l during after d a = d
looked-Ends none false true during after d a = (none, refl)
looked-Ends none false false during after d a = a

discover-Ends :
    (n attempts trailing : ℕ) (before : List ℕ) (looks : List Look)
    → n ≤ length looks
    → Ends (discover n attempts trailing before looks)
unfolding discover
discover-Ends zero attempts trailing before looks h = (none, refl)
discover-Ends (suc n) attempts trailing before [] h = absurd (omega arith)
discover-Ends (suc n) attempts trailing before (look ∷ looks) h =
    looked-Ends (fresh_id before look.queue.jobs) look.submitting (leb attempts (trailing + 1)) _ _
      (discover-Ends n attempts trailing before looks (omega arith))
      (discover-Ends n attempts (trailing + 1) before looks (omega arith))

-- Behind the submission, the attempts that are left are enough looks.
looked_behind :
    (new : Option ℕ) (enough : Bool) (during after : Option (Option ℕ))
    → (enough ≡ false → Ends after)
    → Ends (looked new false enough during after)
looked_behind (some id) enough during after a = (some id, refl)
looked_behind none true during after a = (none, refl)
looked_behind none false during after a = a refl

discover_behind :
    (n attempts trailing : ℕ) (before : List ℕ) (looks : List Look)
    → IsBehind looks
    → max attempts 1 ≤ trailing + length looks
    → 1 ≤ length looks
    → Ends (discover n attempts trailing before looks)
unfolding discover
discover_behind zero attempts trailing before looks b h one = (none, refl)
discover_behind (suc n) attempts trailing before [] b h one = absurd (omega arith)
discover_behind (suc n) attempts trailing before (look ∷ looks) (s, b) h one = rw s (
    looked_behind (fresh_id before look.queue.jobs) (leb attempts (trailing + 1)) _ _ (λ e.
      let more : trailing + 1 < attempts = ground arith in
      discover_behind n attempts (trailing + 1) before looks b (omega arith) (omega arith)))

Names : List ℕ → List Look → Option (Option ℕ) → Type 0
Names before looks m = (id : ℕ) → m ≡ some (some id) → IsShown id looks × (has_id id before ≡ false)

some-some : (m n : ℕ) → some (some m) ≡ some (some n) → some m ≡ some n
some-some m n e = cc

looked-Names :
    (before : List ℕ) (look : Look) (looks : List Look) (new : Option ℕ) (submitting enough : Bool)
    (during after : Option (Option ℕ))
    → fresh_id before look.queue.jobs ≡ new
    → Names before looks during
    → Names before looks after
    → Names before (look ∷ looks) (looked new submitting enough during after)
unfolding Names
looked-Names before look looks (some j) s l during after e d a = λ id m.
    let (listed, new) = fresh_id-IsListed id before look.queue.jobs (e ∙ some-some j id m) in
    (inl listed, new)
looked-Names before look looks none true l during after e d a =
    λ id m. let (shown, new) = d id m in (inr shown, new)
looked-Names before look looks none false true during after e d a = λ id m. cc
looked-Names before look looks none false false during after e d a =
    λ id m. let (shown, new) = a id m in (inr shown, new)

discover-Names :
    (n attempts trailing : ℕ) (before : List ℕ) (looks : List Look)
    → Names before looks (discover n attempts trailing before looks)
unfolding discover Names
discover-Names zero attempts trailing before looks = λ id e. cc
discover-Names (suc n) attempts trailing before [] = λ id e. cc
discover-Names (suc n) attempts trailing before (look ∷ looks) =
    looked-Names before look looks (fresh_id before look.queue.jobs) look.submitting
      (leb attempts (trailing + 1)) _ _ refl (discover-Names n attempts trailing before looks)
      (discover-Names n attempts (trailing + 1) before looks)

-- The search for the job of the spooler ends: it has its answer when it has looked forty times as
-- often as it has attempts, however long the submission takes, and once the submission is over it has
-- it as soon as it has looked as often as it has attempts (once, where it has none).
pub discover_job_id_ends :
    (attempts : ℕ) (before : List ℕ) (looks : List Look)
    → (discovery_cap attempts ≤ length looks) ⊎ (IsBehind looks × (max attempts 1 ≤ length looks))
    → (found : Option ℕ) × (discover_job_id attempts before looks ≡ some found)
unfolding discover_job_id
discover_job_id_ends attempts before looks (inl h) =
    discover-Ends (discovery_cap attempts) attempts 0 before looks h
discover_job_id_ends attempts before looks (inr (b, h)) =
    discover_behind (discovery_cap attempts) attempts 0 before looks b (omega arith) (omega arith)

-- What it names is a job of a reading it has looked at, and was not in the queue before the submission.
discover_job_id-IsShown :
    (attempts id : ℕ) (before : List ℕ) (looks : List Look)
    → discover_job_id attempts before looks ≡ some (some id)
    → IsShown id looks × (has_id id before ≡ false)
unfolding discover_job_id Names
discover_job_id-IsShown attempts id before looks e =
    discover-Names (discovery_cap attempts) attempts 0 before looks id e
