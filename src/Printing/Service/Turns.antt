-- ===== src/Printing/Service/Turns.antt =====
-- apps/server/src/modules/print/jobs.ts: the turns of the jobs of a printer.
use mathlib.Core.Path.{subst}
use local_cast.Base.{
  ◌≡◌, ◌≢◌, sym, ◌∙◌, inl, inr, Bool, true, false, List, [], ◌∷◌, ◌++◌, Option, none, some, Text,
  text_eq_iff, arith,
}
use local_cast.Maps.{Text-cases, get, set, get-set_self, get-set_ne}
use local_cast.Printing.Running.{Phase, waiting, ended}
use local_cast.Printing.Service.{is_ended, Run, chain, is_first, behind, is_turn, settled_chain}

abbrev pub has_begun : Phase → Bool
has_begun waiting = false
has_begun ended = false
has_begun phase = true

-- A run that has begun is the first in the chain of its printer.
abbrev pub Turn : Text → List (Text × List Text) → Option Run → Type 0
Turn id chains none = Unit
Turn id chains (some run) =
    has_begun run.phase ≡ true → is_first id (chain run.printer_id chains) ≡ true

pub Turn-set :
    (runs : List (Text × Run)) (chains : List (Text × List Text)) (id : Text) (run : Run)
    → Turn id chains (some run)
    → ((k : Text) → id ≢ k → Turn k chains (get k runs))
    → (k : Text) → Turn k chains (get k (set id run runs))
Turn-set runs chains id run own others k = elim (Text-cases id k) [
  | inl e ↦
      subst (λ j. Turn j chains (get j (set id run runs))) e (rw (get-set_self id run runs) own)
  | inr n ↦ rw (get-set_ne id k run runs n) (others k n)
]

pub is_first_unique :
    (j k : Text) (ids : List Text) → is_first j ids ≡ true → is_first k ids ≡ true → j ≡ k
is_first_unique j k [] a b = cc
is_first_unique j k (i ∷ ids) a b = sym ((text_eq_iff i j).0 a) ∙ (text_eq_iff i k).0 b

pub is_first-append :
    (k id : Text) (ids : List Text) → is_first k ids ≡ true → is_first k (ids ++ (id ∷ [])) ≡ true
is_first-append k id [] h = cc
is_first-append k id (i ∷ ids) h = h

-- A run that may go on is the first of its chain.
pub is_turn-is_first :
    (id : Text) (chains : List (Text × List Text)) (run : Run)
    → Turn id chains (some run)
    → is_turn id (chain run.printer_id chains) run.phase ≡ true
    → is_first id (chain run.printer_id chains) ≡ true
is_turn-is_first id chains run h e = ground arith

-- Other chains are left alone, and of its own chain the job was the first.
pub Turn-behind :
    (id k printer : Text) (chains : List (Text × List Text)) (m : Option Run)
    → id ≢ k
    → is_first id (chain printer chains) ≡ true
    → Turn k chains m
    → Turn k (set printer (behind (chain printer chains)) chains) m
unfolding chain
Turn-behind id k printer chains none n first h = tt
Turn-behind id k printer chains (some run) n first h = λ begun.
    elim (Text-cases printer run.printer_id) [
      | inl e ↦ absurd (
          n (
            is_first_unique id k (chain printer chains) first
              (subst (λ p. is_first k (chain p chains) ≡ true) (sym e) (h begun))))
      | inr d ↦
          rw (get-set_ne printer run.printer_id (behind (chain printer chains)) chains d) (h begun)
    ]

pub Turn-settled_chain :
    (id k printer : Text) (settles : Bool) (chains : List (Text × List Text)) (m : Option Run)
    → id ≢ k
    → is_first id (chain printer chains) ≡ true
    → Turn k chains m
    → Turn k (settled_chain printer settles chains) m
Turn-settled_chain id k printer true chains m n first h =
    Turn-behind id k printer chains m n first h
Turn-settled_chain id k printer false chains m n first h = h

pub Turn-moved :
    (id printer : Text) (phase : Phase) (chains : List (Text × List Text))
    → is_first id (chain printer chains) ≡ true
    → Turn id
        (settled_chain printer (is_ended phase) chains)
        (some (record { printer_id = printer; phase = phase }))
Turn-moved id printer phase chains first begun = ground arith
