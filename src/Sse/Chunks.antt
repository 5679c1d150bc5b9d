-- ===== src/Sse/Chunks.antt =====
-- How the chunks of a stream bear on what the decoder of sse.ts returns.
use mathlib.Core.List.{append_assoc}
use local_cast.Base.{
  ℕ, zero, suc, ◌<◌, ◌≡◌, ◌≢◌, refl, sym, ◌∙◌, ◌⊎◌, inl, inr, Bool, false, ◌&&◌, Option-cases, List,
  [], ◌∷◌, ◌++◌, Option, none, some, Text, arith, length, ◌==◌,
}
use local_cast.Sse.{
  SseFrame, Fields, SseDecoder, after_cr, next_line, put_frame, line_step, drain, push,
}

-- The text ends in a CR.
unfoldable pub ends_cr : Text → Bool
ends_cr [] = false
ends_cr (c ∷ []) = c == 13
ends_cr (c ∷ d ∷ s) = ends_cr (d ∷ s)

unfoldable pub starts_lf : Text → Bool
starts_lf [] = false
starts_lf (c ∷ s) = c == 10

-- A CRLF is cut between the two texts.
abbrev pub cuts_crlf : Text → Text → Bool
cuts_crlf s t = ends_cr s && starts_lf t

after_cr-append : (s t : Text) → s ≢ [] → after_cr (s ++ t) ≡ after_cr s ++ t
unfolding after_cr
after_cr-append [] t h = absurd (h refl)
after_cr-append (c ∷ s) t h = ground arith

pub after_cr_of_no_lf : (t : Text) → starts_lf t ≡ false → after_cr t ≡ t
unfolding after_cr starts_lf
after_cr_of_no_lf [] h = refl
after_cr_of_no_lf (c ∷ t) h = ground arith

-- The first line of a text stays what it is when more text comes, unless a CRLF is cut.
pub next_line-append :
    (s t line rest : Text)
    → cuts_crlf s t ≡ false
    → next_line s ≡ some (line, rest)
    → next_line (s ++ t) ≡ some (line, rest ++ t)
unfolding next_line ends_cr
next_line-append [] t line rest k e = cc
next_line-append (c ∷ []) t line rest k e = ground (arith, after_cr_of_no_lf t)
next_line-append (c ∷ d ∷ s) t line rest k e = elim (Option-cases (next_line (d ∷ s))) [
  | inl missed ↦ ground (arith, after_cr-append (d ∷ s) t (λ n. cc))
  | inr ((l, r), found) ↦
      ground (arith, after_cr-append (d ∷ s) t (λ n. cc), next_line-append (d ∷ s) t l r k found)
]

-- A line end is taken off, so that the rest is shorter, and it ends as the text did.
pub next_line-shorter :
    (s line rest : Text) → next_line s ≡ some (line, rest) → length rest < length s
unfolding next_line after_cr
next_line-shorter [] line rest e = cc
next_line-shorter (c ∷ []) line rest e = ground arith
next_line-shorter (c ∷ d ∷ s) line rest e = elim (Option-cases (next_line (d ∷ s))) [
  | inl missed ↦ ground arith
  | inr ((l, r), found) ↦ ground (arith, next_line-shorter (d ∷ s) l r found)
]

-- What ends a text in a CR ends every text that it closes, but the empty one.
ends_cr-tail : (c : ℕ) (s : Text) → (ends_cr s ≡ false) ⊎ (ends_cr s ≡ ends_cr (c ∷ s))
unfolding ends_cr
ends_cr-tail c [] = inl refl
ends_cr-tail c (d ∷ s) = inr refl

after_cr-ends : (s : Text) → (ends_cr (after_cr s) ≡ false) ⊎ (ends_cr (after_cr s) ≡ ends_cr s)
unfolding after_cr
after_cr-ends [] = inr refl
after_cr-ends (c ∷ s) = ground (arith, ends_cr-tail c s)

ends_nil : ends_cr [] ≡ false
unfolding ends_cr
ends_nil = refl

cons_ends : (c : ℕ) (s : Text) → (s ≡ []) ⊎ (ends_cr (c ∷ s) ≡ ends_cr s)
unfolding ends_cr
cons_ends c [] = inl refl
cons_ends c (d ∷ s) = inr refl

next_line-ends :
    (s line rest : Text)
    → next_line s ≡ some (line, rest)
    → (ends_cr rest ≡ false) ⊎ (ends_cr rest ≡ ends_cr s)
unfolding next_line
next_line-ends [] line rest e = cc
next_line-ends (c ∷ s) line rest e = elim (Option-cases (next_line s)) [
  | inl missed ↦ ground (
    arith,
    after_cr-ends s,
    ends_cr-tail c s,
    ends_cr-tail c (after_cr s),
    ends_nil,
    cons_ends c s,
  )
  | inr ((l, r), found) ↦ ground (
    arith,
    after_cr-ends s,
    ends_cr-tail c s,
    next_line-ends s l r found,
    ends_nil,
    cons_ends c s,
  )
]

next_line-cuts :
    (s t line rest : Text)
    → cuts_crlf s t ≡ false
    → next_line s ≡ some (line, rest)
    → cuts_crlf rest t ≡ false
next_line-cuts s t line rest k e = ground (arith, next_line-ends s line rest e)

-- One result behind another: the frames add up.
abbrev pub and_then :
    SseDecoder × List SseFrame
    → (SseDecoder → SseDecoder × List SseFrame)
    → SseDecoder × List SseFrame
and_then (d, frames) next = ((next d).0, frames ++ (next d).1)

put_frame-append :
    (frame : Option SseFrame) (xs ys : List SseFrame)
    → put_frame frame (xs ++ ys) ≡ put_frame frame xs ++ ys
put_frame-append none xs ys = refl
put_frame-append (some frame) xs ys = refl

module _ (to_natural : Text → Option ℕ) where
  -- What a round of the loop makes of a line.
  abbrev pub after_line : ℕ → Fields → Text → Text → SseDecoder × List SseFrame
  after_line fuel f line rest =
      let (f', frame) = line_step to_natural f line in
      let (d, frames) = drain to_natural fuel f' rest in (d, put_frame frame frames)

  pub drain-none :
      (fuel : ℕ) (f : Fields) (b : Text)
      → next_line b ≡ none
      → drain to_natural fuel f b ≡ (record { buffer = b; fields = f }, [])
  unfolding drain
  drain-none zero f b e = refl
  drain-none (suc fuel) f b e = rw (e, drain)

  pub drain-some :
      (fuel : ℕ) (f : Fields) (b line rest : Text)
      → next_line b ≡ some (line, rest)
      → drain to_natural (suc fuel) f b ≡ after_line fuel f line rest
  unfolding drain
  drain-some fuel f b line rest e = rw (e, drain)

  -- Two fuels that are both more than the length of the buffer give the same.
  pub drain_fuel :
      (m n : ℕ) (f : Fields) (b : Text)
      → length b < m
      → length b < n
      → drain to_natural m f b ≡ drain to_natural n f b
  drain_fuel zero n f b h k = elim h [ ]
  drain_fuel (suc m) zero f b h k = elim k [ ]
  drain_fuel (suc m) (suc n) f b h k = elim (Option-cases (next_line b)) [
    | inl e ↦ drain-none (suc m) f b e ∙ sym (drain-none (suc n) f b e)
    | inr ((line, rest), e) ↦
        let shorter = next_line-shorter b line rest e in
        let same =
          drain_fuel m n (line_step to_natural f line).0 rest (omega arith) (omega arith) in
        drain-some m f b line rest e ∙ rw same (sym (drain-some n f b line rest e))
  ]

  drain-append :
      (m n : ℕ) (f : Fields) (s t : Text)
      → cuts_crlf s t ≡ false
      → length s < m
      → length (s ++ t) < n
      → drain to_natural n f (s ++ t) ≡ and_then (drain to_natural m f s) (λ d. push to_natural d t)
  unfolding push
  drain-append zero n f s t k h h' = elim h [ ]
  drain-append (suc m) zero f s t k h h' = elim h' [ ]
  drain-append (suc m) (suc n) f s t k h h' = elim (Option-cases (next_line s)) [
    | inl e ↦
        rw (drain-none (suc m) f s e)
          (drain_fuel (suc n) (suc (length (s ++ t))) f (s ++ t) h' (omega arith))
    | inr ((line, rest), e) ↦
        let shorter = next_line-shorter s line rest e in
        let longer = next_line-append s t line rest k e in
        let shorter' = next_line-shorter (s ++ t) line (rest ++ t) longer in
        let f' = (line_step to_natural f line).0 in
        let ih =
          drain-append m n f' rest t (next_line-cuts s t line rest k e) (omega arith)
            (omega arith) in
        rw
          (
            drain-some m f s line rest e,
            drain-some n f (s ++ t) line (rest ++ t) longer,
            ih,
            put_frame-append (line_step to_natural f line).1,
          )
          refl
  ]

  -- Feeding two chunks one after the other gives the frames, and leaves the decoder, that the two in
  -- one piece do, wherever the text is cut, unless a CRLF is cut.
  pub push-append :
      (d : SseDecoder) (a b : Text)
      → cuts_crlf (d.buffer ++ a) b ≡ false
      → push to_natural d (a ++ b) ≡ and_then (push to_natural d a) (λ d'. push to_natural d' b)
  unfolding push
  push-append d a b k = rw (← append_assoc d.buffer a b) (
      drain-append (suc (length (d.buffer ++ a))) (suc (length ((d.buffer ++ a) ++ b))) d.fields
        (d.buffer ++ a) b k (omega arith) (omega arith))

  drain-rest :
      (fuel : ℕ) (f : Fields) (b : Text)
      → length b < fuel
      → next_line (drain to_natural fuel f b).0.buffer ≡ none
  drain-rest zero f b h = elim h [ ]
  drain-rest (suc fuel) f b h = elim (Option-cases (next_line b)) [
    | inl e ↦ rw (drain-none (suc fuel) f b e) e
    | inr ((line, rest), e) ↦
        let shorter = next_line-shorter b line rest e in
        rw (drain-some fuel f b line rest e)
          (drain-rest fuel (line_step to_natural f line).0 rest (omega arith))
  ]

  -- After each chunk the buffer holds no complete line: the loop never stops early.
  push-rest : (d : SseDecoder) (chunk : Text) → next_line (push to_natural d chunk).0.buffer ≡ none
  unfolding push
  push-rest d chunk =
      drain-rest (suc (length (d.buffer ++ chunk))) d.fields (d.buffer ++ chunk) (omega arith)
