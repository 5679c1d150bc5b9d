-- ===== src/Sse/Stream.antt =====
-- The decoder of sse.ts as a reader of lines.
use local_cast.Base.{
  none, ℕ, zero, suc, ◌<◌, ◌≡◌, ◌≢◌, refl, ◌∙◌, List, [], ◌∷◌, ◌++◌, Option, some, Text, arith,
  length,
}
use local_cast.Sse.{
  SseFrame, Fields, SseDecoder, next_line, put_frame, line_step, drain, push, after_cr,
}
use local_cast.Sse.Chunks.{and_then, drain-none, drain-some, next_line-shorter}

abbrev pub NoLineEnd : Text → Type 0
NoLineEnd [] = Unit
NoLineEnd (c ∷ s) = (c ≢ 10) × (c ≢ 13) × NoLineEnd s

pub data LineEnd : Type 0 where
  lf crlf : LineEnd

abbrev pub ended : LineEnd → Text → Text
ended lf rest = 10 ∷ rest
ended crlf rest = 13 ∷ 10 ∷ rest

abbrev pub AllLines : List (Text × LineEnd) → Type 0
AllLines [] = Unit
AllLines ((line, e) ∷ ls) = NoLineEnd line × AllLines ls

-- The text of these lines.
unfoldable pub text_of : List (Text × LineEnd) → Text
text_of [] = []
text_of ((line, e) ∷ ls) = line ++ ended e (text_of ls)

next_line-ended :
    (line rest : Text) (e : LineEnd)
    → NoLineEnd line
    → next_line (line ++ ended e rest) ≡ some (line, rest)
unfolding next_line after_cr
next_line-ended [] rest lf a = refl
next_line-ended [] rest crlf a = refl
next_line-ended (c ∷ s) rest e (n, r, a) = ground (arith, next_line-ended s rest e a)

next_line-open_cr : (line : Text) → NoLineEnd line → next_line (line ++ (13 ∷ [])) ≡ some (line, [])
unfolding next_line after_cr
next_line-open_cr [] a = refl
next_line-open_cr (c ∷ s) (n, r, a) = ground (arith, next_line-open_cr s a)

next_line-nil : next_line [] ≡ none
unfolding next_line
next_line-nil = refl

put_frame-nil :
    (frame : Option SseFrame) (xs : List SseFrame) → put_frame frame [] ++ xs ≡ put_frame frame xs
put_frame-nil none xs = refl
put_frame-nil (some frame) xs = refl

module _ (to_natural : Text → Option ℕ) where
  -- The lines one after the other, with no text and no chunks.
  unfoldable pub read_lines : Fields → List (Text × LineEnd) → Fields × List SseFrame
  read_lines f [] = (f, [])
  read_lines f ((line, e) ∷ ls) =
      let (f', frame) = line_step to_natural f line in
      let (f'', frames) = read_lines f' ls in (f'', put_frame frame frames)

  drain-text_of :
      (fuel : ℕ) (f : Fields) (ls : List (Text × LineEnd))
      → AllLines ls
      → length (text_of ls) < fuel
      → drain to_natural fuel f (text_of ls)
        ≡ (record { buffer = []; fields = (read_lines f ls).0 }, (read_lines f ls).1)
  unfolding text_of read_lines next_line
  drain-text_of zero f ls a h = elim h [ ]
  drain-text_of (suc fuel) f [] a h = drain-none to_natural (suc fuel) f [] refl
  drain-text_of (suc fuel) f ((line, e) ∷ ls) (b, a) h =
      let found = next_line-ended line (text_of ls) e b in
      let shorter = next_line-shorter (line ++ ended e (text_of ls)) line (text_of ls) found in
      let rest = drain-text_of fuel (line_step to_natural f line).0 ls a (omega arith) in
      drain-some to_natural fuel f (line ++ ended e (text_of ls)) line (text_of ls) found
      ∙ rw rest refl

  -- A chunk that is made of whole lines, each ended by LF or CRLF, is read line by line, and leaves
  -- nothing in the buffer.
  pub push-text_of :
      (d : SseDecoder) (ls : List (Text × LineEnd))
      → d.buffer ≡ []
      → AllLines ls
      → push to_natural d (text_of ls)
        ≡ (record { buffer = []; fields = (read_lines d.fields ls).0 }, (read_lines d.fields ls).1)
  unfolding push
  push-text_of d ls e a =
      rw e (drain-text_of (suc (length (text_of ls))) d.fields ls a (omega arith))

  push_open_cr :
      (d : SseDecoder) (line : Text)
      → d.buffer ≡ []
      → NoLineEnd line
      → push to_natural d (line ++ (13 ∷ [])) ≡ (
        record { buffer = []; fields = (line_step to_natural d.fields line).0 },
        put_frame (line_step to_natural d.fields line).1 [],
      )
  unfolding push
  push_open_cr d line e a =
      let text = line ++ (13 ∷ []) in
      let f' = (line_step to_natural d.fields line).0 in
      rw e (
        drain-some to_natural (length text) d.fields text line [] (next_line-open_cr line a)
        ∙ rw (drain-none to_natural (length text) f' [] next_line-nil) refl)

  -- A CRLF that is cut between two chunks is read as two line ends: the line that it ends is
  -- followed by an empty one, which dispatches the event that has come so far.
  pub push_cut_crlf :
      (d : SseDecoder) (line : Text) (ls : List (Text × LineEnd))
      → d.buffer ≡ []
      → NoLineEnd line
      → AllLines ls
      → let read = read_lines d.fields ((line, crlf) ∷ ([], lf) ∷ ls) in
        and_then
          (push to_natural d (line ++ (13 ∷ [])))
          (λ d'. push to_natural d' (10 ∷ text_of ls))
        ≡ (record { buffer = []; fields = read.0 }, read.1)
  unfolding text_of read_lines
  push_cut_crlf d line ls e a b =
      rw
        (
          push_open_cr d line e a,
          push-text_of (record { buffer = []; fields = (line_step to_natural d.fields line).0 })
              (([], lf) ∷ ls) refl (tt, b),
          put_frame-nil (line_step to_natural d.fields line).1,
        )
        refl
