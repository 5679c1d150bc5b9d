-- ===== src/Sse/Tests.antt =====
-- Streams cut into chunks, and the theorems on the decoder of sse.ts at some of them.
use local_cast.Base.{
  ℕ, ◌≡◌, refl, arith, false, List, [], ◌∷◌, ◌++◌, Option, none, some, Text, codes,
}
use local_cast.Sse.{SseDecoder, new, push}
use local_cast.Sse.Chunks.{ends_cr, cuts_crlf, and_then, push-append}
use local_cast.Sse.Stream.{
  LineEnd, lf, crlf, NoLineEnd, AllLines, text_of, read_lines, push_cut_crlf,
}

-- No field of these streams is a `retry`.
abbrev no_number : Text → Option ℕ
no_number s = none

abbrev start : SseDecoder
start = new

abbrev first_half : Text
first_half = codes "data: a"

abbrev second_half : Text
second_half = codes "b\n\n"

frame-split :
    (and_then (push no_number start first_half) (λ d. push no_number d second_half)).1
    ≡ record { id = none; event = none; data_text = codes "ab" } ∷ []
unfolding push new local_cast.Base.text_eq
frame-split = refl

uncut : cuts_crlf (start.buffer ++ first_half) second_half ≡ false
unfolding new ends_cr
uncut = refl

push-append_example :
    push no_number start (first_half ++ second_half)
    ≡ and_then (push no_number start first_half) (λ d. push no_number d second_half)
push-append_example = push-append no_number start first_half second_half uncut

abbrev lines : List (Text × LineEnd)
lines = (codes "data: a", crlf) ∷ ([], lf) ∷ []

new-buffer : start.buffer ≡ []
unfolding new
new-buffer = refl

lines-AllLines : AllLines lines
lines-AllLines = ground arith

data_line-NoLineEnd : NoLineEnd (codes "data: a")
data_line-NoLineEnd = ground arith

push_cut_crlf_example :
    let read = read_lines no_number start.fields ((codes "data: a", crlf) ∷ ([], lf) ∷ []) in
    and_then (push no_number start (codes "data: a\r")) (λ d. push no_number d (10 ∷ text_of []))
    ≡ (record { buffer = []; fields = read.0 }, read.1)
push_cut_crlf_example =
    push_cut_crlf no_number start (codes "data: a") [] new-buffer data_line-NoLineEnd tt
