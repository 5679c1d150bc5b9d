-- ===== src/Serve/Tests.antt =====
-- Requests for a file, and the theorems on serveFile at some of them.
use local_cast.Base.{
  ℕ, ◌+◌, ◌≤◌, ◌≡◌, refl, arith, true, false, List, [], ◌∷◌, Option, none, some, Text, codes,
  length,
}
use local_cast.Contract.Permissions.{AccessMode}
use local_cast.Range.{ParsedRange, single}
use local_cast.Range.Format.{between, format, parse-format}
use local_cast.Serve.{
  ServedFile, Request, Response, responded, inline, attachment, weak_etag, if_range_matches, whole,
  part, effective_range, serve_file,
}
use local_cast.Serve.Answers.{serve_file_stream_mode}
use local_cast.Serve.Bytes.{fetch, fetch_all, part_request}

abbrev utc_of : ℕ → Text
utc_of n = codes "Thu, 01 Jan 1970 00:00:00 GMT"

-- `encodeURIComponent` on a name of letters and dots.
abbrev encoded : Text → Text
encoded s = s

abbrev film : ServedFile
film = record { name = codes "film.mp4"; is_dir = false; size = 10; mtime_ms = 0 }

abbrev first_bytes : Request
first_bytes = part_request 0 3

abbrev first_response : Response
first_response = part utc_of encoded film inline false (record { start = 0; end = 3 })

serve-first :
    serve_file utc_of encoded first_bytes film AccessMode.stream inline ≡ responded first_response
unfolding serve_file effective_range local_cast.Base.text_eq
serve-first = rw (parse-format (between 0 3) 10 (omega arith, omega arith)) refl

serve_file_stream_mode_example :
    (inline ≡ inline)
    × (first_response.status ≡ 206)
    × (q : ParsedRange) × (effective_range utc_of encoded first_bytes film ≡ single q)
    × (first_response.body ≡ some (q.start, q.end))
serve_file_stream_mode_example =
    serve_file_stream_mode utc_of encoded first_bytes film inline first_response refl serve-first

abbrev stale_request : Request
stale_request = record {
  method = codes "GET";
  range = some (format (between 4 9));
  if_range = some (codes "W/old");
}

abbrev whole_response : Response
whole_response = whole utc_of encoded film attachment false

serve-stale :
    serve_file utc_of encoded stale_request film AccessMode.full attachment
    ≡ responded whole_response
unfolding serve_file effective_range local_cast.Base.text_eq local_cast.Base.starts_with
serve-stale = rw (parse-format (between 4 9) 10 (omega arith, omega arith)) refl

stale_tag : if_range_matches (codes "W/old") (weak_etag 10 0) (utc_of 0) ≡ false
unfolding if_range_matches local_cast.Base.starts_with local_cast.Base.text_eq weak_etag
stale_tag = refl

abbrev content : List ℕ
content = 1 ∷ 2 ∷ 3 ∷ 4 ∷ 5 ∷ 6 ∷ 7 ∷ 8 ∷ 9 ∷ 10 ∷ []

fetch_all_example : fetch utc_of encoded film AccessMode.stream content 0 (4 ∷ 6 ∷ []) ≡ content
fetch_all_example =
    fetch_all utc_of encoded film AccessMode.stream content (4 ∷ 6 ∷ []) refl (omega arith) refl
      (omega arith, (omega arith, tt)) refl
