-- ===== src/Serve/Answers.antt =====
-- Which requests serveFile of http/range.ts answers, and with what status, length and part.
use local_cast.Base.{
  ℕ, ◌+◌, ◌-◌, ◌≤◌, ◌<◌, ◌≡◌, sym, ◌≢◌, refl, ◌∙◌, inl, inr, Bool, true, false, ◌&&◌, ◌||◌,
  Bool-cases, [], ◌∷◌, Option, none, some, Text, codes, text_eq, arith, if◌then◌else◌, length,
}
use local_cast.Contract.Errors.{not_found, download_not_allowed}
use local_cast.Contract.Permissions.{AccessMode}
use local_cast.Range.{
  RangeParse, ParsedRange, absent, ignore, multiple, unsatisfiable, single, parse_range_header,
}
use local_cast.Range.Parsing.{IsSatisfiable, parse_range_header-IsSatisfiable}
use local_cast.Serve.{
  ServedFile, Request, Disposition, inline, attachment, Response, refused, responded, weak_etag,
  drop_stale, if_range_matches, is_full_body, is_stream, is_attachment, body_of, whole, part,
  respond, effective_range, serve_file, ascii_char, ascii_name,
}

drop_stale-IsSatisfiable :
    (if_range : Option Text) (etag lm : Text) (size : ℕ) (p : RangeParse)
    → IsSatisfiable size p
    → IsSatisfiable size (drop_stale if_range etag lm p)
unfolding drop_stale
drop_stale-IsSatisfiable (some (c ∷ s)) etag lm size (single r) h = ground arith
drop_stale-IsSatisfiable (some (c ∷ s)) etag lm size _ h = tt
drop_stale-IsSatisfiable none etag lm size p h = h
drop_stale-IsSatisfiable (some []) etag lm size p h = h

-- The body of a GET, with its length.
abbrev pub Delivers : ℕ → ℕ → Option (ℕ × ℕ) → Type 0
Delivers size len none = (size ≡ 0) × (len ≡ 0)
Delivers size len (some (a, b)) = (a ≤ b) × (b < size) × (len ≡ b - a + 1)

drop_stale_whole :
    (c : ℕ) (s etag lm : Text) (p : RangeParse) (q : ParsedRange)
    → if_range_matches (c ∷ s) etag lm ≡ false
    → drop_stale (some (c ∷ s)) etag lm p ≢ single q
unfolding drop_stale
drop_stale_whole c s etag lm (single r) q h = λ e. ground arith
drop_stale_whole c s etag lm absent q h = λ e. cc
drop_stale_whole c s etag lm ignore q h = λ e. cc
drop_stale_whole c s etag lm multiple q h = λ e. cc
drop_stale_whole c s etag lm unsatisfiable q h = λ e. cc

module _ (to_utc_string : ℕ → Text) (encode_uri_component : Text → Text) where
  effective_range-IsSatisfiable :
      (req : Request) (file : ServedFile)
      → IsSatisfiable file.size (effective_range to_utc_string encode_uri_component req file)
  unfolding effective_range
  effective_range-IsSatisfiable req file =
      drop_stale-IsSatisfiable req.if_range _ _ file.size _
        (parse_range_header-IsSatisfiable req.range file.size)

  -- The part of a range of the file is streamed.
  part-body :
      (file : ServedFile) (d : Disposition) (p : ParsedRange)
      → p.end < file.size
      → (part to_utc_string encode_uri_component file d false p).body ≡ some (p.start, p.end)
  unfolding part body_of
  part-body file d p h = ground arith

  stream_lem :
      (file : ServedFile) (d : Disposition) (r : Response) (p : RangeParse)
      → IsSatisfiable file.size p
      → (if is_attachment d || is_full_body p
          then refused download_not_allowed []
          else respond to_utc_string encode_uri_component file d false p)
        ≡ responded r
      → (d ≡ inline)
        × (r.status ≡ 206)
        × (q : ParsedRange) × (p ≡ single q)
        × (r.body ≡ some (q.start, q.end))
  unfolding is_full_body respond part
  stream_lem file attachment r p h e = cc
  stream_lem file inline r (single q) h e =
      (refl, ground arith, q, refl, ground (arith, part-body file inline q))
  stream_lem file inline r unsatisfiable h e = cc
  stream_lem file inline r absent h e = cc
  stream_lem file inline r ignore h e = cc
  stream_lem file inline r multiple h e = cc

  pub serve_file-get :
      (req : Request) (file : ServedFile) (mode : AccessMode) (d : Disposition)
      → req.method ≡ codes "GET"
      → file.is_dir ≡ false
      → serve_file to_utc_string encode_uri_component req file mode d ≡ (
          let p = effective_range to_utc_string encode_uri_component req file in
          if is_stream mode && (is_attachment d || is_full_body p)
          then refused download_not_allowed []
          else respond to_utc_string encode_uri_component file d false p)
  unfolding serve_file text_eq
  serve_file-get req file mode d get plain = rw (get, plain) (ground arith)

  serve_file-dir :
      (req : Request) (file : ServedFile) (mode : AccessMode) (d : Disposition)
      → req.method ≡ codes "GET"
      → file.is_dir ≡ true
      → serve_file to_utc_string encode_uri_component req file mode d ≡ refused not_found []
  unfolding serve_file text_eq
  serve_file-dir req file mode d get dir = rw (get, dir) (ground arith)

  -- A folder that is shared for playback answers a GET only where it asks for one range, inline, and
  -- with the bytes of that range: a plain GET, a download, and a request for several ranges are
  -- refused.
  pub serve_file_stream_mode :
      (req : Request) (file : ServedFile) (d : Disposition) (r : Response)
      → req.method ≡ codes "GET"
      → serve_file to_utc_string encode_uri_component req file AccessMode.stream d ≡ responded r
      → (d ≡ inline)
        × (r.status ≡ 206)
        × (q : ParsedRange) × (effective_range to_utc_string encode_uri_component req file
            ≡ single q)
        × (r.body ≡ some (q.start, q.end))
  serve_file_stream_mode req file d r get e = elim (Bool-cases file.is_dir) [
    | inl dir ↦ cc (serve_file-dir req file AccessMode.stream d get dir)
    | inr plain ↦
        stream_lem file d r (effective_range to_utc_string encode_uri_component req file)
          (effective_range-IsSatisfiable req file)
          (sym (serve_file-get req file AccessMode.stream d get plain) ∙ e)
  ]

  respond_lem :
      (file : ServedFile) (d : Disposition) (r : Response) (p : RangeParse)
      → IsSatisfiable file.size p
      → respond to_utc_string encode_uri_component file d false p ≡ responded r
      → Delivers file.size r.content_length r.body
  unfolding respond whole part body_of
  respond_lem file d r (single q) h e = ground arith
  respond_lem file d r unsatisfiable h e = cc
  respond_lem file d r absent h e = ground arith
  respond_lem file d r ignore h e = ground arith
  respond_lem file d r multiple h e = ground arith

  -- The Content-Length of an answered GET is the number of the bytes that follow, whole or part, and
  -- they lie inside the file.
  serve_file-Delivers :
      (req : Request) (file : ServedFile) (mode : AccessMode) (d : Disposition) (r : Response)
      → req.method ≡ codes "GET"
      → serve_file to_utc_string encode_uri_component req file mode d ≡ responded r
      → Delivers file.size r.content_length r.body
  serve_file-Delivers req file mode d r get e = elim (Bool-cases file.is_dir) [
    | inl dir ↦ cc (serve_file-dir req file mode d get dir)
    | inr plain ↦
        let p = effective_range to_utc_string encode_uri_component req file in
        respond_lem file d r p (effective_range-IsSatisfiable req file)
          (ground (arith, serve_file-get req file mode d get plain))
  ]

  respond_of_responded :
      (req : Request) (file : ServedFile) (mode : AccessMode) (d : Disposition) (r : Response)
      → serve_file to_utc_string encode_uri_component req file mode d ≡ responded r
      → respond to_utc_string encode_uri_component file d
          (text_eq req.method (codes "HEAD"))
          (effective_range to_utc_string encode_uri_component req file)
        ≡ responded r
  unfolding serve_file
  respond_of_responded req file mode d r e = ground arith

  whole_lem :
      (file : ServedFile) (d : Disposition) (head : Bool) (r : Response) (p : RangeParse)
      → ((q : ParsedRange) → p ≢ single q)
      → respond to_utc_string encode_uri_component file d head p ≡ responded r
      → r.status ≡ 200
  unfolding respond whole
  whole_lem file d head r (single q) h e = absurd (h q refl)
  whole_lem file d head r unsatisfiable h e = cc
  whole_lem file d head r absent h e = ground arith
  whole_lem file d head r ignore h e = ground arith
  whole_lem file d head r multiple h e = ground arith

  -- A request whose `If-Range` is not empty and names another version of the file is answered, if it is
  -- not refused, with the status 200 of the whole file: the bytes of two versions are not spliced.
  serve_file_stale :
      (req : Request) (file : ServedFile) (mode : AccessMode) (d : Disposition) (c : ℕ) (s : Text)
      (r : Response)
      → req.if_range ≡ some (c ∷ s)
      → if_range_matches (c ∷ s) (weak_etag file.size file.mtime_ms) (to_utc_string file.mtime_ms)
        ≡ false
      → serve_file to_utc_string encode_uri_component req file mode d ≡ responded r
      → r.status ≡ 200
  unfolding serve_file effective_range
  serve_file_stale req file mode d c s r given stale e =
      let p = effective_range to_utc_string encode_uri_component req file in
      whole_lem file d (text_eq req.method (codes "HEAD")) r p
        (λ q single_q.
          drop_stale_whole c s _ _ (parse_range_header req.range file.size) q stale
            (rw given at single_q))
        (respond_of_responded req file mode d r e)

-- A header value that cannot end its quotes or its line.
abbrev pub IsQuotable : Text → Type 0
IsQuotable [] = Unit
IsQuotable (c ∷ s) = (0x20 ≤ c) × (c ≤ 0x7e) × (c ≢ b'"') × (c ≢ 92) × IsQuotable s

-- The quoted file name of a Content-Disposition is printable ASCII with no quote and no backslash,
-- whatever the file is called, and as long as the name.
ascii_name-IsQuotable :
    (name : Text) → IsQuotable (ascii_name name) × (length (ascii_name name) ≡ length name)
unfolding ascii_name ascii_char
ascii_name-IsQuotable [] = (tt, refl)
ascii_name-IsQuotable (c ∷ s) = ground (arith, ascii_name-IsQuotable s)
