-- ===== src/Serve.antt =====
-- apps/server/src/http/range.ts: serveFile, the answer to a request for a file.
--
-- The model returns the response instead of writing it: the status, the headers that depend on the
-- request, and the part of the file that is streamed. `Date.prototype.toUTCString` and
-- `encodeURIComponent` are parameters. Content-Type and the constant headers are left out.
pub mod Answers
pub mod Bytes
mod Tests
use local_cast.Base.{
  ℕ, ◌+◌, ◌-◌, Bool, true, false, not, ◌&&◌, ◌||◌, List, [], ◌∷◌, ◌++◌, Option, none, some, Text,
  codes, text_eq, starts_with, leb, ◌==◌, if◌then◌else◌, take, drop,
}
use local_cast.Contract.Errors.{
  ErrorCode, bad_request, not_found, download_not_allowed, range_not_satisfiable,
}
use local_cast.Contract.Permissions.{AccessMode}
use local_cast.Js.{trim, decimal}
use local_cast.Range.{
  ParsedRange, RangeParse, absent, ignore, multiple, unsatisfiable, single, parse_range_header,
}

-- What `resolve` has found on the disk; `mtime_ms` is the floor of the file's time.
pub record ServedFile : Type 0 where
  pub name : Text
  pub is_dir : Bool
  pub size : ℕ
  pub mtime_ms : ℕ

pub record Request : Type 0 where
  pub method : Text
  pub range : Option Text
  pub if_range : Option Text

pub data Disposition : Type 0 where
  inline attachment : Disposition

pub record Response : Type 0 where
  pub status : ℕ
  pub etag : Text
  pub last_modified : Text
  pub content_disposition : Text
  pub content_range : Option Text
  pub content_length : ℕ
  -- the first and the last byte of the file that are streamed
  pub body : Option (ℕ × ℕ)

-- An `ApiException`, with the headers that were set for it, or a response.
pub data Outcome : Type 0 where
  refused : ErrorCode → List (Text × Text) → Outcome
  responded : Response → Outcome

pub weak_etag : ℕ → ℕ → Text
weak_etag size mtime_ms =
    codes "W/" ++ (b'"' ∷ (decimal size ++ (b'-' ∷ (decimal mtime_ms ++ (b'"' ∷ [])))))

pub if_range_matches : Text → Text → Text → Bool
unfolding trim
if_range_matches header etag last_modified =
    let value = trim header in
    if starts_with value (codes "W/") || starts_with value (b'"' ∷ [])
    then text_eq value etag
    else text_eq value last_modified

-- A range whose `If-Range` names another version of the file is dropped.
drop_stale : Option Text → Text → Text → RangeParse → RangeParse
unfolding if_range_matches
drop_stale (some (c ∷ s)) etag last_modified (single r) =
    if if_range_matches (c ∷ s) etag last_modified then single r else absent
drop_stale if_range etag last_modified parsed = parsed

pub is_full_body : RangeParse → Bool
is_full_body absent = true
is_full_body ignore = true
is_full_body multiple = true
is_full_body unsatisfiable = false
is_full_body (single r) = false

-- `replace(/[^\x20-\x7e]/g, '_').replace(/["\\]/g, '_')`
ascii_char : ℕ → ℕ
ascii_char c = if leb 0x20 c && leb c 0x7e && not (c == b'"') && not (c == 92) then c else b'_'

pub ascii_name : Text → Text
unfolding ascii_char
ascii_name [] = []
ascii_name (c ∷ s) = ascii_char c ∷ ascii_name s

abbrev disposition_word : Disposition → Text
disposition_word inline = codes "inline"
disposition_word attachment = codes "attachment"

abbrev pub is_attachment : Disposition → Bool
is_attachment inline = false
is_attachment attachment = true

abbrev pub is_stream : AccessMode → Bool
is_stream AccessMode.full = false
is_stream AccessMode.stream = true
is_stream AccessMode.none = false

content_range : ℕ → ℕ → ℕ → Text
content_range start end size =
    codes "bytes " ++ (decimal start ++ (b'-' ∷ (decimal end ++ (b'/' ∷ decimal size))))

-- An empty file and a HEAD have no body.
body_of : Bool → ℕ → ℕ → ℕ → Option (ℕ × ℕ)
body_of head size start end = if head then none else if size == 0 then none else some (start, end)

module _ (to_utc_string : ℕ → Text) (encode_uri_component : Text → Text) where
  disposition_header : Disposition → Text → Text
  unfolding ascii_name
  disposition_header d name =
      disposition_word d
      ++ (codes "; filename="
          ++ (b'"'
              ∷ (ascii_name name
                  ++ (b'"' ∷ (codes "; filename*=UTF-8''" ++ encode_uri_component name)))))

  whole : ServedFile → Disposition → Bool → Response
  unfolding weak_etag disposition_header body_of
  whole file d head = record {
    status = 200;
    etag = weak_etag file.size file.mtime_ms;
    last_modified = to_utc_string file.mtime_ms;
    content_disposition = disposition_header d file.name;
    content_range = none;
    content_length = file.size;
    body = body_of head file.size 0 (if file.size == 0 then 0 else file.size - 1);
  }

  part : ServedFile → Disposition → Bool → ParsedRange → Response
  unfolding weak_etag disposition_header content_range body_of
  part file d head r = record {
    status = 206;
    etag = weak_etag file.size file.mtime_ms;
    last_modified = to_utc_string file.mtime_ms;
    content_disposition = disposition_header d file.name;
    content_range = some (content_range r.start r.end file.size);
    content_length = r.end - r.start + 1;
    body = body_of head file.size r.start r.end;
  }

  pub respond : ServedFile → Disposition → Bool → RangeParse → Outcome
  unfolding whole part
  respond file d head unsatisfiable =
      refused range_not_satisfiable
        ((codes "Content-Range", codes "bytes */" ++ decimal file.size) ∷ [])
  respond file d head (single r) = responded (part file d head r)
  respond file d head absent = responded (whole file d head)
  respond file d head ignore = responded (whole file d head)
  respond file d head multiple = responded (whole file d head)

  -- The range that the request comes down to.
  pub effective_range : Request → ServedFile → RangeParse
  unfolding drop_stale weak_etag
  effective_range req file =
      drop_stale req.if_range (weak_etag file.size file.mtime_ms) (to_utc_string file.mtime_ms)
        (parse_range_header req.range file.size)

  pub serve_file : Request → ServedFile → AccessMode → Disposition → Outcome
  unfolding effective_range is_full_body respond
  serve_file req file mode d =
      let head = text_eq req.method (codes "HEAD") in
      let parsed = effective_range req file in
      if not (text_eq req.method (codes "GET")) && not head
      then refused bad_request ((codes "Allow", codes "GET, HEAD") ∷ [])
      else if file.is_dir
      then refused not_found []
      else if is_stream mode && not head && (is_attachment d || is_full_body parsed)
      then refused download_not_allowed []
      else respond file d head parsed

-- What `createReadStream` delivers from `start` to `end`, both included.
abbrev pub read_slice : List ℕ → ℕ × ℕ → List ℕ
read_slice content (start, end) = take (end - start + 1) (drop start content)

-- The bytes that a response carries of a file with this content.
pub sent_bytes : List ℕ → Outcome → List ℕ
sent_bytes content (refused code headers) = []
sent_bytes content (responded r) = elim r.body [ none ↦ [] | some slice ↦ read_slice content slice ]
