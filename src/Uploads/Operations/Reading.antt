-- ===== src/Uploads/Operations/Reading.antt =====
-- `append` in modules/uploads/sessions.ts up to the end of the body: the checks, the loop and the
-- `finally` block.
use local_cast.Base.{
  ℕ, ◌+◌, ◌≤◌, ◌≡◌, refl, ap, ◌∙◌, Bool, true, false, Bool-cases, inl, inr, List, [], ◌∷◌, ◌++◌,
  Option, some, Text, text_eq_refl, arith, ltb, ◌==◌, length, length-append, ok,
}
use local_cast.Maps.{get, set, get-set_self}
use local_cast.Uploads.{
  active, is_active, UploadRow, Service, Context, Received, owned_by, require, receive, change_row,
  persist_received,
}
use local_cast.Uploads.Operations.{too_long, check_append, kept, appended, append_body, append}
use local_cast.Uploads.Operations.Isolation.{receive-disk}
use local_cast.Uploads.Receiving.{accepted, body_length, receive_lem}

pub get-change_row :
    (f : UploadRow → UploadRow) (id : Text) (row : UploadRow) (rows : List (Text × UploadRow))
    → get id rows ≡ some row
    → get id (change_row f id rows) ≡ some (f row)
unfolding change_row
get-change_row f id row rows h = rw (h, change_row) (get-set_self id (f row) rows)

-- What `finally` leaves: the file as it was written, and the row with the bytes it has.
pub kept_lem :
    (row : UploadRow) (r : Received) (t : ℕ)
    → get row.id r.service.rows ≡ some row
    → ((kept row r t).disk ≡ set row.temp_path r.content r.service.disk)
      × ((u : ℕ) × (get row.id (kept row r t).rows
            ≡ some (record row { received_bytes = r.received; updated_at = u })))
unfolding kept persist_received
kept_lem row r t h = elim (Bool-cases (r.received == row.received_bytes)) [
  | inl same ↦
      let e : r.received ≡ row.received_bytes = ground arith in
      rw (same, kept) (refl, (row.updated_at, h ∙ rw e refl))
  | inr grown ↦ rw (grown, kept) (refl, (t, get-change_row _ row.id row r.service.rows h))
]

pub require_own :
    (s : Service) (id device : Text) (row : UploadRow)
    → get id s.rows ≡ some row
    → row.device_id ≡ device
    → require s id device ≡ ok row
unfolding require owned_by
require_own s id device row h own = rw (h, own, text_eq_refl device) refl

-- A body as it is received, from the state of the session on.
abbrev pub received_of : Service → UploadRow → List ℕ → List (ℕ × List ℕ) → Received
received_of s row content body =
    receive row
      (record { service = s; content = content; received = row.received_bytes; overflow = false })
      body

check_append_ok :
    (row : UploadRow) (declared : Option ℕ)
    → row.status ≡ active
    → too_long row row.received_bytes declared ≡ false
    → check_append row row.received_bytes declared ≡ ok tt
unfolding check_append
check_append_ok row declared live fits =
    let here : (row.received_bytes == row.received_bytes) ≡ true = ground arith in
    rw (ap is_active live, here, fits) refl

append_body_lem :
    (ctx : Context) (s : Service) (row : UploadRow) (device : Text) (content : List ℕ)
    (body : List (ℕ × List ℕ)) (broken : Bool) (t : ℕ)
    → get row.temp_path s.disk ≡ some content
    → append_body ctx s row device body broken t
      ≡ appended ctx
          (kept row (received_of s row content body) t)
          row
          device
          (received_of s row content body)
          broken
          t
unfolding append_body appended
append_body_lem ctx s row device content body broken t file = rw (file, append_body) refl

pub append_open :
    (ctx : Context) (s : Service) (row : UploadRow) (content : List ℕ) (body : List (ℕ × List ℕ))
    (broken : Bool) (declared : Option ℕ) (t : ℕ)
    → get row.id s.rows ≡ some row
    → row.status ≡ active
    → too_long row row.received_bytes declared ≡ false
    → get row.temp_path s.disk ≡ some content
    → append ctx s row.id row.device_id row.received_bytes body broken declared t
      ≡ appended ctx
          (kept row (received_of s row content body) t)
          row
          row.device_id
          (received_of s row content body)
          broken
          t
unfolding append appended
append_open ctx s row content body broken declared t h live fits file =
    rw
      (
        require_own s row.id row.device_id row h refl,
        check_append_ok row declared live fits,
        append,
      )
      (append_body_lem ctx s row row.device_id content body broken t file)

-- The bytes of a body, whole.
abbrev pub body_bytes : List (ℕ × List ℕ) → List ℕ
body_bytes [] = []
body_bytes ((t, bytes) ∷ cs) = bytes ++ body_bytes cs

pub length-body_bytes : (cs : List (ℕ × List ℕ)) → length (body_bytes cs) ≡ body_length cs
length-body_bytes [] = refl
length-body_bytes ((t, bytes) ∷ cs) =
    omega (arith, length-append bytes (body_bytes cs), length-body_bytes cs)

pub accepted_all :
    (total received : ℕ) (cs : List (ℕ × List ℕ))
    → received + body_length cs ≤ total
    → accepted total received cs ≡ body_bytes cs
accepted_all total received [] h = refl
accepted_all total received ((t, bytes) ∷ cs) h =
    let fits : ltb total (received + length bytes) ≡ false = ground arith in
    rw (fits, accepted_all total (received + length bytes) cs (omega arith)) refl

-- What is in the state behind a body that does not finish the upload.
abbrev pub Progressed : Service → UploadRow → List ℕ → List (ℕ × List ℕ) → Service → Type 0
Progressed s row content body s' =
    let bytes = accepted row.total_bytes row.received_bytes body in
    (get row.temp_path s'.disk ≡ some (content ++ bytes))
    × ((u : ℕ) × (get row.id s'.rows
          ≡ some
              (record row { received_bytes = row.received_bytes + length bytes; updated_at = u })))

pub kept-Progressed :
    (s : Service) (row : UploadRow) (content : List ℕ) (body : List (ℕ × List ℕ)) (t : ℕ)
    → get row.id s.rows ≡ some row
    → length content ≡ row.received_bytes
    → row.received_bytes ≤ row.total_bytes
    → Progressed s row content body (kept row (received_of s row content body) t)
kept-Progressed s row content body t h len fits =
    let start : Received = record {
      service = s;
      content = content;
      received = row.received_bytes;
      overflow = false;
    } in
    let r = received_of s row content body in
    let (grown, count, _, _) = receive_lem row start body refl len fits in
    let (disk, rows) = receive-disk row start body in
    let (file, kept_row) = kept_lem row r t (ap (get row.id) rows ∙ h) in
    let (u, row') = kept_row in
    let n : r.received
        ≡ row.received_bytes + length (accepted row.total_bytes row.received_bytes body) =
      omega (
        arith,
        count,
        ap length grown,
        length-append content (accepted row.total_bytes row.received_bytes body),
      ) in
    (
      ap (get row.temp_path) file
          ∙ get-set_self row.temp_path r.content r.service.disk
          ∙ ap some grown,
      (u, row' ∙ ap (λ k. some (record row { received_bytes = k; updated_at = u })) n),
    )
