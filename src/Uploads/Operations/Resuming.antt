-- ===== src/Uploads/Operations/Resuming.antt =====
-- `append` in modules/uploads/sessions.ts: what is on the disk and in the table behind a chunk that
-- does not finish the upload, and what is answered.
use local_cast.Base.{
  ℕ, ◌+◌, ◌≤◌, ◌<◌, ◌≡◌, ◌≢◌, refl, ap, ◌∙◌, Bool, true, false, Bool-cases, inl, inr, ◌⊎◌, List,
  Option, some, Text, arith, ltb, leb, ◌==◌, if◌then◌else◌, length, length-append,
}
use local_cast.Contract.Errors.{progress, upload_too_large, upload_offset_mismatch}
use local_cast.Maps.{get}
use local_cast.Uploads.{
  active, UploadRow, Service, Reply, refused, done, failed, Context, Received, publish, to_dto,
}
use local_cast.Uploads.Operations.{too_long, check_append, kept, appended, append}
use local_cast.Uploads.Receiving.{accepted, body_length, receive_lem}
use local_cast.Uploads.Operations.Reading.{
  require_own, append_open, received_of, kept-Progressed, Progressed, accepted_all,
  length-body_bytes,
}

-- A chunk for any other place than the one where an active upload of the device stands is refused with that place, and
-- nothing changes.
append_mismatch :
    (ctx : Context) (s : Service) (id : Text) (row : UploadRow) (offset : ℕ)
    (body : List (ℕ × List ℕ)) (broken : Bool) (declared : Option ℕ) (t : ℕ)
    → get id s.rows ≡ some row
    → row.status ≡ active
    → offset ≢ row.received_bytes
    → append ctx s id row.device_id offset body broken declared t ≡ (
      s,
      refused (record {
        code = upload_offset_mismatch;
        detail = progress row.received_bytes row.total_bytes;
      }),
    )
unfolding append check_append
append_mismatch ctx s id row offset body broken declared t h live off =
    let wrong : (offset == row.received_bytes) ≡ false = ground arith in
    rw (require_own s id row.device_id row h refl, append, live, wrong) refl

-- What `append` answers when the upload is not finished.
abbrev pub answer : UploadRow → List (ℕ × List ℕ) → Bool → Reply
answer row body broken =
    if broken
    then failed
    else if ltb row.total_bytes (row.received_bytes + body_length body)
    then refused (record {
      code = upload_too_large;
      detail =
          progress (row.received_bytes + length (accepted row.total_bytes row.received_bytes body))
            row.total_bytes;
    })
    else done (to_dto (record row { received_bytes = row.received_bytes + body_length body }))

appended_unfinished :
    (ctx : Context) (s : Service) (row row' : UploadRow) (r : Received) (t : ℕ)
    → get row.id s.rows ≡ some row'
    → row'.device_id ≡ row.device_id
    → r.overflow ≡ false
    → row'.received_bytes < row'.total_bytes
    → appended ctx s row row.device_id r false t ≡ (publish s row' t, done (to_dto row'))
unfolding appended
appended_unfinished ctx s row row' r t h own fits short =
    let more : leb row'.total_bytes row'.received_bytes ≡ false = ground arith in
    rw (fits, require_own s row.id row.device_id row' h own, more) refl

appended_broken :
    (ctx : Context) (s : Service) (row : UploadRow) (device : Text) (r : Received) (t : ℕ)
    → appended ctx s row device r true t ≡ (s, failed)
unfolding appended
appended_broken ctx s row device r t = refl

appended_long :
    (ctx : Context) (s : Service) (row : UploadRow) (device : Text) (r : Received) (t : ℕ)
    → r.overflow ≡ true
    → appended ctx s row device r false t ≡ (
      s,
      refused (record { code = upload_too_large; detail = progress r.received row.total_bytes }),
    )
unfolding appended
appended_long ctx s row device r t long = rw long refl

appended-Progressed :
    (ctx : Context) (s : Service) (row : UploadRow) (content : List ℕ) (body : List (ℕ × List ℕ))
    (broken : Bool) (t : ℕ)
    → get row.id s.rows ≡ some row
    → length content ≡ row.received_bytes
    → row.received_bytes ≤ row.total_bytes
    → (broken ≡ true) ⊎ (row.received_bytes + body_length body ≢ row.total_bytes)
    → let r = received_of s row content body in
      let result = appended ctx (kept row r t) row row.device_id r broken t in
      Progressed s row content body (result.0) × (result.1 ≡ answer row body broken)
unfolding publish to_dto
appended-Progressed ctx s row content body true t h len fits open_end =
    rw
      (appended_broken ctx (kept row (received_of s row content body) t) row row.device_id
        (received_of s row content body) t)
      (kept-Progressed s row content body t h len fits, refl)
appended-Progressed ctx s row content body false t h len fits (inl no_break) = absurd cc
appended-Progressed ctx s row content body false t h len fits (inr off) =
    let start : Received = record {
      service = s;
      content = content;
      received = row.received_bytes;
      overflow = false;
    } in
    let (grown, count, bound, exact) = receive_lem row start body refl len fits in
    let (file, at_row) = kept-Progressed s row content body t h len fits in
    let (u, row') = at_row in
    elim (Bool-cases (received_of s row content body).overflow) [
      | inl long ↦
          let over : ltb row.total_bytes (row.received_bytes + body_length body) ≡ true =
            ground (arith, exact.1) in
          let n : (received_of s row content body).received
              ≡ row.received_bytes + length (accepted row.total_bytes row.received_bytes body) =
            omega (
              arith,
              count,
              ap length grown,
              length-append content (accepted row.total_bytes row.received_bytes body),
            ) in
          rw
            (
              appended_long ctx (kept row (received_of s row content body) t) row row.device_id
                  (received_of s row content body) t long,
              over,
            )
            (
              (file, at_row),
              ap
                  (λ k.
                    refused
                      (record { code = upload_too_large; detail = progress k row.total_bytes }))
                  n,
            )
      | inr room ↦
          let le = exact.0 room in
          let all = accepted_all row.total_bytes row.received_bytes body le in
          let n : length (accepted row.total_bytes row.received_bytes body) ≡ body_length body =
            ap length all ∙ length-body_bytes body in
          let e =
            appended_unfinished ctx (kept row (received_of s row content body) t) row _
              (received_of s row content body) t row' refl room (omega (arith, n)) in
          let under : ltb row.total_bytes (row.received_bytes + body_length body) ≡ false =
            ground arith in
          rw (e, under)
            (
              (file, at_row),
              ap (λ k. done (to_dto (record row { received_bytes = row.received_bytes + k }))) n,
            )
    ]

-- An active upload of `content`, which is at its temporary path, is sent a chunk where it stands,
-- with no declared length past its size.
-- Unless the whole body comes and makes the upload complete, the file is `content` and the bytes
-- of the chunks that fit, also when the body breaks off or is too long; the row has their count,
-- and the answer is the error, the refusal with that count, or the session.
pub append_progress :
    (ctx : Context) (s : Service) (row : UploadRow) (content : List ℕ) (body : List (ℕ × List ℕ))
    (broken : Bool) (declared : Option ℕ) (t : ℕ)
    → get row.id s.rows ≡ some row
    → row.status ≡ active
    → too_long row row.received_bytes declared ≡ false
    → get row.temp_path s.disk ≡ some content
    → length content ≡ row.received_bytes
    → row.received_bytes ≤ row.total_bytes
    → (broken ≡ true) ⊎ (row.received_bytes + body_length body ≢ row.total_bytes)
    → Progressed s row content body
        (append ctx s row.id row.device_id row.received_bytes body broken declared t).0
      × ((append ctx s row.id row.device_id row.received_bytes body broken declared t).1
          ≡ answer row body broken)
append_progress ctx s row content body broken declared t h live ok_declared file len fits open_end =
    rw (append_open ctx s row content body broken declared t h live ok_declared file)
      (appended-Progressed ctx s row content body broken t h len fits open_end)
