-- ===== src/Uploads.antt =====
-- apps/server/src/modules/uploads/sessions.ts: resumable uploads in chunks.
--
-- `rows` is the table `uploads`, `disk` the files by their path, `outbox` what is published and what
-- is written to the activity log, newest last. A call runs without another one in between. The
-- chunks of a body carry the time at which they arrive, and a body may break off.
pub mod Operations
pub mod Paths
pub mod Receiving
pub mod Sweeping
mod Tests
use local_cast.Base.{
  ℕ, zero, suc, ◌+◌, ◌-◌, Bool, true, false, not, ◌&&◌, ◌||◌, List, [], ◌∷◌, ◌++◌, Option, none,
  some, Text, codes, text_eq, starts_with, ltb, leb, ◌==◌, if◌then◌else◌, length, take, drop,
  replicate, Result, ok, err, ◌>>=◌, ◌>>◌, throw_if,
}
use local_cast.Contract.Errors.{
  ApiException, plain, progress, max_bytes, upload_too_large, upload_session_unknown,
  upload_offset_mismatch, bad_request,
}
use local_cast.Maps.{get, set, delete}

pub data Status : Type 0 where
  active complete aborted : Status

abbrev pub is_active : Status → Bool
is_active active = true
is_active _ = false

abbrev pub is_complete : Status → Bool
is_complete complete = true
is_complete _ = false

pub record UploadRow : Type 0 where
  pub id : Text
  pub device_id : Text
  pub folder_id : Text
  pub rel_path : Text
  pub total_bytes : ℕ
  pub received_bytes : ℕ
  pub chunk_size : ℕ
  pub temp_path : Text
  pub status : Status
  pub created_at : ℕ
  pub updated_at : ℕ

pub record UploadSession : Type 0 where
  pub id : Text
  pub received_bytes : ℕ
  pub total_bytes : ℕ
  pub chunk_size : ℕ
  pub status : Status

pub data Notice : Type 0 where
  -- an `upload` event: id, received, total and status
  upload_event : Text → ℕ → ℕ → Status → Notice
  -- an entry of the activity log: device and upload
  upload_started upload_completed upload_aborted : Text → Text → Notice

pub record Service : Type 0 where
  pub chunk_size : ℕ
  pub max_size : ℕ
  pub progress_interval_ms : ℕ
  pub rows : List (Text × UploadRow)
  pub disk : List (Text × List ℕ)
  pub last_published : List (Text × ℕ)
  pub pending_mtime : List (Text × ℕ)
  pub outbox : List Notice

-- A session, an `ApiException`, or another error: of the file system, or of the broken body.
pub data Reply : Type 0 where
  done : UploadSession → Reply
  refused : ApiException → Reply
  failed : Reply

pub record CreateInput : Type 0 where
  pub device_id : Text
  pub folder_id : Text
  pub relative_path : Text
  pub total_bytes : ℕ
  pub mtime : Option ℕ

-- The services that an upload calls, and the functions of node:path and `toLowerCase`.
pub record Context : Type 0 where
  pub to_lower : Text → Text
  pub assert_can_upload : Text → Text → Result (Unit {0})
  pub resolve_writable : Text → Text → Result Text
  pub temp_path_of : Text → Text
  -- a path with ` (n)` behind its stem
  pub numbered : Text → ℕ → Text
  -- `posix.join(posix.dirname(path), name)`
  pub beside : Text → Text → Text

pub to_dto : UploadRow → UploadSession
to_dto row = record {
  id = row.id;
  received_bytes = row.received_bytes;
  total_bytes = row.total_bytes;
  chunk_size = row.chunk_size;
  status = row.status;
}

-- Another device's session is as unknown as none.
pub owned_by : Text → Option UploadRow → Result UploadRow
owned_by device none = err (plain upload_session_unknown)
owned_by device (some row) =
    if text_eq row.device_id device then ok row else err (plain upload_session_unknown)

pub require : Service → Text → Text → Result UploadRow
unfolding get owned_by
require s id device = owned_by device (get id s.rows)

-- `publish(row, true)`
pub publish : Service → UploadRow → ℕ → Service
unfolding set
publish s row t = record s {
  last_published = set row.id t s.last_published;
  outbox = s.outbox ++ (upload_event row.id row.received_bytes row.total_bytes row.status ∷ []);
}

abbrev or_zero : Option ℕ → ℕ
or_zero none = 0
or_zero (some n) = n

-- `at - last < interval`, where `at` may lie before `last`
pub maybe_publish_progress : Service → UploadRow → ℕ → ℕ → Service
unfolding get set
maybe_publish_progress s row received t =
    let last = or_zero (get row.id s.last_published) in
    if ltb t (last + s.progress_interval_ms) then s else record s {
      last_published = set row.id t s.last_published;
      outbox = s.outbox ++ (upload_event row.id received row.total_bytes active ∷ []);
    }

-- `handle.write(bytes, 0, bytes.length, at)`: a gap is filled with zeros.
pub write_at : List ℕ → ℕ → List ℕ → List ℕ
write_at content at bytes =
    take at content
    ++ (replicate (at - length content) 0 ++ (bytes ++ drop (at + length bytes) content))

pub record Received : Type 0 where
  pub service : Service
  pub content : List ℕ
  pub received : ℕ
  pub overflow : Bool

-- One chunk of `for await (const chunk of body)`.
pub receive_chunk : UploadRow → Received → ℕ × List ℕ → Received
unfolding maybe_publish_progress write_at
receive_chunk row r (t, []) = r
receive_chunk row r (t, b ∷ bytes) =
    let received = r.received + length (b ∷ bytes) in
    if r.overflow || ltb row.total_bytes received then record r { overflow = true } else record {
      service = maybe_publish_progress r.service row received t;
      content = write_at r.content r.received (b ∷ bytes);
      received = received;
      overflow = false;
    }

pub receive : UploadRow → Received → List (ℕ × List ℕ) → Received
unfolding receive_chunk
receive row r [] = r
receive row r (c ∷ cs) = receive row (receive_chunk row r c) cs

-- `UPDATE uploads … WHERE id = ?`
pub change_row : (UploadRow → UploadRow) → Text → List (Text × UploadRow) → List (Text × UploadRow)
unfolding get set
change_row change id rows = elim (get id rows) [ none ↦ rows | some row ↦ set id (change row) rows ]

pub persist_received : Service → Text → ℕ → ℕ → Service
unfolding change_row
persist_received s id received t = record s {
  rows = change_row (λ row. record row { received_bytes = received; updated_at = t }) id s.rows;
}
