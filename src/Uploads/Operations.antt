-- ===== src/Uploads/Operations.antt =====
-- The operations of UploadService in modules/uploads/sessions.ts, and reserveFreeName of paths.ts.
pub mod Isolation
pub mod Reading
pub mod Resuming
pub mod Finishing
mod Tests
use local_cast.Base.{
  ℕ, zero, suc, ◌+◌, Bool, false, not, ◌&&◌, ◌||◌, List, [], ◌∷◌, ◌++◌, Option, none, some, Text,
  codes, starts_with, ltb, leb, ◌==◌, if◌then◌else◌, drop, Result, ok, err, ◌>>=◌, ◌>>◌, throw_if,
}
use local_cast.Contract.Errors.{
  plain, progress, max_bytes, upload_too_large, upload_session_unknown, upload_offset_mismatch,
  bad_request,
}
use local_cast.Maps.{get, set, delete}
use local_cast.Uploads.Paths.{sanitize_relative_path}
use local_cast.Uploads.{
  active, complete, aborted, is_active, is_complete, UploadRow, UploadSession, upload_started,
  upload_completed, upload_aborted, Service, Reply, done, refused, failed, CreateInput, Context,
  to_dto, require, publish, Received, receive, change_row, persist_received,
}

-- `absPath.split(/[\\/]/)`, and the last part of it
basename_from : Text → Text → Text
basename_from cur [] = cur
basename_from cur (c ∷ s) = basename_from (if c == b'/' || c == 92 then [] else cur ++ (c ∷ [])) s

pub basename_of : Text → Text
unfolding basename_from
basename_of path = basename_from [] path

pub normalize_rel : Text → Text
normalize_rel path = if starts_with path (codes "./") then drop 2 path else path

-- The declared length of a chunk goes past the size of the upload.
pub too_long : UploadRow → ℕ → Option ℕ → Bool
too_long row offset none = false
too_long row offset (some n) = ltb row.total_bytes (offset + n)

-- The end of `finalize`: the row is read again and published.
announced : Service → UploadRow → Option UploadRow → ℕ → Service × Reply
unfolding publish
announced s row none t = (s, refused (plain upload_session_unknown))
announced s row (some updated) t =
    let s1 = publish s updated t in
    (
      record s1 { outbox = s1.outbox ++ (upload_completed row.device_id row.id ∷ []) },
      done (to_dto updated),
    )

-- The checks of `append` before the body is read.
check_append : UploadRow → ℕ → Option ℕ → Result (Unit {0})
unfolding too_long
check_append row offset declared = do
  throw_if (not (is_active row.status)) (plain upload_session_unknown)
  throw_if (not (offset == row.received_bytes)) (record {
    code = upload_offset_mismatch;
    detail = progress row.received_bytes row.total_bytes;
  })
  throw_if (too_long row offset declared)
      (record { code = upload_too_large; detail = progress row.received_bytes row.total_bytes })

-- The `finally` block: what has come is persisted, also when the body broke off.
pub kept : UploadRow → Received → ℕ → Service
unfolding persist_received set
kept row r t =
    let s = record r.service { disk = set row.temp_path r.content r.service.disk } in
    if not (r.received == row.received_bytes) then persist_received s row.id r.received t else s

remember_mtime : Text → Option ℕ → List (Text × ℕ) → List (Text × ℕ)
unfolding set
remember_mtime id none m = m
remember_mtime id (some mtime) m = set id mtime m

module _ (ctx : Context) where
  open ctx use {to_lower, assert_can_upload, resolve_writable, temp_path_of, numbered, beside}

  -- The loop of reserveFreeName, from a counter on: the first path that is free is created, empty.
  pub reserve : ℕ → ℕ → Text → List (Text × List ℕ) → Option (Text × List (Text × List ℕ))
  unfolding get set
  reserve zero counter path disk = none
  reserve (suc rounds) counter path disk =
      let candidate = if counter == 1 then path else numbered path counter in
      elim (get candidate disk) [
        | none ↦ some (candidate, set candidate [] disk)
        | some _ ↦ reserve rounds (counter + 1) path disk
      ]

  pub reserve_free_name : Text → List (Text × List ℕ) → Option (Text × List (Text × List ℕ))
  unfolding reserve
  reserve_free_name path disk = reserve 999 1 path disk

  -- `finalize` behind the rename: the row is marked.
  completed : Service → UploadRow → Text → ℕ → Service × Reply
  unfolding basename_of normalize_rel change_row announced delete get
  completed s row final_path t =
      let rel = normalize_rel (beside row.rel_path (basename_of final_path)) in
      let finish = λ (r : UploadRow). record r {
        status = complete;
        rel_path = rel;
        received_bytes = r.total_bytes;
        updated_at = t;
      } in
      let s1 = record s {
        pending_mtime = delete row.id s.pending_mtime;
        rows = change_row finish row.id s.rows;
        last_published = delete row.id s.last_published;
      } in
      announced s1 row (get row.id s1.rows) t

  -- `rename(row.temp_path, finalPath)`; a temporary file that is gone gives up the reservation.
  renamed : Service → UploadRow → Text → List (Text × List ℕ) → ℕ → Service × Reply
  unfolding completed get set delete
  renamed s row final_path disk t = elim (get row.temp_path disk) [
    | none ↦ (record s { disk = delete final_path disk }, failed)
    | some content ↦
        completed (record s { disk = set final_path content (delete row.temp_path disk) }) row
          final_path t
  ]

  reserved : Service → UploadRow → Option (Text × List (Text × List ℕ)) → ℕ → Service × Reply
  unfolding renamed
  reserved s row none t = (s, refused (plain bad_request))
  reserved s row (some (final_path, disk)) t = renamed s row final_path disk t

  pub finalize : Service → UploadRow → ℕ → Service × Reply
  unfolding reserved reserve_free_name
  finalize s row t = elim (resolve_writable row.folder_id row.rel_path) [
    | err e ↦ (s, refused e)
    | ok destination ↦ reserved s row (reserve_free_name destination s.disk) t
  ]

  -- `create`, with the id that `randomUUID` gives.
  check_create : Service → CreateInput → Result Text
  check_create s input = do
    throw_if (ltb s.max_size input.total_bytes)
        (record { code = upload_too_large; detail = max_bytes s.max_size })
    rel ← sanitize_relative_path to_lower input.relative_path
    assert_can_upload input.device_id input.folder_id
    destination ← resolve_writable input.folder_id rel
    ok rel

  new_row : Service → Text → CreateInput → Text → ℕ → UploadRow
  new_row s id input rel t = record {
    id = id;
    device_id = input.device_id;
    folder_id = input.folder_id;
    rel_path = rel;
    total_bytes = input.total_bytes;
    received_bytes = 0;
    chunk_size = s.chunk_size;
    temp_path = temp_path_of id;
    status = active;
    created_at = t;
    updated_at = t;
  }

  pub create : Service → Text → CreateInput → ℕ → Service × Reply
  unfolding check_create new_row remember_mtime set finalize publish
  create s id input t = elim (check_create s input) [
    | err e ↦ (s, refused e)
    | ok rel ↦
        let row = new_row s id input rel t in
        let s1 = record s {
          disk = set row.temp_path [] s.disk;
          rows = set id row s.rows;
          pending_mtime = remember_mtime id input.mtime s.pending_mtime;
          outbox = s.outbox ++ (upload_started input.device_id id ∷ []);
        } in
        if input.total_bytes == 0 then finalize s1 row t else (publish s1 row t, done (to_dto row))
  ]

  -- `append` behind the loop.
  pub appended : Service → UploadRow → Text → Received → Bool → ℕ → Service × Reply
  unfolding require finalize publish
  appended s row device r broken t =
      if broken
      then (s, failed)
      else if r.overflow
      then (
        s,
        refused (record { code = upload_too_large; detail = progress r.received row.total_bytes }),
      )
      else (elim (require s row.id device) [
        | err e ↦ (s, refused e)
        | ok updated ↦
            if leb updated.total_bytes updated.received_bytes
            then finalize s updated t
            else (publish s updated t, done (to_dto updated))
      ])

  -- `append` behind the checks.
  append_body : Service → UploadRow → Text → List (ℕ × List ℕ) → Bool → ℕ → Service × Reply
  unfolding receive kept appended get
  append_body s row device body broken t = elim (get row.temp_path s.disk) [
    | none ↦ (s, failed)
    | some content ↦
        let r =
          receive row
            (record {
              service = s;
              content = content;
              received = row.received_bytes;
              overflow = false;
            })
            body in
        appended (kept row r t) row device r broken t
  ]

  -- `body` holds the chunks with their times, `broken` says that it breaks off behind them, and `t`
  -- is the time at its end.
  pub append : Service → Text → Text → ℕ → List (ℕ × List ℕ) → Bool → Option ℕ → ℕ → Service × Reply
  unfolding require check_append append_body
  append s id device offset body broken declared t = elim (require s id device) [
    | err e ↦ (s, refused e)
    | ok row ↦ elim (check_append row offset declared) [
      | err e ↦ (s, refused e)
      | ok _ ↦ append_body s row device body broken t
    ]
  ]

pub get_session : Service → Text → Text → Result UploadSession
unfolding require
get_session s id device = do row ← require s id device; ok (to_dto row)

abort_row : Service → UploadRow → Text → ℕ → Service × Reply
unfolding require publish change_row delete
abort_row s row device t =
    if is_complete row.status
    then (s, refused (plain bad_request))
    else (let s1 = record s {
      disk = delete row.temp_path s.disk;
      rows = change_row (λ r. record r { status = aborted; updated_at = t }) row.id s.rows;
      last_published = delete row.id s.last_published;
      pending_mtime = delete row.id s.pending_mtime;
    } in
        elim (require s1 row.id device) [
          | err e ↦ (s1, refused e)
          | ok updated ↦
              let s2 = publish s1 updated t in
              (
                record s2 { outbox = s2.outbox ++ (upload_aborted device row.id ∷ []) },
                done (to_dto updated),
              )
        ])

pub abort : Service → Text → Text → ℕ → Service × Reply
unfolding abort_row
abort s id device t = elim (require s id device) [
  | err e ↦ (s, refused e)
  | ok row ↦ abort_row s row device t
]
