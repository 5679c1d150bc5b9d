-- ===== src/Uploads/Operations/Finishing.antt =====
-- The end of an upload in modules/uploads/sessions.ts: `finalize` behind the last chunk.
use local_cast.Base.{
  ℕ, suc, ◌+◌, ◌≤◌, ◌≡◌, ◌≢◌, refl, sym, ap, ◌∙◌, true, false, List, [], ◌++◌, Option, none, some,
  Text, arith, leb, length, ok,
}
use local_cast.Maps.{get, set, delete, get-set_self, get-set_ne, get-delete_self}
use local_cast.Uploads.{
  active, complete, UploadRow, Service, done, Context, Received, publish, to_dto, change_row,
}
use local_cast.Uploads.Operations.{
  too_long, kept, appended, append, finalize, reserve, reserve_free_name, reserved, renamed,
  completed, announced, basename_of, normalize_rel,
}
use local_cast.Uploads.Operations.Isolation.{receive-disk}
use local_cast.Uploads.Operations.Reading.{
  kept_lem, kept-Progressed, require_own, append_open, received_of, accepted_all, length-body_bytes,
  body_bytes, get-change_row,
}
use local_cast.Uploads.Receiving.{body_length, receive_lem}

reserve_now :
    (ctx : Context) (rounds : ℕ) (path : Text) (disk : List (Text × List ℕ))
    → get path disk ≡ none
    → reserve ctx (suc rounds) 1 path disk ≡ some (path, set path [] disk)
unfolding reserve
reserve_now ctx rounds path disk free = rw (free, reserve) refl

reserve_first :
    (ctx : Context) (path : Text) (disk : List (Text × List ℕ))
    → get path disk ≡ none
    → reserve_free_name ctx path disk ≡ some (path, set path [] disk)
unfolding reserve_free_name
reserve_first ctx path disk free = reserve_now ctx 998 path disk free

renamed_lem :
    (ctx : Context) (s : Service) (row : UploadRow) (final : Text) (disk : List (Text × List ℕ))
    (content : List ℕ) (t : ℕ)
    → get row.temp_path disk ≡ some content
    → renamed ctx s row final disk t
      ≡ completed ctx
          (record s { disk = set final content (delete row.temp_path disk) })
          row
          final
          t
unfolding renamed
renamed_lem ctx s row final disk content t file = rw (file, renamed) refl

-- What `finalize` makes of a row.
abbrev pub finish : Context → UploadRow → Text → ℕ → UploadRow → UploadRow
finish ctx row final t = λ r. record r {
  status = complete;
  rel_path = normalize_rel (ctx.beside row.rel_path (basename_of final));
  received_bytes = r.total_bytes;
  updated_at = t;
}

abbrev marked : Context → Service → UploadRow → Text → ℕ → Service
marked ctx s row final t = record s {
  pending_mtime = delete row.id s.pending_mtime;
  rows = change_row (finish ctx row final t) row.id s.rows;
  last_published = delete row.id s.last_published;
}

completed_open :
    (ctx : Context) (s : Service) (row : UploadRow) (final : Text) (t : ℕ)
    → get row.id s.rows ≡ some row
    → completed ctx s row final t
      ≡ announced (marked ctx s row final t) row (some (finish ctx row final t row)) t
unfolding completed
completed_open ctx s row final t h =
    ap (λ found. announced (marked ctx s row final t) row found t)
      (get-change_row (finish ctx row final t) row.id row s.rows h)

completed_lem :
    (ctx : Context) (s : Service) (row : UploadRow) (final : Text) (t : ℕ)
    → get row.id s.rows ≡ some row
    → ((completed ctx s row final t).0.disk ≡ s.disk)
      × (get row.id (completed ctx s row final t).0.rows ≡ some (finish ctx row final t row))
      × ((completed ctx s row final t).1 ≡ done (to_dto (finish ctx row final t row)))
unfolding announced publish
completed_lem ctx s row final t h =
    rw (completed_open ctx s row final t h)
      (refl, get-change_row (finish ctx row final t) row.id row s.rows h, refl)

finalize_open :
    (ctx : Context) (s : Service) (row : UploadRow) (destination : Text) (t : ℕ)
    → ctx.resolve_writable row.folder_id row.rel_path ≡ ok destination
    → finalize ctx s row t ≡ reserved ctx s row (reserve_free_name ctx destination s.disk) t
unfolding finalize
finalize_open ctx s row destination t writable = rw (writable, finalize) refl

reserved-some :
    (ctx : Context) (s : Service) (row : UploadRow) (final : Text) (disk : List (Text × List ℕ))
    (t : ℕ)
    → reserved ctx s row (some (final, disk)) t ≡ renamed ctx s row final disk t
unfolding reserved
reserved-some ctx s row final disk t = refl

finalize_lem :
    (ctx : Context) (s : Service) (row : UploadRow) (destination : Text) (content : List ℕ) (t : ℕ)
    → get row.id s.rows ≡ some row
    → ctx.resolve_writable row.folder_id row.rel_path ≡ ok destination
    → get row.temp_path s.disk ≡ some content
    → get destination s.disk ≡ none
    → row.temp_path ≢ destination
    → (get destination (finalize ctx s row t).0.disk ≡ some content)
      × (get row.temp_path (finalize ctx s row t).0.disk ≡ none)
      × (get row.id (finalize ctx s row t).0.rows ≡ some (finish ctx row destination t row))
      × ((finalize ctx s row t).1 ≡ done (to_dto (finish ctx row destination t row)))
finalize_lem ctx s row destination content t h writable file free other =
    let disk = set destination [] s.disk in
    let there = get-set_ne destination row.temp_path [] s.disk (λ e. other (sym e)) ∙ file in
    let (d, r, answer) =
      completed_lem ctx (record s { disk = set destination content (delete row.temp_path disk) })
        row destination t h in
    rw
      (
        finalize_open ctx s row destination t writable,
        reserve_first ctx destination s.disk free,
        reserved-some ctx s row destination disk t,
        renamed_lem ctx s row destination disk content t there,
      )
      (
        ap (get destination) d ∙ get-set_self destination content (delete row.temp_path disk),
        ap (get row.temp_path) d
            ∙ get-set_ne destination row.temp_path content (delete row.temp_path disk)
                (λ e. other (sym e))
            ∙ get-delete_self row.temp_path disk,
        r,
        answer,
      )

appended_finished :
    (ctx : Context) (s : Service) (row row' : UploadRow) (r : Received) (t : ℕ)
    → get row.id s.rows ≡ some row'
    → row'.device_id ≡ row.device_id
    → r.overflow ≡ false
    → row'.total_bytes ≤ row'.received_bytes
    → appended ctx s row row.device_id r false t ≡ finalize ctx s row' t
unfolding appended
appended_finished ctx s row row' r t h own fits whole =
    let enough : leb row'.total_bytes row'.received_bytes ≡ true = ground arith in
    rw (fits, require_own s row.id row.device_id row' h own, enough) refl

-- The last chunk of an active upload of `content` comes whole, where the upload stands and with no
-- declared length past its size, the folder can be written, and no file is at the destination,
-- which is not the temporary path. Then that path holds `content` and the bytes of the chunk, nothing
-- is left at the temporary path, the row is marked as complete with the whole size, and the answer
-- is its session.
pub append_completes :
    (ctx : Context) (s : Service) (row : UploadRow) (content : List ℕ) (body : List (ℕ × List ℕ))
    (declared : Option ℕ) (destination : Text) (t : ℕ)
    → get row.id s.rows ≡ some row
    → row.status ≡ active
    → too_long row row.received_bytes declared ≡ false
    → get row.temp_path s.disk ≡ some content
    → length content ≡ row.received_bytes
    → row.received_bytes + body_length body ≡ row.total_bytes
    → ctx.resolve_writable row.folder_id row.rel_path ≡ ok destination
    → get destination s.disk ≡ none
    → row.temp_path ≢ destination
    → let result = append ctx s row.id row.device_id row.received_bytes body false declared t in
      (get destination (result.0).disk ≡ some (content ++ body_bytes body))
      × (get row.temp_path (result.0).disk ≡ none)
      × (get row.id (result.0).rows ≡ some (finish ctx row destination t row))
      × (result.1 ≡ done (to_dto (finish ctx row destination t row)))
append_completes ctx s row content body declared destination t h live ok_declared file len sum
      writable free other =
    let start : Received = record {
      service = s;
      content = content;
      received = row.received_bytes;
      overflow = false;
    } in
    let r = received_of s row content body in
    let (grown, count, bound, exact) = receive_lem row start body refl len (omega arith) in
    let (file', at_row) = kept-Progressed s row content body t h len (omega arith) in
    let (u, row') = at_row in
    let all = accepted_all row.total_bytes row.received_bytes body (omega arith) in
    rw
      (
        append_open ctx s row content body false declared t h live ok_declared file,
        appended_finished ctx (kept row r t) row _ r t row' refl (exact.1 (omega arith))
            (omega (arith, ap length all, length-body_bytes body)),
      )
      (finalize_lem ctx (kept row r t) _ destination (content ++ body_bytes body) t row' writable
        (file' ∙ ap (λ b. some (content ++ b)) all)
        (ap (get destination)
            (kept_lem row r t (ap (get row.id) (receive-disk row start body).1 ∙ h)).0
          ∙ get-set_ne row.temp_path destination r.content r.service.disk other
          ∙ ap (get destination) (receive-disk row start body).0
          ∙ free)
        other)
