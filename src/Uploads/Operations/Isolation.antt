-- ===== src/Uploads/Operations/Isolation.antt =====
-- What an upload of modules/uploads/sessions.ts leaves alone: other devices' sessions and the files
-- that are there.
use local_cast.Base.{
  ℕ, zero, suc, ◌+◌, ◌≡◌, ◌≢◌, refl, sym, ap, ◌∙◌, Bool, Option-cases, Result-cases, inl, inr, List,
  [], ◌∷◌, Option, none, some, Text, text_eq_iff, arith, ◌==◌, if◌then◌else◌, length, err,
}
use local_cast.Contract.Errors.{plain, upload_session_unknown}
use local_cast.Maps.{get, set, delete, get-set_ne, get-delete_ne}
use local_cast.Uploads.{
  UploadRow, Service, Reply, refused, Context, Received, owned_by, require, publish, receive_chunk,
  receive, maybe_publish_progress,
}
use local_cast.Uploads.Operations.{
  reserve, reserve_free_name, completed, renamed, announced, reserved, finalize, append,
  get_session, abort,
}

-- `require` refuses a session of another device as it refuses one that does not exist.
require_foreign :
    (s : Service) (id device : Text) (row : UploadRow)
    → get id s.rows ≡ some row
    → row.device_id ≢ device
    → require s id device ≡ err (plain upload_session_unknown)
unfolding require owned_by
require_foreign s id device row h foreign = rw h (ground (arith, text_eq_iff row.device_id device))

-- A device that names the session of another one, whatever else it sends, changes nothing and is
-- told by `append`, `abort` and `get` that the session is unknown.
pub foreign_session :
    (ctx : Context) (s : Service) (id device : Text) (row : UploadRow) (offset : ℕ)
    (body : List (ℕ × List ℕ)) (broken : Bool) (declared : Option ℕ) (t : ℕ)
    → get id s.rows ≡ some row
    → row.device_id ≢ device
    → (append ctx s id device offset body broken declared t
        ≡ (s, refused (plain upload_session_unknown)))
      × (abort s id device t ≡ (s, refused (plain upload_session_unknown)))
      × (get_session s id device ≡ err (plain upload_session_unknown))
unfolding append abort get_session
foreign_session ctx s id device row offset body broken declared t h foreign =
    rw (require_foreign s id device row h foreign, append, abort) (refl, refl, refl)

maybe_publish_progress-disk :
    (s : Service) (row : UploadRow) (n t : ℕ)
    → ((maybe_publish_progress s row n t).disk ≡ s.disk)
      × ((maybe_publish_progress s row n t).rows ≡ s.rows)
unfolding maybe_publish_progress
maybe_publish_progress-disk s row n t = ground arith

receive_chunk-disk :
    (row : UploadRow) (r : Received) (c : ℕ × List ℕ)
    → ((receive_chunk row r c).service.disk ≡ r.service.disk)
      × ((receive_chunk row r c).service.rows ≡ r.service.rows)
unfolding receive_chunk
receive_chunk-disk row r (t, []) = (refl, refl)
receive_chunk-disk row r (t, b ∷ bytes) =
    ground (arith, maybe_publish_progress-disk r.service row (r.received + length (b ∷ bytes)) t)

-- Receiving a body neither renames nor registers anything.
pub receive-disk :
    (row : UploadRow) (r : Received) (cs : List (ℕ × List ℕ))
    → ((receive row r cs).service.disk ≡ r.service.disk)
      × ((receive row r cs).service.rows ≡ r.service.rows)
unfolding receive
receive-disk row r [] = (refl, refl)
receive-disk row r (c ∷ cs) =
    let (disk, rows) = receive_chunk-disk row r c in
    let (disk', rows') = receive-disk row (receive_chunk row r c) cs in (disk' ∙ disk, rows' ∙ rows)

-- The name that is reserved was free, and is now an empty file.
pub reserve_lem :
    (ctx : Context) (rounds counter : ℕ) (path final : Text) (disk disk' : List (Text × List ℕ))
    → reserve ctx rounds counter path disk ≡ some (final, disk')
    → (get final disk ≡ none) × (disk' ≡ set final [] disk)
unfolding reserve
reserve_lem ctx zero counter path final disk disk' h = absurd cc
reserve_lem ctx (suc rounds) counter path final disk disk' h =
    let candidate = if counter == 1 then path else ctx.numbered path counter in
    elim (Option-cases (get candidate disk)) [
      | inl free ↦
          let e : ◌≡◌ {A = Option (Text × List (Text × List ℕ))}
              (some (candidate, set candidate [] disk)) (some (final, disk')) =
            sym (rw (free, reserve) refl) ∙ h in
          (cc, cc)
      | inr (bytes, taken) ↦
          reserve_lem ctx rounds (counter + 1) path final disk disk'
            (sym (rw (taken, reserve) refl) ∙ h)
    ]

reserve_free_name_lem :
    (ctx : Context) (path final : Text) (disk disk' : List (Text × List ℕ))
    → reserve_free_name ctx path disk ≡ some (final, disk')
    → (get final disk ≡ none) × (disk' ≡ set final [] disk)
unfolding reserve_free_name
reserve_free_name_lem ctx path final disk disk' h = reserve_lem ctx 999 1 path final disk disk' h

-- No operation touches a file that it does not own: what is at `q` stays.
abbrev Keeps : Text → List ℕ → Service × Reply → Type 0
Keeps q content result = get q (result.0).disk ≡ some content

announced-disk :
    (s : Service) (row : UploadRow) (found : Option UploadRow) (t : ℕ)
    → (announced s row found t).0.disk ≡ s.disk
unfolding announced publish
announced-disk s row none t = refl
announced-disk s row (some updated) t = refl

completed-disk :
    (ctx : Context) (s : Service) (row : UploadRow) (final : Text) (t : ℕ)
    → (completed ctx s row final t).0.disk ≡ s.disk
unfolding completed
completed-disk ctx s row final t = announced-disk _ row _ t

renamed-Keeps :
    (ctx : Context) (s : Service) (row : UploadRow) (final q : Text) (disk : List (Text × List ℕ))
    (t : ℕ) (content : List ℕ)
    → row.temp_path ≢ q
    → final ≢ q
    → get q disk ≡ some content
    → Keeps q content (renamed ctx s row final disk t)
unfolding renamed
renamed-Keeps ctx s row final q disk t content other free h =
    elim (Option-cases (get row.temp_path disk)) [
      | inl gone ↦ rw (gone, renamed) (get-delete_ne final q disk free ∙ h)
      | inr (bytes, found) ↦
          rw (found, renamed)
            (ap (get q) (completed-disk ctx _ row final t)
              ∙ get-set_ne final q bytes (delete row.temp_path disk) free
              ∙ get-delete_ne row.temp_path q disk other
              ∙ h)
    ]

absurd_none : {o : Option (List ℕ)} {content : List ℕ} → o ≡ none → o ≡ some content → ⊥
absurd_none h k = cc

reserved-Keeps :
    (ctx : Context) (s : Service) (row : UploadRow) (found : Option (Text × List (Text × List ℕ)))
    (q : Text) (t : ℕ) (content : List ℕ)
    → ((final : Text) (disk : List (Text × List ℕ))
        → found ≡ some (final, disk)
        → (get final s.disk ≡ none) × (disk ≡ set final [] s.disk))
    → row.temp_path ≢ q
    → get q s.disk ≡ some content
    → Keeps q content (reserved ctx s row found t)
unfolding reserved
reserved-Keeps ctx s row none q t content free other h = h
reserved-Keeps ctx s row (some (final, disk)) q t content free other h =
    let (none_there, e) = free final disk refl in
    let ne : final ≢ q = (λ same. absurd_none none_there (ap (λ p. get p s.disk) same ∙ h)) in
    renamed-Keeps ctx s row final q disk t content other ne
      (ap (get q) e ∙ get-set_ne final q [] s.disk ne ∙ h)

-- Finishing an upload, whether it succeeds or not, overwrites no file: at every path but the
-- upload's own temporary file, what was there is still there.
pub finalize-Keeps :
    (ctx : Context) (s : Service) (row : UploadRow) (q : Text) (t : ℕ) (content : List ℕ)
    → row.temp_path ≢ q
    → get q s.disk ≡ some content
    → get q (finalize ctx s row t).0.disk ≡ some content
unfolding finalize
finalize-Keeps ctx s row q t content other h =
    elim (Result-cases (ctx.resolve_writable row.folder_id row.rel_path)) [
      | inl (e, refusal) ↦ rw (refusal, finalize) h
      | inr (destination, allowed) ↦
          rw (allowed, finalize)
            (reserved-Keeps ctx s row (reserve_free_name ctx destination s.disk) q t content
              (λ final disk e. reserve_free_name_lem ctx destination final s.disk disk e) other h)
    ]
