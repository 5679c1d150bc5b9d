-- ===== src/Uploads/Operations/Tests.antt =====
-- An upload of five bytes, and the theorems on modules/uploads/sessions.ts at its steps.
use local_cast.Base.{
  ℕ, ◌≡◌, ◌≢◌, refl, arith, true, false, inl, List, [], ◌∷◌, ◌++◌, none, some, codes, text_eq, ok,
  err,
}
use local_cast.Contract.Errors.{plain, upload_session_unknown}
use local_cast.Maps.{get}
use local_cast.Uploads.{active, UploadRow, Service, Reply, done, refused, failed, Context, to_dto}
use local_cast.Uploads.Operations.{too_long, append, abort, get_session, finalize, create}
use local_cast.Uploads.Operations.Isolation.{foreign_session, finalize-Keeps}
use local_cast.Uploads.Operations.Reading.{Progressed, body_bytes}
use local_cast.Uploads.Operations.Resuming.{answer, append_progress}
use local_cast.Uploads.Operations.Finishing.{finish, append_completes}

-- Everything is allowed, and a file of the library lies at its own relative path.
abbrev ctx : Context
ctx = record {
  to_lower = λ s. s;
  assert_can_upload = λ device folder. ok tt;
  resolve_writable = λ folder path. ok path;
  temp_path_of = λ id. id ++ codes ".part";
  numbered = λ path n. path ++ (n ∷ []);
  beside = λ path name. name;
}

abbrev row : UploadRow
row = record {
  id = codes "u1";
  device_id = codes "phone";
  folder_id = codes "inbox";
  rel_path = codes "a.jpg";
  total_bytes = 5;
  received_bytes = 2;
  chunk_size = 4;
  temp_path = codes "u1.part";
  status = active;
  created_at = 0;
  updated_at = 1;
}

abbrev service : Service
service = record {
  chunk_size = 4;
  max_size = 100;
  progress_interval_ms = 250;
  rows = (codes "u1", row) ∷ [];
  disk = (codes "u1.part", 7 ∷ 8 ∷ []) ∷ (codes "b.jpg", 1 ∷ []) ∷ [];
  last_published = [];
  pending_mtime = [];
  outbox = [];
}

row-found : get (codes "u1") service.rows ≡ some row
unfolding get text_eq
row-found = refl

part-found : get (codes "u1.part") service.disk ≡ some (7 ∷ 8 ∷ [])
unfolding get text_eq
part-found = refl

other-found : get (codes "b.jpg") service.disk ≡ some (1 ∷ [])
unfolding get text_eq
other-found = refl

a-free : get (codes "a.jpg") service.disk ≡ none
unfolding get text_eq
a-free = refl

phone-ne-tv : codes "phone" ≢ codes "tv"
phone-ne-tv = λ e. cc

part-ne-b : codes "u1.part" ≢ codes "b.jpg"
part-ne-b = λ e. cc

part-ne-a : codes "u1.part" ≢ codes "a.jpg"
part-ne-a = λ e. cc

foreign_session_example :
    (append ctx service (codes "u1") (codes "tv") 2 ((9, 1 ∷ []) ∷ []) false none 9
      ≡ (service, refused (plain upload_session_unknown)))
    × (abort service (codes "u1") (codes "tv") 9
        ≡ (service, refused (plain upload_session_unknown)))
    × (get_session service (codes "u1") (codes "tv") ≡ err (plain upload_session_unknown))
foreign_session_example =
    foreign_session ctx service (codes "u1") (codes "tv") row 2 ((9, 1 ∷ []) ∷ []) false none 9
      row-found phone-ne-tv

finalize-Keeps_example : get (codes "b.jpg") (finalize ctx service row 9).0.disk ≡ some (1 ∷ [])
finalize-Keeps_example =
    finalize-Keeps ctx service row (codes "b.jpg") 9 (1 ∷ []) part-ne-b other-found

three-fit : too_long row 2 (some 3) ≡ false
unfolding too_long
three-fit = refl

abbrev broken_body : List (ℕ × List ℕ)
broken_body = (5, 3 ∷ 4 ∷ []) ∷ []

append_progress_example :
    Progressed service row
      (7 ∷ 8 ∷ [])
      broken_body
      (append ctx service (codes "u1") (codes "phone") 2 broken_body true (some 3) 9).0
    × ((append ctx service (codes "u1") (codes "phone") 2 broken_body true (some 3) 9).1
        ≡ answer row broken_body true)
append_progress_example =
    append_progress ctx service row (7 ∷ 8 ∷ []) broken_body true (some 3) 9 row-found refl
      three-fit part-found refl (omega arith) (inl refl)

abbrev last_body : List (ℕ × List ℕ)
last_body = (5, 3 ∷ 4 ∷ []) ∷ (6, 5 ∷ []) ∷ []

append_completes_example :
    let result = append ctx service (codes "u1") (codes "phone") 2 last_body false (some 3) 9 in
    (get (codes "a.jpg") (result.0).disk ≡ some ((7 ∷ 8 ∷ []) ++ body_bytes last_body))
    × (get (codes "u1.part") (result.0).disk ≡ none)
    × (get (codes "u1") (result.0).rows ≡ some (finish ctx row (codes "a.jpg") 9 row))
    × (result.1 ≡ done (to_dto (finish ctx row (codes "a.jpg") 9 row)))
unfolding local_cast.Uploads.Operations.too_long
append_completes_example =
    append_completes ctx service row (7 ∷ 8 ∷ []) last_body (some 3) (codes "a.jpg") 9 row-found
      refl three-fit part-found refl (omega arith) refl a-free part-ne-a
