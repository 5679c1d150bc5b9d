-- ===== src/Uploads/Tests.antt =====
-- A sweep of two sessions, of which one is abandoned.
use local_cast.Base.{
  ℕ, ◌≡◌, ◌≢◌, refl, arith, true, false, List, [], ◌∷◌, some, none, Text, codes, text_eq,
  text_eq_iff,
}
use local_cast.Maps.{get}
use local_cast.Uploads.{active, UploadRow, Service}
use local_cast.Uploads.Sweeping.{is_abandoned, Spared}

abbrev session : Text → Text → ℕ → UploadRow
session id path updated = record {
  id = id;
  device_id = codes "phone";
  folder_id = codes "inbox";
  rel_path = codes "a.jpg";
  total_bytes = 5;
  received_bytes = 2;
  chunk_size = 4;
  temp_path = path;
  status = active;
  created_at = 0;
  updated_at = updated;
}

abbrev old_one : UploadRow
old_one = session (codes "u1") (codes "u1.part") 10

abbrev new_one : UploadRow
new_one = session (codes "u2") (codes "u2.part") 90

abbrev service : Service
service = record {
  chunk_size = 4;
  max_size = 100;
  progress_interval_ms = 250;
  rows = (codes "u1", old_one) ∷ (codes "u2", new_one) ∷ [];
  disk = (codes "u1.part", 7 ∷ []) ∷ (codes "u2.part", 8 ∷ []) ∷ [];
  last_published = [];
  pending_mtime = [];
  outbox = [];
}

old-found : get (codes "u1") service.rows ≡ some old_one
unfolding get local_cast.Base.text_eq
old-found = refl

new-found : get (codes "u2") service.rows ≡ some new_one
unfolding get local_cast.Base.text_eq
new-found = refl

old-abandoned : is_abandoned 50 100 old_one ≡ true
unfolding is_abandoned
old-abandoned = refl

new-live : is_abandoned 50 100 new_one ≡ false
unfolding is_abandoned
new-live = refl

parts-differ : codes "u1.part" ≢ codes "u2.part"
unfolding text_eq
parts-differ = λ e. cc ((text_eq_iff (codes "u1.part") (codes "u2.part")).1 e)

new-Spared : Spared 50 100 (codes "u2.part") service.rows
unfolding is_abandoned
new-Spared = ((λ _. parts-differ), ((λ h. absurd cc), tt))
