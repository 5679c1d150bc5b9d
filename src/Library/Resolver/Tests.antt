-- ===== src/Library/Resolver/Tests.antt =====
-- A shared folder on Windows with a junction in it, and the theorem on resolved paths in it.
use local_cast.Base.{
  ◌≡◌, refl, true, false, List, [], ◌∷◌, none, Text, codes, text_eq, if◌then◌else◌, ok, err,
}
use local_cast.Contract.Errors.{
  plain, not_found, path_escapes_root, folder_unavailable, upload_not_allowed,
}
use local_cast.Library.Resolver.{
  SharedFolder, RealPath, real, no_entry, Stat, regular, directory, ResolvedFile, Platform,
  join_with, resolve, resolve_by_id, resolve_writable,
}

abbrev same : Text → Text
same s = s

abbrev joined : Text → List Text → Text
joined s ws = join_with (codes "\\") (s ∷ ws)

-- `c:\m\win` is a junction to `c:\windows`, and there is nothing at `c:\m\new.txt` and behind
-- `c:\m\win`.
abbrev real_of : Text → RealPath
real_of s =
    if text_eq s (codes "\\\\?\\c:\\m\\win")
    then real (codes "\\\\?\\c:\\windows")
    else if text_eq s (codes "\\\\?\\c:\\m\\new.txt")
    then no_entry
    else if text_eq s (codes "\\\\?\\c:\\m\\win\\new.txt")
    then no_entry
    else real s

abbrev stat_of : Text → Stat
stat_of s = if text_eq s (codes "\\\\?\\c:\\m\\a.mkv") then regular 7 else directory

abbrev platform : Platform
platform = record {
  windows = true;
  lower = same;
  upper = same;
  decode = λ s. none;
  fs = record { realpath = real_of; stat = stat_of; resolve = joined; join = joined };
}

abbrev films : SharedFolder
films = record {
  id = codes "f";
  path = codes "c:\\m";
  label = codes "Films";
  writable = true;
  enabled = true;
  available = true;
}

abbrev sealed : SharedFolder
sealed = record {
  id = codes "s";
  path = codes "c:\\m";
  label = codes "Sealed";
  writable = false;
  enabled = true;
  available = false;
}

abbrev folders : List (Text × SharedFolder)
folders = (codes "f", films) ∷ (codes "s", sealed) ∷ []

abbrev film : ResolvedFile
film = record {
  folder_id = codes "f";
  abs_path = codes "\\\\?\\c:\\m\\a.mkv";
  rel_path = codes "a.mkv";
  name = codes "a.mkv";
  size = 7;
  is_dir = false;
}

a_film : resolve platform folders (codes "f") (codes "a.mkv") ≡ ok film
unfolding resolve
a_film = refl

by_id :
    resolve_by_id platform folders
      ((codes "1", record { folder_id = codes "f"; rel_path = codes "a.mkv" }) ∷ [])
      (codes "1")
    ≡ ok film
unfolding resolve_by_id
by_id = refl

a_junction : resolve platform folders (codes "f") (codes "win") ≡ err (plain path_escapes_root)
unfolding resolve
a_junction = refl

behind_the_junction :
    resolve_writable platform folders (codes "f") (codes "win/new.txt")
    ≡ err (plain path_escapes_root)
unfolding resolve_writable
behind_the_junction = refl

a_new_file :
    resolve_writable platform folders (codes "f") (codes "new.txt")
    ≡ ok (codes "\\\\?\\c:\\m\\new.txt")
unfolding resolve_writable
a_new_file = refl

no_name : resolve_writable platform folders (codes "f") [] ≡ err (plain path_escapes_root)
unfolding resolve_writable
no_name = refl

not_shared : resolve platform folders (codes "g") (codes "a.mkv") ≡ err (plain not_found)
unfolding resolve
not_shared = refl

unplugged : resolve platform folders (codes "s") (codes "a.mkv") ≡ err (plain folder_unavailable)
unfolding resolve
unplugged = refl

read_only :
    resolve_writable platform folders (codes "s") (codes "a.mkv") ≡ err (plain upload_not_allowed)
unfolding resolve_writable
read_only = refl
