-- ===== src/Pairing/Approval/Grants.antt =====
-- apps/server/src/auth/pairing.ts: an approval grants what the code was minted with, and no more.
use local_cast.Base.{List, [], ◌∷◌, Option, none, some, Text, text_eq, if◌then◌else◌}
use local_cast.Contract.Permissions.{AccessMode}
use local_cast.Library.Permissions.{FolderRow}

-- What a list of permissions makes of the mode of a folder: the last that names it counts.
abbrev pub mode_in : Text → List (Text × AccessMode) → Option AccessMode → Option AccessMode
mode_in folder [] old = old
mode_in folder ((f, mode) ∷ perms) old =
    mode_in folder perms (if text_eq f folder then some mode else old)

abbrev pub if_there : Option FolderRow → Option AccessMode → Option AccessMode → Option AccessMode
if_there none new old = old
if_there (some f) new old = new
