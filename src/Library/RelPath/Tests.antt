-- ===== src/Library/RelPath/Tests.antt =====
-- Relative paths that are let through and that are not, and the theorem on them at one.
use local_cast.Base.{
  ◌≡◌, refl, true, [], ◌∷◌, Option, none, some, Text, codes, text_eq, if◌then◌else◌, includes, ok,
  err,
}
use local_cast.Contract.Errors.{plain, path_escapes_root}
use local_cast.Library.RelPath.{sanitise_rel_path}
use local_cast.Library.RelPath.Safety.{AllSafe, decoded_segments, sanitise_rel_path-AllSafe}

-- `toUpperCase` on names of capital letters.
abbrev same : Text → Text
same s = s

-- `decodeURIComponent` on the paths below.
abbrev decode : Text → Option Text
decode s =
    if text_eq s (codes "A%20B/C.TXT")
    then some (codes "A B/C.TXT")
    else if text_eq s (codes "A/%2E%2E/B")
    then some (codes "A/../B")
    else none

spaced :
    sanitise_rel_path same decode (codes "A%20B/C.TXT") ≡ ok (codes "A%20B" ∷ codes "C.TXT" ∷ [])
unfolding sanitise_rel_path
spaced = refl

folder_itself : sanitise_rel_path same decode [] ≡ ok []
unfolding sanitise_rel_path
folder_itself = refl

upwards : sanitise_rel_path same decode (codes "A/../B") ≡ err (plain path_escapes_root)
unfolding sanitise_rel_path
upwards = refl

upwards_encoded : sanitise_rel_path same decode (codes "A/%2E%2E/B") ≡ err (plain path_escapes_root)
unfolding sanitise_rel_path
upwards_encoded = refl

malformed : sanitise_rel_path same decode (codes "A%zz") ≡ ok (codes "A%zz" ∷ [])
unfolding sanitise_rel_path
malformed = refl

absolute : sanitise_rel_path same decode (codes "\\\\HOST\\A") ≡ err (plain path_escapes_root)
unfolding sanitise_rel_path
absolute = refl

alternate : sanitise_rel_path same decode (codes "A.TXT::$DATA") ≡ err (plain path_escapes_root)
unfolding sanitise_rel_path
alternate = refl

loose : sanitise_rel_path same decode (codes "A. ") ≡ err (plain path_escapes_root)
unfolding sanitise_rel_path
loose = refl

console : sanitise_rel_path same decode (codes "LOGS/CON.TXT") ≡ err (plain path_escapes_root)
unfolding sanitise_rel_path
console = refl

sanitise_rel_path-AllSafe_example :
    AllSafe same (codes "A%20B" ∷ codes "C.TXT" ∷ [])
    × (includes b'%' (codes "A%20B/C.TXT") ≡ true
        → AllSafe same (decoded_segments same (decode (codes "A%20B/C.TXT"))))
sanitise_rel_path-AllSafe_example =
    sanitise_rel_path-AllSafe same decode (codes "A%20B/C.TXT") (codes "A%20B" ∷ codes "C.TXT" ∷ [])
      spaced
