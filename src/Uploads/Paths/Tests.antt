-- ===== src/Uploads/Paths/Tests.antt =====
-- Relative paths that phones send, good and bad, and the theorems on sanitizeRelativePath at one.
use local_cast.Base.{◌≡◌, ◌≢◌, refl, List, [], Text, codes, ok, err}
use local_cast.Contract.Errors.{plain, path_escapes_root, bad_request}
use local_cast.Uploads.Paths.{sanitize_relative_path, join_slash}
use local_cast.Uploads.Paths.Safety.{AllSafe, sanitize-AllSafe}

-- `toLowerCase` on names of small letters.
abbrev to_lower : Text → Text
to_lower s = s

cleaned : sanitize_relative_path to_lower (codes "a\\b//c.jpg") ≡ ok (codes "a/b/c.jpg")
unfolding sanitize_relative_path
cleaned = refl

climbing : sanitize_relative_path to_lower (codes "a/../b") ≡ err (plain path_escapes_root)
unfolding sanitize_relative_path
climbing = refl

console : sanitize_relative_path to_lower (codes "a/con.txt") ≡ err (plain bad_request)
unfolding sanitize_relative_path
console = refl

sanitize-AllSafe_example :
    (ws : List Text) × (ws ≢ []) × AllSafe to_lower ws × (codes "a/b/c.jpg" ≡ join_slash ws)
sanitize-AllSafe_example =
    sanitize-AllSafe to_lower (codes "a\\b//c.jpg") (codes "a/b/c.jpg") cleaned
