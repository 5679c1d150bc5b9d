-- ===== src/Library/Tests.antt =====
-- Paths in and beside a shared folder, and the theorems on isInsideRoot at some of them.
use local_cast.Base.{◌≡◌, ◌≢◌, ◌↔◌, refl, true, false, [], Text, codes}
use local_cast.Library.{split_segments, is_inside_root}
use local_cast.Library.Containment.{IsFront, is_inside_root_iff}

-- `toLowerCase` on names of small letters.
abbrev lower : Text → Text
lower s = s

inside-film : is_inside_root true lower (codes "c:\\media") (codes "c:/media/films") ≡ true
unfolding is_inside_root
inside-film = refl

film-file :
    is_inside_root true lower (codes "c:/media/films") (codes "c:\\media\\films\\a.mkv") ≡ true
unfolding is_inside_root
film-file = refl

beside : is_inside_root true lower (codes "c:\\media") (codes "c:\\media2\\a") ≡ false
unfolding is_inside_root
beside = refl

is_inside_root_iff_example :
    (is_inside_root true lower (codes "c:\\media") (codes "c:/media/films") ≡ true) ↔ (
      (split_segments (codes "c:\\media") ≢ [])
      × IsFront true lower
          (split_segments (codes "c:\\media"))
          (split_segments (codes "c:/media/films")))
is_inside_root_iff_example =
    is_inside_root_iff true lower (codes "c:\\media") (codes "c:/media/films")
