-- ===== src/Library/Resolver/Inside.antt =====
-- apps/server/src/library/resolver.ts: a path that is resolved lies in its folder.
use local_cast.Base.{◌≡◌, ◌≢◌, List, [], Text, ok}
use local_cast.Library.{strip_long_path_prefix, split_segments}
use local_cast.Library.Containment.{IsFront}
use local_cast.Library.RelPath.Safety.{AllSafe}
use local_cast.Library.Resolver.{SharedFolder, Platform, real_root, with_long_path_prefix}

module _ (p : Platform) where
  -- A path lies in a folder: the real path behind it begins with the segments of the real path of
  -- the folder, and the segments that the client has named are safe.
  pub record IsInside (folder : SharedFolder) (abs_path : Text) (segments : List Text)
      : Type 0 where
    pub root_real : Text
    pub real_path : Text
    pub root_found : real_root p (strip_long_path_prefix folder.path) ≡ ok root_real
    pub absolute : abs_path ≡ with_long_path_prefix p real_path
    pub front :
        IsFront p.windows p.lower
          (split_segments (strip_long_path_prefix root_real))
          (split_segments real_path)
    pub rooted : split_segments (strip_long_path_prefix root_real) ≢ []
    pub safe : AllSafe p.upper segments
