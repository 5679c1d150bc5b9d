-- ===== src/Library.antt =====
-- apps/server/src/library/resolver.ts: `stripLongPathPrefix`, `splitSegments` and `isInsideRoot`, which
-- decide whether a path lies in a shared folder. `windows` is IS_WINDOWS and `lower` is `toLowerCase`.
pub mod Containment
mod Tests
pub mod Permissions
pub mod RelPath
pub mod Resolver
use local_cast.Base.{
  ℕ, Bool, true, false, ◌&&◌, ◌||◌, List, [], ◌∷◌, ◌++◌, Text, codes, text_eq, starts_with, ltb,
  ◌==◌, if◌then◌else◌, length, drop,
}

pub strip_long_path_prefix : Text → Text
unfolding starts_with
strip_long_path_prefix p =
    if starts_with p (codes "\\\\?\\UNC\\")
    then 92 ∷ 92 ∷ drop 8 p
    else if starts_with p (codes "\\\\?\\")
    then drop 4 p
    else p

pub is_separator : ℕ → Bool
is_separator c = c == 92 || c == b'/'

abbrev pub add_to_first : ℕ → List Text → List Text
add_to_first c [] = (c ∷ []) ∷ []
add_to_first c (w ∷ ws) = (c ∷ w) ∷ ws

-- `.split(/[\\/]+/)`, with an empty segment for each further separator of a run
pub split_separators : Text → List Text
unfolding is_separator
split_separators [] = [] ∷ []
split_separators (c ∷ s) =
    let rest = split_separators s in if is_separator c then [] ∷ rest else add_to_first c rest

-- `.filter((s) => s.length > 0)`
pub filled_segments : List Text → List Text
filled_segments [] = []
filled_segments ([] ∷ ws) = filled_segments ws
filled_segments ((c ∷ w) ∷ ws) = (c ∷ w) ∷ filled_segments ws

pub split_segments : Text → List Text
unfolding strip_long_path_prefix split_separators filled_segments
split_segments p = filled_segments (split_separators (strip_long_path_prefix p))

module _ (windows : Bool) (lower : Text → Text) where
  pub same_segment : Text → Text → Bool
  unfolding text_eq
  same_segment a b = if windows then text_eq (lower a) (lower b) else text_eq a b

  -- The loop over the segments of the root; the candidate has as many.
  pub same_front : List Text → List Text → Bool
  unfolding same_segment
  same_front [] c = true
  same_front (a ∷ r) [] = false
  same_front (a ∷ r) (b ∷ c) = same_segment a b && same_front r c

  pub inside_segments : List Text → List Text → Bool
  unfolding same_front
  inside_segments [] c = false
  inside_segments (a ∷ r) c =
      if ltb (length c) (length (a ∷ r)) then false else same_front (a ∷ r) c

  pub is_inside_root : Text → Text → Bool
  unfolding inside_segments split_segments
  is_inside_root root candidate = inside_segments (split_segments root) (split_segments candidate)
