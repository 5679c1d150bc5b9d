-- ===== src/Sets.antt =====
-- A `Set` of strings: a list of its members.
use local_cast.Base.{Bool, false, ◌||◌, List, [], ◌∷◌, Text, text_eq, if◌then◌else◌}

unfoldable pub has : Text → List Text → Bool
has id [] = false
has id (j ∷ js) = text_eq j id || has id js

-- `delete`
unfoldable pub without : Text → List Text → List Text
without id [] = []
without id (j ∷ js) = let rest = without id js in if text_eq j id then rest else j ∷ rest
