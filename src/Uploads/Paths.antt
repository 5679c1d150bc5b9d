-- ===== src/Uploads/Paths.antt =====
-- `sanitizeRelativePath` in modules/uploads/paths.ts: which relative paths a client may name.
-- `to_lower` is `toLowerCase`, whose tables are Unicode's.
pub mod Segments
pub mod Safety
pub mod Stability
mod Tests
use local_cast.Base.{
  ℕ, Bool, true, false, not, ◌&&◌, ◌||◌, List, [], ◌∷◌, ◌++◌, Text, codes, text_eq, includes,
  starts_with, leb, ◌==◌, if◌then◌else◌, Result, ok, err, ◌>>=◌, ◌>>◌, throw_if,
}
use local_cast.Contract.Errors.{plain, path_escapes_root, bad_request}
use local_cast.Js.{split}

reserved_names : List Text
reserved_names =
    codes "con"
    ∷ codes "prn"
    ∷ codes "aux"
    ∷ codes "nul"
    ∷ codes "com1"
    ∷ codes "com2"
    ∷ codes "com3"
    ∷ codes "com4"
    ∷ codes "com5"
    ∷ codes "com6"
    ∷ codes "com7"
    ∷ codes "com8"
    ∷ codes "com9"
    ∷ codes "lpt1"
    ∷ codes "lpt2"
    ∷ codes "lpt3"
    ∷ codes "lpt4"
    ∷ codes "lpt5"
    ∷ codes "lpt6"
    ∷ codes "lpt7"
    ∷ codes "lpt8"
    ∷ codes "lpt9"
    ∷ []

is_one_of : List Text → Text → Bool
unfolding text_eq
is_one_of [] name = false
is_one_of (w ∷ ws) name = text_eq w name || is_one_of ws name

-- `RESERVED.has(stem)`
pub is_reserved : Text → Bool
unfolding is_one_of reserved_names
is_reserved stem = is_one_of reserved_names stem

-- `input.replace(/\\/g, '/')`
pub slashes : Text → Text
slashes [] = []
slashes (c ∷ s) = (if c == 92 then b'/' else c) ∷ slashes s

pub is_letter : ℕ → Bool
is_letter c = leb b'a' c && leb c b'z' || leb b'A' c && leb c b'Z'

-- `/^[a-zA-Z]:/`
pub has_drive : Text → Bool
unfolding is_letter
has_drive (c ∷ d ∷ s) = is_letter c && d == b':'
has_drive _ = false

pub is_absolute : Text → Bool
unfolding has_drive starts_with
is_absolute path = has_drive path || starts_with path (codes "/") || starts_with path (codes "//")

-- `.filter((segment) => segment.length > 0)`
pub drop_empty : List Text → List Text
drop_empty [] = []
drop_empty ([] ∷ ws) = drop_empty ws
drop_empty ((c ∷ w) ∷ ws) = (c ∷ w) ∷ drop_empty ws

-- `/[<>"|?*]/`
pub is_forbidden : ℕ → Bool
is_forbidden c = c == b'<' || c == b'>' || c == b'"' || c == b'|' || c == b'?' || c == b'*'

pub has_forbidden : Text → Bool
unfolding is_forbidden
has_forbidden [] = false
has_forbidden (c ∷ s) = is_forbidden c || has_forbidden s

abbrev cons_or_drop : ℕ → Text → Text
cons_or_drop c [] = if c == b'.' || c == 32 then [] else c ∷ []
cons_or_drop c (d ∷ s) = c ∷ d ∷ s

-- `segment.replace(/[. ]+$/, '')`
pub strip_end : Text → Text
strip_end [] = []
strip_end (c ∷ s) = cons_or_drop c (strip_end s)

-- `segment.split('.')[0]`
pub stem_of : Text → Text
stem_of [] = []
stem_of (c ∷ s) = let rest = stem_of s in if c == b'.' then [] else c ∷ rest

-- `segments.join('/')`
pub join_slash : List Text → Text
join_slash [] = []
join_slash (w ∷ []) = w
join_slash (w ∷ v ∷ ws) = w ++ (b'/' ∷ join_slash (v ∷ ws))

abbrev pub is_nil : List Text → Bool
is_nil [] = true
is_nil (w ∷ ws) = false

module _ (to_lower : Text → Text) where
  -- The body of the loop over the segments.
  pub check_segment : Text → Result (Unit {0})
  unfolding text_eq includes has_forbidden strip_end is_reserved stem_of
  check_segment w = do
    throw_if (text_eq w (codes ".") || text_eq w (codes "..")) (plain path_escapes_root)
    throw_if (includes b':' w) (plain path_escapes_root)
    throw_if (has_forbidden w) (plain bad_request)
    throw_if (not (text_eq w (strip_end w))) (plain bad_request)
    throw_if (is_reserved (to_lower (stem_of w))) (plain bad_request)

  pub check_segments : List Text → Result (Unit {0})
  unfolding check_segment
  check_segments [] = ok tt
  check_segments (w ∷ ws) = do check_segment w; check_segments ws

  -- The function behind the split.
  pub join_checked : List Text → Result Text
  unfolding check_segments join_slash
  join_checked ws = do
    throw_if (is_nil ws) (plain bad_request)
    check_segments ws
    ok (join_slash ws)

  pub sanitize_relative_path : Text → Result Text
  unfolding includes slashes is_absolute drop_empty split join_checked
  sanitize_relative_path input = do
    throw_if (includes 0 input) (plain path_escapes_root)
    throw_if (is_absolute (slashes input)) (plain path_escapes_root)
    join_checked (drop_empty (split b'/' (slashes input)))
