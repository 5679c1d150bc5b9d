-- ===== src/Library/RelPath.antt =====
-- apps/server/src/library/resolver.ts: `sanitiseRelPath`, which relative paths a client may name.
-- `upper` is `toUpperCase`, and `decode` is `decodeURIComponent` where it does not throw.
pub mod Safety
mod Tests
use local_cast.Base.{
  ℕ, zero, suc, ◌-◌, Bool, true, false, not, ◌&&◌, ◌||◌, List, [], ◌∷◌, ◌++◌, Option, none, some,
  Text, codes, text_eq, includes, starts_with, ltb, leb, ◌==◌, if◌then◌else◌, length, take, drop,
  Result, ok, err, ◌>>=◌, ◌>>◌, throw_if,
}
use local_cast.Contract.Errors.{
  plain, not_found, folder_unavailable, path_escapes_root, upload_not_allowed, internal,
}
use local_cast.Library.{
  strip_long_path_prefix, split_separators, filled_segments, split_segments, is_inside_root,
}
use local_cast.Maps.{get}
use local_cast.Sets.{has}

reserved : List Text
reserved =
    codes "CON"
    ∷ codes "PRN"
    ∷ codes "AUX"
    ∷ codes "NUL"
    ∷ codes "CONIN$"
    ∷ codes "CONOUT$"
    ∷ codes "CLOCK$"
    ∷ codes "COM1"
    ∷ codes "COM2"
    ∷ codes "COM3"
    ∷ codes "COM4"
    ∷ codes "COM5"
    ∷ codes "COM6"
    ∷ codes "COM7"
    ∷ codes "COM8"
    ∷ codes "COM9"
    ∷ codes "LPT1"
    ∷ codes "LPT2"
    ∷ codes "LPT3"
    ∷ codes "LPT4"
    ∷ codes "LPT5"
    ∷ codes "LPT6"
    ∷ codes "LPT7"
    ∷ codes "LPT8"
    ∷ codes "LPT9"
    ∷ []

pub is_reserved : Text → Bool
unfolding has reserved
is_reserved stem = has stem reserved

unfoldable pub is_letter : ℕ → Bool
is_letter c = leb b'a' c && leb c b'z' || leb b'A' c && leb c b'Z'

-- `/^[a-zA-Z]:/`
pub has_drive : Text → Bool
unfolding is_letter
has_drive (c ∷ d ∷ s) = is_letter c && d == b':'
has_drive _ = false

-- `/[:*?<>|"]/`
pub is_illegal : ℕ → Bool
is_illegal c =
    c == b':' || c == b'*' || c == b'?' || c == b'<' || c == b'>' || c == b'|' || c == b'"'

pub has_illegal : Text → Bool
unfolding is_illegal
has_illegal [] = false
has_illegal (c ∷ s) = is_illegal c || has_illegal s

pub has_control : Text → Bool
has_control [] = false
has_control (c ∷ s) = ltb c 32 || has_control s

-- `/[. ]$/`
pub ends_loose : Text → Bool
ends_loose [] = false
ends_loose (c ∷ []) = c == b'.' || c == 32
ends_loose (c ∷ d ∷ s) = ends_loose (d ∷ s)

-- `raw.split('.')[0]`
pub stem_of : Text → Text
stem_of [] = []
stem_of (c ∷ s) = let rest = stem_of s in if c == b'.' then [] else c ∷ rest

-- `.split(/[\\/]+/)` without the empty segments
pub segments_of : Text → List Text
unfolding split_separators filled_segments
segments_of s = filled_segments (split_separators s)

module _ (upper : Text → Text) where
  -- The body of the loop over the segments.
  pub check_part : Text → Result (Unit {0})
  unfolding text_eq has_illegal has_control ends_loose is_reserved stem_of
  check_part w = do
    throw_if (text_eq w (codes ".") || text_eq w (codes "..")) (plain path_escapes_root)
    throw_if (has_illegal w) (plain path_escapes_root)
    throw_if (has_control w) (plain path_escapes_root)
    throw_if (ends_loose w) (plain path_escapes_root)
    throw_if (is_reserved (upper (stem_of w))) (plain path_escapes_root)

  pub check_parts : List Text → Result (Unit {0})
  unfolding check_part
  check_parts [] = ok tt
  check_parts (w ∷ ws) = do check_part w; check_parts ws

  -- One of the two forms of the path.
  pub check_form : Text → Result (Unit {0})
  unfolding includes starts_with has_drive check_parts segments_of
  check_form form = do
    throw_if (includes 0 form) (plain path_escapes_root)
    throw_if (starts_with form (codes "/") || starts_with form (codes "\\"))
        (plain path_escapes_root)
    throw_if (has_drive form) (plain path_escapes_root)
    check_parts (segments_of form)

  -- The decoded form, if there is one and it differs.
  pub check_decoded : Text → Option Text → Result (Unit {0})
  unfolding check_form text_eq
  check_decoded input none = ok tt
  check_decoded input (some decoded) = if text_eq decoded input then ok tt else check_form decoded

  unfoldable pub sanitise_rel_path : (Text → Option Text) → Text → Result (List Text)
  unfolding includes check_form check_decoded segments_of
  sanitise_rel_path decode input = do
    throw_if (includes 0 input) (plain path_escapes_root)
    check_form input
    if includes b'%' input then check_decoded input (decode input) else ok tt
    ok (segments_of input)
