-- ===== src/Range.antt =====
-- apps/server/src/http/range.ts: parsing of the Range header (the response is in Serve.antt).
pub mod Format
pub mod Parsing
pub mod Dav
mod Tests
use mathlib.Core.List.{reverse}
use local_cast.Base.{
  ℕ, ◌+◌, ◌-◌, max, min, Bool, true, false, not, ◌&&◌, ◌||◌, List, [], ◌∷◌, ◌++◌, map, Option, none,
  some, Text, codes, text_eq, starts_with, leb, ltb, ◌==◌, if◌then◌else◌, length,
}
use local_cast.Contract.Errors.{
  ErrorCode, bad_request, not_found, download_not_allowed, range_not_satisfiable,
}
use local_cast.Contract.Permissions.{AccessMode}
use local_cast.Js.{skip_spaces, trim, split, span_digits, number, decimal, is_safe_integer}

pub record ParsedRange : Type 0 where
  pub start : ℕ
  pub end : ℕ

pub data RangeParse : Type 0 where
  absent ignore multiple unsatisfiable : RangeParse
  single : ParsedRange → RangeParse

lower : ℕ → ℕ
lower c = if leb b'A' c && leb c b'Z' then c + 32 else c

-- The rest of `s` behind `word`, in any case.
strip_word : Text → Text → Option Text
unfolding lower
strip_word [] s = some s
strip_word (w ∷ word) [] = none
strip_word (w ∷ word) (c ∷ s) = if lower c == w then strip_word word s else none

is_line_end : ℕ → Bool
is_line_end c = c == 10 || c == 13 || c == 8232 || c == 8233

one_line : Text → Bool
unfolding is_line_end
one_line [] = true
one_line (c ∷ s) = not (is_line_end c) && one_line s

-- `\s*(.+)$`, on a text that does not end in a space.
group_of : Text → Option Text
unfolding skip_spaces one_line
group_of s = elim (skip_spaces s) [
  | [] ↦ none
  | c ∷ r ↦ if one_line (c ∷ r) then some (c ∷ r) else none
]

after_equals : Text → Option Text
unfolding group_of
after_equals [] = none
after_equals (c ∷ s) = if c == b'=' then group_of s else none

-- `/^bytes\s*=\s*(.+)$/i` on the trimmed header: the text of the group
pub match_unit : Text → Option Text
unfolding strip_word skip_spaces after_equals
match_unit s = elim (strip_word (codes "bytes") s) [
  | none ↦ none
  | some r ↦ after_equals (skip_spaces r)
]

closing_digits : Text → Text × Text → Option (Text × Text)
closing_digits first (last, []) = some (first, last)
closing_digits first (last, c ∷ r) = none

dash_digits : Text × Text → Option (Text × Text)
unfolding closing_digits span_digits
dash_digits (first, []) = none
dash_digits (first, c ∷ s) = if c == b'-' then closing_digits first (span_digits s) else none

-- `/^(\d*)-(\d*)$/`: the texts of the two groups
pub match_spec : Text → Option (Text × Text)
unfolding span_digits dash_digits
match_spec s = dash_digits (span_digits s)

abbrev range_of : ℕ → ℕ → RangeParse
range_of a b = single (record { start = a; end = b })

-- `bytes=-n`
suffix_range : ℕ → ℕ → RangeParse
suffix_range suffix size =
    if not (is_safe_integer suffix) || leb suffix 0
    then unsatisfiable
    else range_of (max 0 (size - suffix)) (size - 1)

bounded_range : ℕ → ℕ → ℕ → RangeParse
bounded_range start last size =
    if not (is_safe_integer last)
    then unsatisfiable
    else if ltb last start
    then unsatisfiable
    else range_of start (min last (size - 1))

from_range : ℕ → Text → ℕ → RangeParse
unfolding bounded_range
from_range start [] size =
    if not (is_safe_integer start) || leb size start
    then unsatisfiable
    else range_of start (size - 1)
from_range start (c ∷ last) size =
    if not (is_safe_integer start) || leb size start
    then unsatisfiable
    else bounded_range start (number (c ∷ last)) size

pub spec_range : Text → Text → ℕ → RangeParse
unfolding suffix_range from_range
spec_range [] [] size = ignore
spec_range [] (c ∷ last) size =
    if size == 0 then unsatisfiable else suffix_range (number (c ∷ last)) size
spec_range (d ∷ first) last size =
    if size == 0 then unsatisfiable else from_range (number (d ∷ first)) last size

pub parse_spec : Text → ℕ → RangeParse
unfolding match_spec spec_range
parse_spec spec size = elim (match_spec spec) [
  | none ↦ ignore
  | some (first, last) ↦ spec_range first last size
]

has_empty : List Text → Bool
has_empty [] = false
has_empty ([] ∷ specs) = true
has_empty ((c ∷ s) ∷ specs) = has_empty specs

parse_specs : List Text → ℕ → RangeParse
unfolding parse_spec
parse_specs [] size = ignore
parse_specs (spec ∷ []) size = parse_spec spec size
parse_specs (spec ∷ other ∷ specs) size = multiple

pub parse_group : Text → ℕ → RangeParse
unfolding has_empty parse_specs split trim
parse_group group size =
    let specs = map trim (split b',' group) in
    if has_empty specs then ignore else parse_specs specs size

-- No header and an empty one are both falsy.
pub parse_range_header : Option Text → ℕ → RangeParse
unfolding match_unit parse_group trim
parse_range_header none size = absent
parse_range_header (some []) size = absent
parse_range_header (some (c ∷ s)) size = elim (match_unit (trim (c ∷ s))) [
  | none ↦ ignore
  | some group ↦ parse_group group size
]
