-- ===== src/Range/Parsing.antt =====
-- What parseRangeHeader of http/range.ts accepts, and the range that it returns.
use local_cast.Base.{
  ℕ, ◌≤◌, ◌<◌, ◌≡◌, ◌≢◌, Bool-cases, Option-cases, inl, inr, List, [], ◌∷◌, Option, none, some,
  Text, arith, map,
}
use local_cast.Js.{trim, split, number}
use local_cast.Range.{
  RangeParse, ignore, single, suffix_range, from_range, spec_range, match_spec, parse_spec,
  parse_specs, has_empty, parse_group, match_unit, parse_range_header,
}

-- A range that a file of this size has.
abbrev pub IsSatisfiable : ℕ → RangeParse → Type 0
IsSatisfiable size (single r) = (r.start ≤ r.end) × (r.end < size)
IsSatisfiable size _ = Unit {0}

suffix_range-IsSatisfiable : (n size : ℕ) → size ≢ 0 → IsSatisfiable size (suffix_range n size)
unfolding suffix_range
suffix_range-IsSatisfiable n size h = ground arith

from_range-IsSatisfiable :
    (start : ℕ) (last : Text) (size : ℕ)
    → size ≢ 0
    → IsSatisfiable size (from_range start last size)
unfolding from_range
from_range-IsSatisfiable start [] size h = ground arith
from_range-IsSatisfiable start (c ∷ last) size h = ground arith

spec_range-IsSatisfiable :
    (first last : Text) (size : ℕ) → IsSatisfiable size (spec_range first last size)
unfolding spec_range
spec_range-IsSatisfiable [] [] size = tt
spec_range-IsSatisfiable [] (c ∷ last) size =
    ground (arith, suffix_range-IsSatisfiable (number (c ∷ last)) size)
spec_range-IsSatisfiable (d ∷ first) last size =
    ground (arith, from_range-IsSatisfiable (number (d ∷ first)) last size)

pub parse_spec-none :
    (spec : Text) (size : ℕ) → match_spec spec ≡ none → parse_spec spec size ≡ ignore
unfolding parse_spec
parse_spec-none spec size e = rw (e, parse_spec)

pub parse_spec-some :
    (spec first last : Text) (size : ℕ)
    → match_spec spec ≡ some (first, last)
    → parse_spec spec size ≡ spec_range first last size
unfolding parse_spec
parse_spec-some spec first last size e = rw (e, parse_spec)

parse_spec-IsSatisfiable : (spec : Text) (size : ℕ) → IsSatisfiable size (parse_spec spec size)
parse_spec-IsSatisfiable spec size = elim (Option-cases (match_spec spec)) [
  | inl e ↦ rw (parse_spec-none spec size e) tt
  | inr ((first, last), e) ↦
      rw (parse_spec-some spec first last size e) (spec_range-IsSatisfiable first last size)
]

parse_specs-IsSatisfiable :
    (specs : List Text) (size : ℕ) → IsSatisfiable size (parse_specs specs size)
unfolding parse_specs
parse_specs-IsSatisfiable [] size = tt
parse_specs-IsSatisfiable (spec ∷ []) size = parse_spec-IsSatisfiable spec size
parse_specs-IsSatisfiable (spec ∷ other ∷ specs) size = tt

parse_group-IsSatisfiable : (group : Text) (size : ℕ) → IsSatisfiable size (parse_group group size)
unfolding parse_group
parse_group-IsSatisfiable group size = elim (Bool-cases (has_empty (map trim (split b',' group)))) [
  | inl e ↦ rw e tt
  | inr e ↦ rw e (parse_specs-IsSatisfiable (map trim (split b',' group)) size)
]

pub parse_header_none :
    (c : ℕ) (s : Text) (size : ℕ)
    → match_unit (trim (c ∷ s)) ≡ none
    → parse_range_header (some (c ∷ s)) size ≡ ignore
unfolding parse_range_header
parse_header_none c s size e = rw (e, parse_range_header)

pub parse_header_some :
    (c : ℕ) (s group : Text) (size : ℕ)
    → match_unit (trim (c ∷ s)) ≡ some group
    → parse_range_header (some (c ∷ s)) size ≡ parse_group group size
unfolding parse_range_header
parse_header_some c s group size e = rw (e, parse_range_header)

-- Whatever the header, a single range that is returned lies inside the file: it begins at or before
-- its end, and ends before the file does.
pub parse_range_header-IsSatisfiable :
    (header : Option Text) (size : ℕ) → IsSatisfiable size (parse_range_header header size)
unfolding parse_range_header
parse_range_header-IsSatisfiable none size = tt
parse_range_header-IsSatisfiable (some []) size = tt
parse_range_header-IsSatisfiable (some (c ∷ s)) size =
    elim (Option-cases (match_unit (trim (c ∷ s)))) [
      | inl e ↦ rw (parse_header_none c s size e) tt
      | inr (group, e) ↦
          rw (parse_header_some c s group size e) (parse_group-IsSatisfiable group size)
    ]
