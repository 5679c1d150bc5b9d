-- ===== src/Range/Dav.antt =====
-- `parseRangeHeader` of apps/server/src/modules/webdav/range.ts, WebDAV's own parser, and how it agrees
-- with the one of http/range.ts. The two regular expressions are the same. A number above the safe
-- integers is rounded in the program, which no comparison with a file's size can tell.
use mathlib.Core.Path.{subst}
use local_cast.Base.{
  ℕ, ◌-◌, ◌^◌, ◌≤◌, ◌<◌, ◌≡◌, refl, max, Bool, true, false, not, ◌||◌, Bool-cases, Option-cases,
  inl, inr, List, [], ◌∷◌, map, Option, none, some, Text, arith, leb, ltb, ◌==◌, if◌then◌else◌,
}
use local_cast.Js.{trim, split, number, is_safe_integer}
use local_cast.Range.{
  ParsedRange, RangeParse, ignore, single, match_unit, match_spec, suffix_range, bounded_range,
  from_range, spec_range, parse_spec, has_empty, parse_specs, parse_group, parse_range_header,
}
use local_cast.Range.Parsing.{
  parse_spec-none, parse_spec-some, parse_header_none, parse_header_some,
}

pub data DavRange : Type 0 where
  absent full unsatisfiable : DavRange
  range : ℕ → ℕ → DavRange

-- `Number.isFinite` of the number that a run of digits is read as: from this bound on it is rounded
-- to Infinity.
is_finite : ℕ → Bool
is_finite n = ltb n (2 ^ 1024 - 2 ^ 970)

dav_suffix : ℕ → ℕ → DavRange
dav_suffix suffix size =
    if not (is_finite suffix) || suffix == 0 || size == 0
    then unsatisfiable
    else range (max 0 (size - suffix)) (size - 1)

dav_end : ℕ → ℕ → ℕ → DavRange
dav_end start end size =
    if ltb end start then absent else range start (if ltb (size - 1) end then size - 1 else end)

dav_last : ℕ → Text → ℕ → DavRange
unfolding dav_end
dav_last start [] size = dav_end start (size - 1) size
dav_last start (c ∷ last) size =
    if not (is_finite (number (c ∷ last))) then absent else dav_end start (number (c ∷ last)) size

dav_spec : Text → Text → ℕ → DavRange
unfolding dav_suffix dav_last
dav_spec [] [] size = absent
dav_spec [] (c ∷ last) size = dav_suffix (number (c ∷ last)) size
dav_spec (d ∷ first) last size =
    if not (is_finite (number (d ∷ first)))
    then absent
    else if leb size (number (d ∷ first))
    then unsatisfiable
    else dav_last (number (d ∷ first)) last size

dav_parts : Option (Text × Text) → ℕ → DavRange
unfolding dav_spec
dav_parts none size = absent
dav_parts (some (first, last)) size = dav_spec first last size

dav_specs : List Text → ℕ → DavRange
unfolding dav_parts match_spec
dav_specs [] size = absent
dav_specs (spec ∷ []) size = dav_parts (match_spec spec) size
dav_specs (spec ∷ other ∷ specs) size = full

dav_group : Option Text → ℕ → DavRange
unfolding dav_specs
dav_group none size = absent
dav_group (some group) size = dav_specs (map trim (split b',' group)) size

pub parse_dav_range : Option Text → ℕ → DavRange
unfolding dav_group match_unit
parse_dav_range none size = absent
parse_dav_range (some []) size = absent
parse_dav_range (some (c ∷ s)) size = dav_group (match_unit (trim (c ∷ s))) size

safe_is_finite : (n : ℕ) → is_safe_integer n ≡ true → is_finite n ≡ true
unfolding is_finite
safe_is_finite n h =
    let small : n ≤ 9_007_199_254_740_991 = ground arith in
    let large : 9_007_199_254_740_991 < 2 ^ 1024 - 2 ^ 970 = omega arith in ground arith

-- What the one parser answers with a range, the other does with the same.
Agrees : RangeParse → DavRange → Type 0
Agrees (single r) d = d ≡ range r.start r.end
Agrees _ d = Unit

dav_suffix-Agrees :
    (suffix size : ℕ)
    → (size == 0) ≡ false
    → Agrees (suffix_range suffix size) (dav_suffix suffix size)
unfolding suffix_range dav_suffix Agrees
dav_suffix-Agrees suffix size some_size = ground (arith, safe_is_finite suffix)

dav_last-Agrees :
    (start : ℕ) (last : Text) (size : ℕ)
    → is_safe_integer start ≡ true
    → leb size start ≡ false
    → Agrees (from_range start last size) (dav_last start last size)
unfolding from_range bounded_range dav_last dav_end Agrees
dav_last-Agrees start [] size safe inside = ground arith
dav_last-Agrees start (c ∷ last) size safe inside =
    ground (arith, safe_is_finite (number (c ∷ last)))

-- The steps of both parsers, one equation each.
module _ (c : ℕ) (s : Text) (size : ℕ) where
  suffix_of_some :
      (size == 0) ≡ false → spec_range [] (c ∷ s) size ≡ suffix_range (number (c ∷ s)) size
  unfolding spec_range
  suffix_of_some e = rw e refl

  suffix_of_empty : (size == 0) ≡ true → spec_range [] (c ∷ s) size ≡ RangeParse.unsatisfiable
  unfolding spec_range
  suffix_of_empty e = rw e refl

  from_of_some :
      (last : Text)
      → (size == 0) ≡ false
      → spec_range (c ∷ s) last size ≡ from_range (number (c ∷ s)) last size
  unfolding spec_range
  from_of_some last e = rw e refl

  from_of_empty :
      (last : Text) → (size == 0) ≡ true → spec_range (c ∷ s) last size ≡ RangeParse.unsatisfiable
  unfolding spec_range
  from_of_empty last e = rw e refl

  dav_of_inside :
      (last : Text)
      → is_finite (number (c ∷ s)) ≡ true
      → leb size (number (c ∷ s)) ≡ false
      → dav_spec (c ∷ s) last size ≡ dav_last (number (c ∷ s)) last size
  unfolding dav_spec
  dav_of_inside last e k = rw (e, k) refl

from_outside :
    (start : ℕ) (last : Text) (size : ℕ)
    → (not (is_safe_integer start) || leb size start) ≡ true
    → from_range start last size ≡ RangeParse.unsatisfiable
unfolding from_range
from_outside start [] size e = rw e refl
from_outside start (c ∷ last) size e = rw e refl

from-Agrees :
    (c : ℕ) (s last : Text) (size : ℕ)
    → Agrees (from_range (number (c ∷ s)) last size) (dav_spec (c ∷ s) last size)
unfolding Agrees
from-Agrees c s last size =
    let n = number (c ∷ s) in
    elim (Bool-cases (not (is_safe_integer n) || leb size n)) [
      | inl out ↦ rw (from_outside n last size out) tt
      | inr kept ↦
          let safe : is_safe_integer n ≡ true = ground arith in
          let inside : leb size n ≡ false = ground arith in
          rw (dav_of_inside c s size last (safe_is_finite n safe) inside)
            (dav_last-Agrees n last size safe inside)
    ]

dav_spec_suffix :
    (c : ℕ) (s : Text) (size : ℕ) → dav_spec [] (c ∷ s) size ≡ dav_suffix (number (c ∷ s)) size
unfolding dav_spec
dav_spec_suffix c s size = refl

spec_of_nothing : (size : ℕ) → spec_range [] [] size ≡ ignore
unfolding spec_range
spec_of_nothing size = refl

spec-Agrees :
    (first last : Text) (size : ℕ) → Agrees (spec_range first last size) (dav_spec first last size)
unfolding Agrees
spec-Agrees [] [] size = rw (spec_of_nothing size) tt
spec-Agrees [] (c ∷ last) size = elim (Bool-cases (size == 0)) [
  | inl nil ↦ rw (suffix_of_empty c last size nil) tt
  | inr some_size ↦
      rw (suffix_of_some c last size some_size, dav_spec_suffix c last size)
        (dav_suffix-Agrees (number (c ∷ last)) size some_size)
]
spec-Agrees (c ∷ first) last size = elim (Bool-cases (size == 0)) [
  | inl nil ↦ rw (from_of_empty c first size last nil) tt
  | inr some_size ↦ rw (from_of_some c first size last some_size) (from-Agrees c first last size)
]

parts-Agrees :
    (spec : Text) (size : ℕ) → Agrees (parse_spec spec size) (dav_parts (match_spec spec) size)
unfolding Agrees dav_parts
parts-Agrees spec size = elim (Option-cases (match_spec spec)) [
  | inl e ↦ rw (parse_spec-none spec size e) tt
  | inr ((first, last), e) ↦
      rw (parse_spec-some spec first last size e, e) (spec-Agrees first last size)
]

specs-Agrees :
    (specs : List Text) (size : ℕ) → Agrees (parse_specs specs size) (dav_specs specs size)
unfolding Agrees parse_specs dav_specs
specs-Agrees [] size = tt
specs-Agrees (spec ∷ []) size = parts-Agrees spec size
specs-Agrees (spec ∷ other ∷ specs) size = tt

group-Agrees :
    (group : Text) (size : ℕ) → Agrees (parse_group group size) (dav_group (some group) size)
unfolding Agrees parse_group dav_group
group-Agrees group size = elim (Bool-cases (has_empty (map trim (split b',' group)))) [
  | inl blank ↦ rw blank tt
  | inr filled ↦ rw filled (specs-Agrees (map trim (split b',' group)) size)
]

header-Agrees :
    (header : Option Text) (size : ℕ)
    → Agrees (parse_range_header header size) (parse_dav_range header size)
unfolding Agrees parse_range_header parse_dav_range
header-Agrees none size = tt
header-Agrees (some []) size = tt
header-Agrees (some (c ∷ s)) size = elim (Option-cases (match_unit (trim (c ∷ s)))) [
  | inl e ↦ rw (parse_header_none c s size e) tt
  | inr (group, e) ↦ rw (parse_header_some c s group size e, e) (group-Agrees group size)
]

-- Whenever the player's endpoint answers a header with a part of a file, WebDAV's answers it with
-- the same part.
parse_dav_range-single :
    (header : Option Text) (size : ℕ) (r : ParsedRange)
    → parse_range_header header size ≡ single r
    → parse_dav_range header size ≡ range r.start r.end
unfolding Agrees
parse_dav_range-single header size r e =
    subst (λ p. Agrees p (parse_dav_range header size)) e (header-Agrees header size)
