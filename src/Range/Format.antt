-- ===== src/Range/Format.antt =====
-- Reading back the three forms of a Range header that a player sends.
use mathlib.Core.List.{append-nil}
use local_cast.Base.{
  ℕ, ◌-◌, ◌≤◌, ◌≡◌, ◌≢◌, refl, sym, ap, ◌∙◌, min, true, [], ◌∷◌, ◌++◌, some, Text, codes, arith,
  if◌then◌else◌, leb, ltb, ◌&&◌,
}
use local_cast.Js.{is_space, span_digits, number, decimal, skip_spaces}
use local_cast.Js.Decimal.{
  AllDigits, number-decimal, decimal-AllDigits, decimal-ne-nil, span_digits-append,
}
use local_cast.Js.Trim.{
  NoSpace, NoSpace-append, trim_of_NoSpace, skip_spaces_of_NoSpace, Without, split_of_Without,
}
use local_cast.Range.{
  RangeParse, unsatisfiable, range_of, suffix_range, bounded_range, from_range, spec_range,
  match_spec, parse_spec, parse_specs, has_empty, parse_group, match_unit, parse_range_header,
  dash_digits, closing_digits, one_line, group_of, after_equals, strip_word,
}
use local_cast.Range.Parsing.{parse_spec-some, parse_header_some}

pub data RangeSpec : Type 0 where
  between : ℕ → ℕ → RangeSpec
  from last : ℕ → RangeSpec

body : RangeSpec → Text
body (between a b) = decimal a ++ (b'-' ∷ decimal b)
body (from a) = decimal a ++ (b'-' ∷ [])
body (last n) = b'-' ∷ decimal n

pub format : RangeSpec → Text
unfolding body
format s = codes "bytes=" ++ body s

-- What RFC 9110 asks for.
abbrev pub answer : RangeSpec → ℕ → RangeParse
answer (between a b) size =
    if ltb a size && leb a b then range_of a (min b (size - 1)) else unsatisfiable
answer (from a) size = if ltb a size then range_of a (size - 1) else unsatisfiable
answer (last n) size =
    if ltb 0 n && ltb 0 size then range_of (size - n) (size - 1) else unsatisfiable

abbrev pub max_safe : ℕ
max_safe = 9_007_199_254_740_991

abbrev pub IsSafe : RangeSpec → Type 0
IsSafe (between a b) = (a ≤ max_safe) × (b ≤ max_safe)
IsSafe (from a) = a ≤ max_safe
IsSafe (last n) = n ≤ max_safe

-- A body holds digits and dashes.
abbrev InBody : Text → Type 0
InBody [] = Unit
InBody (c ∷ s) = (b'-' ≤ c) × (c ≤ b'9') × InBody s

InBody-append : (s t : Text) → InBody s → InBody t → InBody (s ++ t)
InBody-append [] t a b = b
InBody-append (c ∷ s) t (lo, hi, a) b = (lo, hi, InBody-append s t a b)

InBody-of_AllDigits : (s : Text) → AllDigits s → InBody s
InBody-of_AllDigits [] a = tt
InBody-of_AllDigits (c ∷ s) (lo, hi, a) = (omega arith, hi, InBody-of_AllDigits s a)

body-InBody : (s : RangeSpec) → InBody (body s)
unfolding body
body-InBody (between a b) =
    InBody-append (decimal a) (b'-' ∷ decimal b) (InBody-of_AllDigits _ (decimal-AllDigits a))
      (omega arith, omega arith, InBody-of_AllDigits _ (decimal-AllDigits b))
body-InBody (from a) =
    InBody-append (decimal a) (b'-' ∷ []) (InBody-of_AllDigits _ (decimal-AllDigits a))
      (omega arith)
body-InBody (last n) = (omega arith, omega arith, InBody-of_AllDigits _ (decimal-AllDigits n))

NoSpace-of_InBody : (s : Text) → InBody s → NoSpace s
unfolding is_space
NoSpace-of_InBody [] a = tt
NoSpace-of_InBody (c ∷ s) (lo, hi, a) = (ground arith, NoSpace-of_InBody s a)

one_line_of_InBody : (s : Text) → InBody s → one_line s ≡ true
unfolding one_line
one_line_of_InBody [] a = refl
one_line_of_InBody (c ∷ s) (lo, hi, a) = ground (arith, one_line_of_InBody s a)

Without-of_InBody : (s : Text) → InBody s → Without b',' s
Without-of_InBody [] a = tt
Without-of_InBody (c ∷ s) (lo, hi, a) = (omega arith, Without-of_InBody s a)

-- A text of a body's characters passes the outer layers of the parser as it is.
parse_group_of_InBody :
    (c : ℕ) (s : Text) (size : ℕ)
    → InBody (c ∷ s)
    → parse_group (c ∷ s) size ≡ parse_spec (c ∷ s) size
unfolding parse_group parse_specs has_empty
parse_group_of_InBody c s size a =
    rw
      (
        split_of_Without b',' c s (omega arith) (Without-of_InBody s a.2),
        trim_of_NoSpace (c ∷ s) (NoSpace-of_InBody (c ∷ s) a),
      )
      refl

group_of-InBody : (c : ℕ) (s : Text) → InBody (c ∷ s) → group_of (c ∷ s) ≡ some (c ∷ s)
unfolding group_of
group_of-InBody c s a =
    rw (skip_spaces_of_NoSpace (c ∷ s) (NoSpace-of_InBody (c ∷ s) a), group_of)
      (rw (one_line_of_InBody (c ∷ s) a))

match_unit_of_InBody :
    (c : ℕ) (s : Text) → InBody (c ∷ s) → match_unit (codes "bytes=" ++ (c ∷ s)) ≡ some (c ∷ s)
unfolding match_unit after_equals strip_word skip_spaces
match_unit_of_InBody c s a = group_of-InBody c s a

bytes-NoSpace : NoSpace (codes "bytes=")
unfolding is_space
bytes-NoSpace = (refl, (refl, (refl, (refl, (refl, (refl, tt))))))

parse_header_of_InBody :
    (c : ℕ) (s : Text) (size : ℕ)
    → InBody (c ∷ s)
    → parse_range_header (some (codes "bytes=" ++ (c ∷ s))) size ≡ parse_spec (c ∷ s) size
parse_header_of_InBody c s size a =
    parse_header_some _ _ (c ∷ s) size (
      rw
        (trim_of_NoSpace (codes "bytes=" ++ (c ∷ s))
          (NoSpace-append (codes "bytes=") (c ∷ s) bytes-NoSpace (NoSpace-of_InBody (c ∷ s) a)))
        (match_unit_of_InBody c s a))
    ∙ parse_group_of_InBody c s size a

-- The digits of a number, of which there is at least one.
digits_cases : (n : ℕ) → (c : ℕ) × (s : Text) × (decimal n ≡ c ∷ s) × AllDigits (c ∷ s)
digits_cases n = go (decimal n) (decimal-ne-nil n) (decimal-AllDigits n) refl
  where
    go :
        (t : Text)
        → t ≢ []
        → AllDigits t
        → decimal n ≡ t
        → (c : ℕ) × (s : Text) × (decimal n ≡ c ∷ s) × AllDigits (c ∷ s)
    go [] h a e = absurd (h refl)
    go (c ∷ s) h a e = (c, s, e, a)

span_dash : (s : Text) → span_digits (b'-' ∷ s) ≡ ([], b'-' ∷ s)
unfolding span_digits
span_dash s = refl

span_decimal : (n : ℕ) → span_digits (decimal n) ≡ (decimal n, [])
unfolding span_digits
span_decimal n =
    rw (append-nil (decimal n)) at (span_digits-append (decimal n) [] (decimal-AllDigits n) refl)

match_spec-digits :
    (first rest : Text)
    → AllDigits first
    → match_spec (first ++ (b'-' ∷ rest)) ≡ closing_digits first (span_digits rest)
unfolding match_spec dash_digits
match_spec-digits first rest a = rw (span_digits-append first (b'-' ∷ rest) a (span_dash rest)) refl

match_spec-between : (a b : ℕ) → match_spec (body (between a b)) ≡ some (decimal a, decimal b)
unfolding body closing_digits
match_spec-between a b =
    match_spec-digits (decimal a) (decimal b) (decimal-AllDigits a) ∙ rw (span_decimal b) refl

match_spec-from : (a : ℕ) → match_spec (body (from a)) ≡ some (decimal a, [])
unfolding body closing_digits span_digits
match_spec-from a = match_spec-digits (decimal a) [] (decimal-AllDigits a)

match_spec-last : (n : ℕ) → match_spec (body (last n)) ≡ some ([], decimal n)
unfolding body closing_digits
match_spec-last n = match_spec-digits [] (decimal n) tt ∙ rw (span_decimal n) refl

spec_range-between :
    (c d : ℕ) (s t : Text) (size : ℕ)
    → number (c ∷ s) ≤ max_safe
    → number (d ∷ t) ≤ max_safe
    → spec_range (c ∷ s) (d ∷ t) size ≡ answer (between (number (c ∷ s)) (number (d ∷ t))) size
unfolding spec_range from_range bounded_range
spec_range-between c d s t size h k = ground arith

spec_range-from :
    (c : ℕ) (s : Text) (size : ℕ)
    → number (c ∷ s) ≤ max_safe
    → spec_range (c ∷ s) [] size ≡ answer (from (number (c ∷ s))) size
unfolding spec_range from_range
spec_range-from c s size h = ground arith

spec_range-last :
    (c : ℕ) (s : Text) (size : ℕ)
    → number (c ∷ s) ≤ max_safe
    → spec_range [] (c ∷ s) size ≡ answer (last (number (c ∷ s))) size
unfolding spec_range suffix_range
spec_range-last c s size h = ground arith

spec_range-body : (r : RangeSpec) (size : ℕ) → IsSafe r → parse_spec (body r) size ≡ answer r size
spec_range-body (between a b) size (h, k) =
    let (c, s, e, _) = digits_cases a in
    let (d, t, e', _) = digits_cases b in
    let na : number (c ∷ s) ≡ a = ap number (sym e) ∙ number-decimal a in
    let nb : number (d ∷ t) ≡ b = ap number (sym e') ∙ number-decimal b in
    parse_spec-some (body (between a b)) (decimal a) (decimal b) size (match_spec-between a b)
    ∙ rw (e, e') (spec_range-between c d s t size (rw na h) (rw nb k) ∙ rw (na, nb) refl)
spec_range-body (from a) size h =
    let (c, s, e, _) = digits_cases a in
    let na : number (c ∷ s) ≡ a = ap number (sym e) ∙ number-decimal a in
    parse_spec-some (body (from a)) (decimal a) [] size (match_spec-from a)
    ∙ rw e (spec_range-from c s size (rw na h) ∙ rw na refl)
spec_range-body (last n) size h =
    let (c, s, e, _) = digits_cases n in
    let na : number (c ∷ s) ≡ n = ap number (sym e) ∙ number-decimal n in
    parse_spec-some (body (last n)) [] (decimal n) size (match_spec-last n)
    ∙ rw e (spec_range-last c s size (rw na h) ∙ rw na refl)

append-ne-nil : (s t : Text) → s ≢ [] → s ++ t ≢ []
append-ne-nil [] t h = absurd (h refl)
append-ne-nil (c ∷ s) t h = λ e. cc

body-ne-nil : (r : RangeSpec) → body r ≢ []
unfolding body
body-ne-nil (between a b) = append-ne-nil (decimal a) (b'-' ∷ decimal b) (decimal-ne-nil a)
body-ne-nil (from a) = append-ne-nil (decimal a) (b'-' ∷ []) (decimal-ne-nil a)
body-ne-nil (last n) = λ e. cc

-- A header in one of the three forms, of numbers that are safe integers, is answered as RFC 9110
-- asks for: a range from `a` to `b` with `b` cut to the file, a range from `a` to the end, or the
-- last `n` bytes; and "unsatisfiable" where the range begins behind the end of the file, is
-- reversed, or asks for the last 0 bytes.
pub parse-format :
    (r : RangeSpec) (size : ℕ)
    → IsSafe r
    → parse_range_header (some (format r)) size ≡ answer r size
unfolding format
parse-format r size h = go (body r) refl
  where
    go :
        (t : Text)
        → body r ≡ t
        → parse_range_header (some (codes "bytes=" ++ body r)) size ≡ answer r size
    go [] e = absurd (body-ne-nil r e)
    go (c ∷ s) e =
        let inside : InBody (c ∷ s) = rw e at (body-InBody r) in
        let parsed : parse_spec (c ∷ s) size ≡ answer r size = rw e at (spec_range-body r size h) in
        rw e (parse_header_of_InBody c s size inside ∙ parsed)
