-- ===== src/Printing/Spooler.antt =====
-- apps/server/src/modules/print/spooler.ts: the settings of a job, what the print verb of Windows
-- cannot do, and the status of a job of the spooler.
--
-- `toLowerCase` is written for ASCII. A status of digits is read as a number without the rounding of
-- numbers above 2^53.
pub mod Spellings
use Prim.Native.String.{String}
use local_cast.Base.{
  ℕ, zero, suc, ◌+◌, ◌/◌, ◌%◌, ◌^◌, Bool, true, false, not, ◌&&◌, ◌||◌, List, [], ◌∷◌, ◌++◌, Option,
  none, some, Text, codes, text_eq, ltb, leb, ◌==◌, if◌then◌else◌, length, map, Result, ok, ◌>>=◌,
  ◌>>◌, throw_if,
}
use local_cast.Contract.Errors.{plain, bad_request, spooler_failed}
use local_cast.Js.{
  is_space, is_digit, span_digits, skip_spaces, trim, split, decimal, number_from, number,
}

pub data Color : Type 0 where
  color mono : Color

pub data Duplex : Type 0 where
  simplex long short : Duplex

pub record PrintSettings : Type 0 where
  pub copies : ℕ
  pub color : Color
  pub duplex : Duplex
  pub page_range : Option Text

-- `\d+` at the front of a text: what is behind it.
digits_off : Text × Text → Option Text
digits_off ([], s) = none
digits_off (c ∷ ds, s) = some s

-- `(-\d+)?`
second_off : Text → Option Text
unfolding digits_off span_digits
second_off [] = some []
second_off (c ∷ s) = if c == 45 then digits_off (span_digits s) else some (c ∷ s)

-- `\s*\d+(-\d+)?\s*`
entry_off : Text → Option Text
unfolding digits_off span_digits second_off skip_spaces
entry_off s = elim (digits_off (span_digits (skip_spaces s))) [
  | none ↦ none
  | some t ↦ elim (second_off t) [ none ↦ none | some u ↦ some (skip_spaces u) ]
]

-- The entries with a comma between them; each takes at least one code unit.
entries : ℕ → Text → Bool
unfolding entry_off
entries zero s = false
entries (suc n) s = elim (entry_off s) [
  | none ↦ false
  | some [] ↦ true
  | some (c ∷ t) ↦ let rest = entries n t in if c == 44 then rest else false
]

-- `PAGE_RANGE_PATTERN.test`
pub is_page_range : Text → Bool
unfolding entries
is_page_range s = entries (length s) s

-- `replace(/\s+/g, '')`
pub drop_spaces : Text → Text
unfolding is_space
drop_spaces [] = []
drop_spaces (c ∷ s) = let rest = drop_spaces s in if is_space c then rest else c ∷ rest

-- `input.pageRange?.trim()`, where an empty text counts as none
pub trimmed : Option Text → Text
unfolding trim
trimmed none = []
trimmed (some s) = trim s

range_parts : Text → Result (List Text)
unfolding is_page_range drop_spaces
range_parts [] = ok []
range_parts (c ∷ s) = do
  throw_if (not (is_page_range (c ∷ s))) (plain bad_request)
  ok (drop_spaces (c ∷ s) ∷ [])

color_word : Color → Text
color_word color = codes "color"
color_word mono = codes "monochrome"

duplex_word : Duplex → Text
duplex_word long = codes "duplexlong"
duplex_word short = codes "duplexshort"
duplex_word simplex = codes "simplex"

copies_parts : ℕ → List Text
unfolding decimal
copies_parts n = if ltb 1 n then (decimal n ++ codes "x") ∷ [] else []

-- `parts.join(',')`
join_commas : List Text → Text
join_commas [] = []
join_commas (p ∷ []) = p
join_commas (p ∷ q ∷ ps) = p ++ (44 ∷ join_commas (q ∷ ps))

unfoldable pub build_print_settings : PrintSettings → Result Text
unfolding range_parts color_word duplex_word copies_parts join_commas trimmed
build_print_settings input = do
  range ← range_parts (trimmed input.page_range)
  ok (
      join_commas
        (range ++ (color_word input.color ∷ duplex_word input.duplex ∷ copies_parts input.copies)))

is_simplex : Duplex → Bool
is_simplex simplex = true
is_simplex _ = false

is_blank : Text → Bool
is_blank [] = true
is_blank (c ∷ s) = false

-- Whether anything is asked for that the verb cannot be asked for.
pub asks_for_more : PrintSettings → Bool
unfolding trimmed is_blank is_simplex
asks_for_more input =
    not (is_blank (trimmed input.page_range)) || ltb 1 input.copies || not (is_simplex input.duplex)

unfoldable pub assert_fallback_can_honour : PrintSettings → Result (Unit {0})
unfolding asks_for_more
assert_fallback_can_honour input = throw_if (asks_for_more input) (plain spooler_failed)

pub record PrintToSupport : Type 0 where
  pub ext : Text
  pub registered : Bool
  pub known : Bool

unfoldable pub assert_fallback_can_print_type : PrintToSupport → Result (Unit {0})
assert_fallback_can_print_type support =
    throw_if (not (not support.known || support.registered)) (plain spooler_failed)

pub record SpoolerJob : Type 0 where
  pub id : ℕ
  pub status : Text

pub record SpoolerQueue : Type 0 where
  pub readable : Bool
  pub jobs : List SpoolerJob

pub data SpoolerOutcome : Type 0 where
  printing done error cancelled : SpoolerOutcome

-- `bits & (1 << k)`
pub has_bit : ℕ → ℕ → Bool
has_bit k n = n / 2 ^ k % 2 == 1

pub classify_bits : ℕ → SpoolerOutcome
unfolding has_bit
classify_bits bits =
    if has_bit 1 bits || has_bit 6 bits || has_bit 9 bits
    then SpoolerOutcome.error
    else if has_bit 2 bits || has_bit 8 bits
    then SpoolerOutcome.cancelled
    else if has_bit 12 bits || has_bit 7 bits
    then SpoolerOutcome.done
    else SpoolerOutcome.printing

-- `/^\d+$/`
pub is_number : Text → Bool
unfolding is_digit
is_number [] = false
is_number (c ∷ []) = is_digit c
is_number (c ∷ d ∷ s) = is_digit c && is_number (d ∷ s)

lower_char : ℕ → ℕ
lower_char c = if leb 65 c && leb c 90 then c + 32 else c

abbrev is_word : String → Text → Bool
is_word w s = text_eq s (codes w)

pub flags_of : Text → List Text
unfolding lower_char split trim
flags_of text = map trim (split 44 (map lower_char text))

unfoldable pub some_flag : (Text → Bool) → List Text → Bool
some_flag p [] = false
some_flag p (f ∷ fs) = p f || some_flag p fs

abbrev pub is_error_flag : Text → Bool
is_error_flag f = is_word "error" f || is_word "blocked" f || is_word "paperout" f

abbrev pub is_cancelled_flag : Text → Bool
is_cancelled_flag f = is_word "deleting" f || is_word "deleted" f

abbrev pub is_done_flag : Text → Bool
is_done_flag f = is_word "complete" f || is_word "printed" f

pub classify_flags : List Text → SpoolerOutcome
unfolding some_flag text_eq
classify_flags flags =
    if some_flag is_error_flag flags
    then SpoolerOutcome.error
    else if some_flag is_cancelled_flag flags
    then SpoolerOutcome.cancelled
    else if some_flag is_done_flag flags
    then SpoolerOutcome.done
    else SpoolerOutcome.printing

classify_text : Text → SpoolerOutcome
unfolding is_number classify_bits classify_flags flags_of number_from
classify_text text =
    if is_number text then classify_bits (number text) else classify_flags (flags_of text)

unfoldable pub classify_job_status : Text → SpoolerOutcome
unfolding classify_text trim
classify_job_status status = classify_text (trim status)
