-- ===== src/Range/Tests.antt =====
-- Range headers that browsers send, and the theorems on parseRangeHeader at some of them.
use local_cast.Base.{◌≡◌, refl, arith, some, codes}
use local_cast.Js.{decimal}
use local_cast.Range.{ignore, multiple, unsatisfiable, single, parse_range_header}
use local_cast.Range.Format.{last, format, parse-format}

parse-first :
    parse_range_header (some (codes "bytes=0-99")) 1_000 ≡ single (record { start = 0; end = 99 })
unfolding parse_range_header local_cast.Js.number_from
parse-first = refl

parse-spaced : parse_range_header (some (codes " Bytes = 0-")) 0 ≡ unsatisfiable
unfolding parse_range_header
parse-spaced = refl

parse-several : parse_range_header (some (codes "bytes=0-1, 4-5")) 9 ≡ multiple
unfolding parse_range_header
parse-several = refl

parse-malformed : parse_range_header (some (codes "bytes=a-b")) 9 ≡ ignore
unfolding parse_range_header
parse-malformed = refl

parse-format_example :
    parse_range_header (some (format (last 500))) 1_000 ≡ single (record { start = 500; end = 999 })
parse-format_example = parse-format (last 500) 1_000 (omega arith)
