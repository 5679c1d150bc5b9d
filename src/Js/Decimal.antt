-- ===== src/Js/Decimal.antt =====
-- Decimal print and its reading back.
use local_cast.Base.{
  ℕ, zero, suc, ◌+◌, ◌-◌, ◌*◌, ◌/◌, ◌%◌, ◌≤◌, ◌<◌, ◌≡◌, ◌≢◌, [], ◌∷◌, ◌++◌, Text, arith,
}
use local_cast.Js.{span_digits, number_from, number, emit, decimal}

abbrev pub AllDigits : Text → Type 0
AllDigits [] = Unit
AllDigits (c ∷ s) = (b'0' ≤ c) × (c ≤ b'9') × AllDigits s

number_from-emit :
    (fuel n : ℕ) (out : Text) → n < fuel → number_from 0 (emit fuel n out) ≡ number_from n out
unfolding emit number_from
number_from-emit zero n out h = elim h [ ]
number_from-emit (suc fuel) n out h =
    let e : n / 10 * 10 + (b'0' + n % 10 - b'0') ≡ n = omega arith in
    let small : b'0' + n - b'0' ≡ n = omega arith in
    ground (arith, e, small, number_from-emit fuel (n / 10) ((b'0' + n % 10) ∷ out))

emit-AllDigits : (fuel n : ℕ) (out : Text) → AllDigits out → AllDigits (emit fuel n out)
unfolding emit
emit-AllDigits zero n out a = a
emit-AllDigits (suc fuel) n out a =
    ground (arith, emit-AllDigits fuel (n / 10) ((b'0' + n % 10) ∷ out))

emit-ne-nil : (fuel n : ℕ) (out : Text) → out ≢ [] → emit fuel n out ≢ []
unfolding emit
emit-ne-nil zero n out h = h
emit-ne-nil (suc fuel) n out h = ground (arith, emit-ne-nil fuel (n / 10) ((b'0' + n % 10) ∷ out))

-- Reading a decimal print gives the number.
pub number-decimal : (n : ℕ) → number (decimal n) ≡ n
unfolding decimal number_from
number-decimal n = number_from-emit (suc n) n [] (omega arith)

pub decimal-AllDigits : (n : ℕ) → AllDigits (decimal n)
unfolding decimal
decimal-AllDigits n = emit-AllDigits (suc n) n [] tt

pub decimal-ne-nil : (n : ℕ) → decimal n ≢ []
unfolding decimal emit
decimal-ne-nil n = ground (arith, emit-ne-nil n (n / 10) ((b'0' + n % 10) ∷ []))

-- A run of digits before something else is split off whole.
pub span_digits-append :
    (ds rest : Text)
    → AllDigits ds
    → span_digits rest ≡ ([], rest)
    → span_digits (ds ++ rest) ≡ (ds, rest)
unfolding span_digits
span_digits-append [] rest a h = h
span_digits-append (c ∷ ds) rest (lo, hi, a) h = ground (arith, span_digits-append ds rest a h)
