-- ===== src/Printing/Spooler/Spellings.antt =====
-- apps/server/src/modules/print/spooler.ts: the two spellings of a status mean the same.
use local_cast.Base.{◌≡◌, refl, ℕ, Bool, true, false, ◌||◌, List, ◌∷◌, Text, codes, text_eq}
use local_cast.Printing.Spooler.{
  has_bit, classify_bits, some_flag, is_error_flag, is_cancelled_flag, is_done_flag, classify_flags,
}

abbrev add_if : Bool → Text → List Text → List Text
add_if true flag flags = flag ∷ flags
add_if false flag flags = flags

-- The names of the bits that are set, before the names of others.
abbrev pub names_of : ℕ → List Text → List Text
names_of bits others = add_if (has_bit 1 bits) (codes "error") (
    add_if (has_bit 6 bits) (codes "paperout") (
      add_if (has_bit 9 bits) (codes "blocked") (
        add_if (has_bit 2 bits) (codes "deleting") (
          add_if (has_bit 8 bits) (codes "deleted") (
            add_if (has_bit 12 bits) (codes "complete")
              (add_if (has_bit 7 bits) (codes "printed") others))))))

abbrev pub IsOther : List Text → Type 0
IsOther flags =
    (some_flag is_error_flag flags ≡ false)
    × (some_flag is_cancelled_flag flags ≡ false)
    × (some_flag is_done_flag flags ≡ false)

some_flag-hit :
    (p : Text → Bool) (b : Bool) (flag : Text) (flags : List Text)
    → p flag ≡ true
    → some_flag p (add_if b flag flags) ≡ (b || some_flag p flags)
unfolding some_flag
some_flag-hit p true flag flags h = rw h refl
some_flag-hit p false flag flags h = refl

some_flag-miss :
    (p : Text → Bool) (b : Bool) (flag : Text) (flags : List Text)
    → p flag ≡ false
    → some_flag p (add_if b flag flags) ≡ some_flag p flags
unfolding some_flag
some_flag-miss p true flag flags h = rw h refl
some_flag-miss p false flag flags h = refl

or_false : (b : Bool) → (b || false) ≡ b
or_false true = refl
or_false false = refl

or_assoc : (a b c : Bool) → (a || (b || c)) ≡ (a || b || c)
or_assoc true b c = refl
or_assoc false b c = refl

module _ (bits : ℕ) (others : List Text) (h : IsOther others) where
  errors :
      some_flag is_error_flag (names_of bits others)
      ≡ (has_bit 1 bits || has_bit 6 bits || has_bit 9 bits)
  unfolding text_eq
  errors = simp (some_flag-hit, some_flag-miss, h.0, or_false, or_assoc)

  cancellations :
      some_flag is_cancelled_flag (names_of bits others) ≡ (has_bit 2 bits || has_bit 8 bits)
  unfolding text_eq
  cancellations = simp (some_flag-hit, some_flag-miss, h.1, or_false)

  completions : some_flag is_done_flag (names_of bits others) ≡ (has_bit 12 bits || has_bit 7 bits)
  unfolding text_eq
  completions = simp (some_flag-hit, some_flag-miss, h.2, or_false)

  -- The bits of a status, and the list of the names of the bits that are set, with any other names
  -- behind them that are none of the seven, are read as the same outcome.
  classify_flags-names_of : classify_flags (names_of bits others) ≡ classify_bits bits
  unfolding classify_flags classify_bits
  classify_flags-names_of = rw (errors, cancellations, completions) refl
