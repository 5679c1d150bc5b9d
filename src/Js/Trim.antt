-- ===== src/Js/Trim.antt =====
-- Trimming and splitting a text that has nothing to trim or to split.
use mathlib.Core.List.{reverse, reverse-reverse, reverse-cons}
use local_cast.Base.{ℕ, ◌≡◌, ◌≢◌, refl, false, [], ◌∷◌, ◌++◌, Text, arith}
use local_cast.Js.{is_space, skip_spaces, trim, split}

abbrev pub NoSpace : Text → Type 0
NoSpace [] = Unit
NoSpace (c ∷ s) = (is_space c ≡ false) × NoSpace s

pub NoSpace-append : (s t : Text) → NoSpace s → NoSpace t → NoSpace (s ++ t)
NoSpace-append [] t a b = b
NoSpace-append (c ∷ s) t (h, a) b = (h, NoSpace-append s t a b)

NoSpace-reverse : (s : Text) → NoSpace s → NoSpace (reverse s)
NoSpace-reverse [] a = tt
NoSpace-reverse (c ∷ s) (h, a) =
    rw (reverse-cons c s) (NoSpace-append (reverse s) (c ∷ []) (NoSpace-reverse s a) (h, tt))

pub skip_spaces_of_NoSpace : (s : Text) → NoSpace s → skip_spaces s ≡ s
unfolding skip_spaces
skip_spaces_of_NoSpace [] a = refl
skip_spaces_of_NoSpace (c ∷ s) (h, a) = rw h

pub trim_of_NoSpace : (s : Text) → NoSpace s → trim s ≡ s
unfolding trim
trim_of_NoSpace s a =
    rw (skip_spaces_of_NoSpace s a, skip_spaces_of_NoSpace (reverse s) (NoSpace-reverse s a))
      (reverse-reverse s)

abbrev pub Without : ℕ → Text → Type 0
Without d [] = Unit
Without d (c ∷ s) = (c ≢ d) × Without d s

pub split_of_Without : (d c : ℕ) (s : Text) → c ≢ d → Without d s → split d (c ∷ s) ≡ (c ∷ s) ∷ []
unfolding split
split_of_Without d c [] h a = ground arith
split_of_Without d c (x ∷ s) h (k, a) = ground (arith, split_of_Without d x s k a)
