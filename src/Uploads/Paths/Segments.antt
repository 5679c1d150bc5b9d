-- ===== src/Uploads/Paths/Segments.antt =====
-- Splitting and joining the segments of a path of modules/uploads/paths.ts.
use local_cast.Base.{
  ℕ, ◌≡◌, ◌≢◌, refl, sym, ap, ◌∙◌, true, false, Bool-cases, inl, inr, List, [], ◌∷◌, ◌++◌, Text,
  arith, ◌==◌, includes,
}
use local_cast.Js.{split, add_head}
use local_cast.Js.Trim.{Without}
use local_cast.Uploads.Paths.{slashes, drop_empty, join_slash}

abbrev pub AllWithout : ℕ → List Text → Type 0
AllWithout d [] = Unit
AllWithout d (w ∷ ws) = Without d w × AllWithout d ws

abbrev pub AllFilled : List Text → Type 0
AllFilled [] = Unit
AllFilled (w ∷ ws) = (w ≢ []) × AllFilled ws

add_head-AllWithout :
    (d c : ℕ) (ws : List Text) → c ≢ d → AllWithout d ws → AllWithout d (add_head c ws)
add_head-AllWithout d c [] h a = ((h, tt), tt)
add_head-AllWithout d c (w ∷ ws) h (k, a) = ((h, k), a)

-- What a split holds has no separator, and no other character than the text.
pub split-AllWithout : (d : ℕ) (s : Text) → AllWithout d (split d s)
unfolding split
split-AllWithout d [] = (tt, tt)
split-AllWithout d (c ∷ s) = elim (Bool-cases (c == d)) [
  | inl same ↦ rw same (tt, split-AllWithout d s)
  | inr other ↦ rw other (add_head-AllWithout d c (split d s) (ground arith) (split-AllWithout d s))
]

pub split-keeps : (d e : ℕ) (s : Text) → Without e s → AllWithout e (split d s)
unfolding split
split-keeps d e [] a = (tt, tt)
split-keeps d e (c ∷ s) (h, a) = elim (Bool-cases (c == d)) [
  | inl same ↦ rw same (tt, split-keeps d e s a)
  | inr other ↦ rw other (add_head-AllWithout e c (split d s) h (split-keeps d e s a))
]

pub drop_empty-AllWithout :
    (d : ℕ) (ws : List Text) → AllWithout d ws → AllWithout d (drop_empty ws)
unfolding drop_empty
drop_empty-AllWithout d [] a = tt
drop_empty-AllWithout d ([] ∷ ws) (h, a) = drop_empty-AllWithout d ws a
drop_empty-AllWithout d ((c ∷ w) ∷ ws) (h, a) = (h, drop_empty-AllWithout d ws a)

pub drop_empty-AllFilled : (ws : List Text) → AllFilled (drop_empty ws)
unfolding drop_empty
drop_empty-AllFilled [] = tt
drop_empty-AllFilled ([] ∷ ws) = drop_empty-AllFilled ws
drop_empty-AllFilled ((c ∷ w) ∷ ws) = ((λ e. cc), drop_empty-AllFilled ws)

pub drop_empty_of_AllFilled : (ws : List Text) → AllFilled ws → drop_empty ws ≡ ws
unfolding drop_empty
drop_empty_of_AllFilled [] a = refl
drop_empty_of_AllFilled ([] ∷ ws) (h, a) = absurd (h refl)
drop_empty_of_AllFilled ((c ∷ w) ∷ ws) (h, a) = ap (◌∷◌ (c ∷ w)) (drop_empty_of_AllFilled ws a)

pub slashes-Without : (s : Text) → Without 92 (slashes s)
unfolding slashes
slashes-Without [] = tt
slashes-Without (c ∷ s) = ground (arith, slashes-Without s)

pub slashes_of_Without : (s : Text) → Without 92 s → slashes s ≡ s
unfolding slashes
slashes_of_Without [] a = refl
slashes_of_Without (c ∷ s) (h, a) = ground (arith, slashes_of_Without s a)

pub slashes-keeps : (s : Text) → Without 0 s → Without 0 (slashes s)
unfolding slashes
slashes-keeps [] a = tt
slashes-keeps (c ∷ s) (h, a) = ground (arith, slashes-keeps s a)

pub Without-of_includes : (d : ℕ) (s : Text) → includes d s ≡ false → Without d s
unfolding includes
Without-of_includes d [] e = tt
Without-of_includes d (c ∷ s) e = ground (arith, Without-of_includes d s)

pub includes_of_Without : (d : ℕ) (s : Text) → Without d s → includes d s ≡ false
unfolding includes
includes_of_Without d [] a = refl
includes_of_Without d (c ∷ s) (h, a) = ground (arith, includes_of_Without d s a)

Without-append : (d : ℕ) (s t : Text) → Without d s → Without d t → Without d (s ++ t)
Without-append d [] t a b = b
Without-append d (c ∷ s) t (h, a) b = (h, Without-append d s t a b)

pub join_slash-Without :
    (d : ℕ) (ws : List Text) → d ≢ b'/' → AllWithout d ws → Without d (join_slash ws)
unfolding join_slash
join_slash-Without d [] h a = tt
join_slash-Without d (w ∷ []) h (k, a) = k
join_slash-Without d (w ∷ v ∷ ws) h (k, a) =
    Without-append d w (b'/' ∷ join_slash (v ∷ ws)) k
      ((λ e. h (sym e)), join_slash-Without d (v ∷ ws) h a)

split_last : (d : ℕ) (w : Text) → Without d w → split d w ≡ w ∷ []
unfolding split
split_last d [] a = refl
split_last d (c ∷ w) (h, a) =
    let other : (c == d) ≡ false = ground arith in rw (other, split_last d w a) refl

split_more : (d : ℕ) (w t : Text) → Without d w → split d (w ++ (d ∷ t)) ≡ w ∷ split d t
unfolding split
split_more d [] t a = let same : (d == d) ≡ true = ground arith in rw same refl
split_more d (c ∷ w) t (h, a) =
    let other : (c == d) ≡ false = ground arith in rw (other, split_more d w t a) refl

-- Joined segments are split into the same segments.
pub split-join_slash :
    (w : Text) (ws : List Text)
    → AllWithout b'/' (w ∷ ws)
    → split b'/' (join_slash (w ∷ ws)) ≡ w ∷ ws
unfolding join_slash
split-join_slash w [] (h, a) = split_last b'/' w h
split-join_slash w (v ∷ ws) (h, a) =
    split_more b'/' w (join_slash (v ∷ ws)) h ∙ ap (◌∷◌ w) (split-join_slash v ws a)
