-- ===== src/Library/RelPath/Safety.antt =====
-- apps/server/src/library/resolver.ts: what `sanitiseRelPath` lets through.
use mathlib.Core.Path.{subst}
use local_cast.Base.{
  sym, ℕ, ◌≡◌, ◌≢◌, refl, Bool, true, false, ◌||◌, List, [], ◌∷◌, Option, none, some, Text, codes,
  text_eq, text_eq_iff, includes, starts_with, if◌then◌else◌, arith, Result, ok, err, ◌>>◌,
  throw_if, Bool-cases, inl, inr,
}
use local_cast.Contract.Errors.{plain, path_escapes_root}
use local_cast.Library.{is_separator, add_to_first, split_separators, filled_segments}
use local_cast.Library.RelPath.{
  is_reserved, has_drive, has_illegal, has_control, ends_loose, stem_of, segments_of, check_part,
  check_parts, check_form, check_decoded, sanitise_rel_path,
}

-- No separator of Windows or of POSIX.
abbrev pub NoSeparator : Text → Type 0
NoSeparator [] = Unit
NoSeparator (c ∷ s) = (is_separator c ≡ false) × NoSeparator s

abbrev AllWhole : List Text → Type 0
AllWhole [] = Unit
AllWhole (w ∷ ws) = NoSeparator w × AllWhole ws

abbrev AllFilled : List Text → Type 0
AllFilled [] = Unit
AllFilled (w ∷ ws) = (w ≢ []) × NoSeparator w × AllFilled ws

add_to_first-AllWhole :
    (c : ℕ) (ws : List Text) → is_separator c ≡ false → AllWhole ws → AllWhole (add_to_first c ws)
add_to_first-AllWhole c [] h a = ((h, tt), tt)
add_to_first-AllWhole c (w ∷ ws) h (a, b) = ((h, a), b)

split-AllWhole : (s : Text) → AllWhole (split_separators s)
unfolding split_separators
split-AllWhole [] = (tt, tt)
split-AllWhole (c ∷ s) = elim (Bool-cases (is_separator c)) [
  | inl e ↦ rw e (tt, split-AllWhole s)
  | inr e ↦ rw e (add_to_first-AllWhole c (split_separators s) e (split-AllWhole s))
]

filled-AllFilled : (ws : List Text) → AllWhole ws → AllFilled (filled_segments ws)
unfolding filled_segments
filled-AllFilled [] a = tt
filled-AllFilled ([] ∷ ws) (n, a) = filled-AllFilled ws a
filled-AllFilled ((c ∷ w) ∷ ws) (n, a) = ((λ e. cc), n, filled-AllFilled ws a)

ok-texts : (a b : List Text) → ok a ≡ ok b → a ≡ b
ok-texts a b e = cc

pub both {ℓ} :
    {B : Type ℓ} (m : Result (Unit {0})) (k : Result B) {b : B}
    → (m >> k) ≡ ok b
    → (m ≡ ok tt) × (k ≡ ok b)
both (ok u) k h = (refl, h)
both (err e) k h = absurd cc

module _ (upper : Text → Text) where
  -- A segment that names an entry of its folder, and the same entry for every part of Windows.
  pub record IsSafe (w : Text) : Type 0 where
    pub filled : w ≢ []
    pub not_dot : w ≢ codes "."
    pub not_dots : w ≢ codes ".."
    pub whole : NoSeparator w
    pub legal : has_illegal w ≡ false
    pub printable : has_control w ≡ false
    pub tight : ends_loose w ≡ false
    pub free : is_reserved (upper (stem_of w)) ≡ false

  abbrev pub AllSafe : List Text → Type 0
  AllSafe [] = Unit
  AllSafe (w ∷ ws) = IsSafe w × AllSafe ws

  check_part-IsSafe : (w : Text) → check_part upper w ≡ ok tt → w ≢ [] → NoSeparator w → IsSafe w
  unfolding check_part
  check_part-IsSafe w h filled whole =
      let (dots, legal, shown, tight, free) =
        five (text_eq w (codes ".") || text_eq w (codes "..")) (has_illegal w) (has_control w)
          (ends_loose w) (is_reserved (upper (stem_of w))) h in
      record {
        filled = filled;
        not_dot = λ e. ground (arith, (text_eq_iff w (codes ".")).1 e, dots);
        not_dots = λ e. ground (arith, (text_eq_iff w (codes "..")).1 e, dots);
        whole = whole;
        legal = legal;
        printable = shown;
        tight = tight;
        free = free;
      }
    where
      no : Bool → Result (Unit {0})
      no b = throw_if b (plain path_escapes_root)

      five :
          (a b c d e : Bool)
          → (no a >> (no b >> (no c >> (no d >> no e)))) ≡ ok tt
          → (a ≡ false) × (b ≡ false) × (c ≡ false) × (d ≡ false) × (e ≡ false)
      five a b c d e k = ground arith

  check_parts-AllSafe : (ws : List Text) → check_parts upper ws ≡ ok tt → AllFilled ws → AllSafe ws
  unfolding check_parts
  check_parts-AllSafe [] h a = tt
  check_parts-AllSafe (w ∷ ws) h (filled, whole, a) =
      let (here, rest) = both (check_part upper w) (check_parts upper ws) h in
      (check_part-IsSafe w here filled whole, check_parts-AllSafe ws rest a)

  check_form-AllSafe : (form : Text) → check_form upper form ≡ ok tt → AllSafe (segments_of form)
  unfolding check_form segments_of
  check_form-AllSafe form h =
      let (_, h1) = both (throw_if (includes 0 form) (plain path_escapes_root)) _ h in
      let (_, h2) =
        both
          (throw_if (starts_with form (codes "/") || starts_with form (codes "\\"))
            (plain path_escapes_root))
          _ h1 in
      let (_, h3) = both (throw_if (has_drive form) (plain path_escapes_root)) _ h2 in
      check_parts-AllSafe (segments_of form) h3
        (filled-AllFilled (split_separators form) (split-AllWhole form))

  -- The segments of the decoded form.
  abbrev pub decoded_segments : Option Text → List Text
  decoded_segments none = []
  decoded_segments (some s) = segments_of s

  check_decoded-AllSafe :
      (input : Text) (m : Option Text)
      → check_decoded upper input m ≡ ok tt
      → AllSafe (segments_of input)
      → AllSafe (decoded_segments m)
  unfolding check_decoded
  check_decoded-AllSafe input none h a = tt
  check_decoded-AllSafe input (some s) h a = elim (Bool-cases (text_eq s input)) [
    | inl e ↦ subst (λ t. AllSafe (segments_of t)) (sym ((text_eq_iff s input).0 e)) a
    | inr e ↦ check_form-AllSafe s (rw e at h)
  ]

  -- A path that is let through is taken apart into segments each of which names an entry of its
  -- folder and nothing else: it is not empty, no dot segment, holds no separator, no colon or other
  -- character that NTFS forbids, no control character, does not end in a dot or a space, and is not
  -- one of the reserved names. Where the path has a percent sign and can be decoded, the same holds
  -- of the segments of what it is decoded to.
  pub sanitise_rel_path-AllSafe :
      (decode : Text → Option Text) (input : Text) (segments : List Text)
      → sanitise_rel_path upper decode input ≡ ok segments
      → AllSafe segments × (includes b'%' input ≡ true → AllSafe (decoded_segments (decode input)))
  unfolding sanitise_rel_path
  sanitise_rel_path-AllSafe decode input segments h =
      let (_, h1) = both (throw_if (includes 0 input) (plain path_escapes_root)) _ h in
      let (formed, h2) = both (check_form upper input) _ h1 in
      let (decoded, e) =
        both (if includes b'%' input then check_decoded upper input (decode input) else ok tt) _
          h2 in
      let safe = check_form-AllSafe input formed in
      (
        subst AllSafe (ok-texts (segments_of input) segments e) safe,
        (λ percent. check_decoded-AllSafe input (decode input) (rw percent at decoded) safe),
      )
