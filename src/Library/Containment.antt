-- ===== src/Library/Containment.antt =====
-- `isInsideRoot` of library/resolver.ts against its meaning: the root's segments stand in front.
use mathlib.Core.Path.{subst}
use mathlib.Core.List.{append_assoc}
use local_cast.Base.{
  suc, ◌≤◌, ◌≡◌, ◌≢◌, ◌↔◌, refl, ap, ◌∙◌, Bool, true, false, List, [], ◌∷◌, ◌++◌, Text, text_eq_iff,
  arith, ltb, length, length-append,
}
use local_cast.Library.{split_segments, same_segment, same_front, inside_segments, is_inside_root}

-- Two names of one segment: equal, or on Windows equal but for case.
abbrev pub Same : Bool → (Text → Text) → Text → Text → Type 0
Same true lower a b = lower a ≡ lower b
Same false lower a b = a ≡ b

same_segment_iff :
    (windows : Bool) (lower : Text → Text) (a b : Text)
    → (same_segment windows lower a b ≡ true) ↔ Same windows lower a b
unfolding same_segment
same_segment_iff true lower a b = text_eq_iff (lower a) (lower b)
same_segment_iff false lower a b = text_eq_iff a b

Same-trans :
    (windows : Bool) (lower : Text → Text) (a b c : Text)
    → Same windows lower a b
    → Same windows lower b c
    → Same windows lower a c
Same-trans true lower a b c h k = h ∙ k
Same-trans false lower a b c h k = h ∙ k

module _ (windows : Bool) (lower : Text → Text) where
  abbrev pub AllSame : List Text → List Text → Type 0
  AllSame [] [] = Unit
  AllSame (a ∷ r) (b ∷ c) = Same windows lower a b × AllSame r c
  AllSame _ _ = ⊥

  -- The first segments of `c` are those of `r`.
  abbrev pub IsFront : List Text → List Text → Type 0
  IsFront r c = (front : List Text) × (rest : List Text) × (c ≡ front ++ rest) × AllSame r front

  same_front-IsFront : (r c : List Text) → same_front windows lower r c ≡ true → IsFront r c
  unfolding same_front
  same_front-IsFront [] c h = ([], c, refl, tt)
  same_front-IsFront (a ∷ r) [] h = absurd cc
  same_front-IsFront (a ∷ r) (b ∷ c) h =
      let first : same_segment windows lower a b ≡ true = ground arith in
      let others : same_front windows lower r c ≡ true = ground arith in
      let (front, rest, e, same) = same_front-IsFront r c others in
      (b ∷ front, rest, ap (◌∷◌ b) e, ((same_segment_iff windows lower a b).0 first, same))

  IsFront-same_front :
      (r c front rest : List Text)
      → c ≡ front ++ rest
      → AllSame r front
      → same_front windows lower r c ≡ true
  unfolding same_front
  IsFront-same_front [] c front rest e same = refl
  IsFront-same_front (a ∷ r) c [] rest e same = elim same [ ]
  IsFront-same_front (a ∷ r) [] (b ∷ front) rest e same = absurd cc
  IsFront-same_front (a ∷ r) (d ∷ c) (b ∷ front) rest e (same, more) =
      let head : d ≡ b = cc in
      let tail : c ≡ front ++ rest = cc in
      rw
        (
          (same_segment_iff windows lower a d).1 (rw head same),
          IsFront-same_front r c front rest tail more,
        )
        refl

  AllSame-length : (r c : List Text) → AllSame r c → length r ≡ length c
  AllSame-length [] [] a = refl
  AllSame-length [] (b ∷ c) a = elim a [ ]
  AllSame-length (a ∷ r) [] h = elim h [ ]
  AllSame-length (a ∷ r) (b ∷ c) (h, k) = ap suc (AllSame-length r c k)

  IsFront-length : (r c : List Text) → IsFront r c → length r ≤ length c
  IsFront-length r c (front, rest, e, same) =
      omega (arith, AllSame-length r front same, ap length e, length-append front rest)

  inside_iff :
      (r c : List Text) → (inside_segments windows lower r c ≡ true) ↔ ((r ≢ []) × IsFront r c)
  unfolding inside_segments
  inside_iff [] c = ((λ h. absurd cc), (λ h. absurd (h.0 refl)))
  inside_iff (a ∷ r) c = (
    (λ h.
        let same : same_front windows lower (a ∷ r) c ≡ true = ground arith in
        ((λ e. cc), same_front-IsFront (a ∷ r) c same)),
    (λ h.
        let (front, rest, e, same) = h.1 in
        let fits : ltb (length c) (length (a ∷ r)) ≡ false =
          ground (arith, IsFront-length (a ∷ r) c h.1) in
        rw fits (IsFront-same_front (a ∷ r) c front rest e same)),
  )

  -- The part of `d` that stands for what was in front of `b`.
  AllSame-split :
      (r front rest d : List Text)
      → AllSame r front
      → AllSame (front ++ rest) d
      → (x : List Text) × (y : List Text) × (d ≡ x ++ y) × AllSame r x
  AllSame-split [] [] rest d a b = ([], d, refl, tt)
  AllSame-split [] (b ∷ front) rest d a k = elim a [ ]
  AllSame-split (a ∷ r) [] rest d h k = elim h [ ]
  AllSame-split (a ∷ r) (b ∷ front) rest [] h k = elim k [ ]
  AllSame-split (a ∷ r) (b ∷ front) rest (c ∷ d) (h, more) (k, less) =
      let (x, y, e, same) = AllSame-split r front rest d more less in
      (c ∷ x, y, ap (◌∷◌ c) e, (Same-trans windows lower a b c h k, same))

  IsFront-trans : (r b c : List Text) → IsFront r b → IsFront b c → IsFront r c
  IsFront-trans r b c (front, rest, e, same) (front', rest', e', same') =
      let (x, y, split, all) =
        AllSame-split r front rest front' same (subst (λ l. AllSame l front') e same') in
      (x, y ++ rest', e' ∙ ap (λ l. l ++ rest') split ∙ append_assoc x y rest', all)

  -- A path is taken to lie in a root exactly when the root has a segment and its segments are, one
  -- by one, the first ones of the path: equal, or on Windows equal but for case.
  pub is_inside_root_iff :
      (root candidate : Text)
      → (is_inside_root windows lower root candidate ≡ true)
        ↔ ((split_segments root ≢ []) × IsFront (split_segments root) (split_segments candidate))
  unfolding is_inside_root
  is_inside_root_iff root candidate = inside_iff (split_segments root) (split_segments candidate)

  -- Lying in a root is transitive: what lies in a folder of the root lies in the root.
  is_inside_root_trans :
      (root folder candidate : Text)
      → is_inside_root windows lower root folder ≡ true
      → is_inside_root windows lower folder candidate ≡ true
      → is_inside_root windows lower root candidate ≡ true
  is_inside_root_trans root folder candidate h k =
      let (some_root, front) = (is_inside_root_iff root folder).0 h in
      let (_, next) = (is_inside_root_iff folder candidate).0 k in
      (is_inside_root_iff root candidate).1 (
        some_root,
        IsFront-trans (split_segments root) (split_segments folder) (split_segments candidate) front
            next,
      )
