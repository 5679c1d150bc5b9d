-- ===== src/Uploads/Paths/Safety.antt =====
-- What `sanitizeRelativePath` of modules/uploads/paths.ts lets through.
use local_cast.Base.{
  ◌≡◌, ◌≢◌, refl, sym, Bool, true, false, not, ◌||◌, Result-cases, inl, inr, List, [], ◌∷◌, Text,
  codes, text_eq, text_eq_iff, includes, arith, Result, ok, err, ◌>>◌, throw_if,
}
use local_cast.Contract.Errors.{ApiException, plain, path_escapes_root, bad_request}
use local_cast.Js.{split}
use local_cast.Js.Trim.{Without}
use local_cast.Uploads.Paths.{
  is_reserved, slashes, is_absolute, drop_empty, is_nil, is_forbidden, has_forbidden, strip_end,
  stem_of, join_slash, check_segment, check_segments, join_checked, sanitize_relative_path,
}
use local_cast.Uploads.Paths.Segments.{
  AllWithout, AllFilled, split-AllWithout, split-keeps, drop_empty-AllWithout, drop_empty-AllFilled,
  slashes-Without, slashes-keeps, Without-of_includes, includes_of_Without,
}

-- No character that Windows forbids in a name.
abbrev pub AllAllowed : Text → Type 0
AllAllowed [] = Unit
AllAllowed (c ∷ s) = (is_forbidden c ≡ false) × AllAllowed s

>>-ok {ℓ} :
    {B : Type ℓ} (m : Result (Unit {0})) (k : Result B) {b : B}
    → (m >> k) ≡ ok b
    → (m ≡ ok tt) × (k ≡ ok b)
>>-ok (ok u) k h = (refl, h)
>>-ok (err e) k h = absurd cc

throw_if-ok : (b : Bool) (e : ApiException) → throw_if b e ≡ ok tt → b ≡ false
throw_if-ok true e h = absurd cc
throw_if-ok false e h = refl

filled_of : (ws : List Text) → is_nil ws ≡ false → ws ≢ []
filled_of [] h = absurd cc
filled_of (w ∷ ws) h = λ e. cc

-- Five checks in a row pass when none of the tests holds.
module _ (a b c d e : Bool) (x y z u v : ApiException) where
  checks-ok :
      (throw_if a x >> (throw_if b y >> (throw_if c z >> (throw_if d u >> throw_if e v)))) ≡ ok tt
      → (a ≡ false) × (b ≡ false) × (c ≡ false) × (d ≡ false) × (e ≡ false)
  checks-ok h = ground arith

  checks_pass :
      a ≡ false
      → b ≡ false
      → c ≡ false
      → d ≡ false
      → e ≡ false
      → (throw_if a x >> (throw_if b y >> (throw_if c z >> (throw_if d u >> throw_if e v)))) ≡ ok tt
  checks_pass ha hb hc hd he = rw (ha, hb, hc, hd, he) refl

module _ (to_lower : Text → Text) where
  -- A segment that names an entry of its folder and nothing else.
  abbrev pub IsSafe : Text → Type 0
  IsSafe w =
      (w ≢ [])
      × (w ≢ codes ".")
      × (w ≢ codes "..")
      × Without b'/' w
      × Without 92 w
      × Without b':' w
      × Without 0 w
      × AllAllowed w
      × (strip_end w ≡ w)
      × (is_reserved (to_lower (stem_of w)) ≡ false)

  abbrev pub AllSafe : List Text → Type 0
  AllSafe [] = Unit
  AllSafe (w ∷ ws) = IsSafe w × AllSafe ws

  AllAllowed-of_has_forbidden : (w : Text) → has_forbidden w ≡ false → AllAllowed w
  unfolding has_forbidden
  AllAllowed-of_has_forbidden [] e = tt
  AllAllowed-of_has_forbidden (c ∷ w) e = ground (arith, AllAllowed-of_has_forbidden w)

  has_forbidden_of_AllAllowed : (w : Text) → AllAllowed w → has_forbidden w ≡ false
  unfolding has_forbidden
  has_forbidden_of_AllAllowed [] a = refl
  has_forbidden_of_AllAllowed (c ∷ w) (h, a) = ground (arith, has_forbidden_of_AllAllowed w a)

  check_segment-ok :
      (w : Text)
      → check_segment to_lower w ≡ ok tt
      → (w ≢ codes ".")
        × (w ≢ codes "..")
        × (includes b':' w ≡ false)
        × (has_forbidden w ≡ false)
        × (strip_end w ≡ w)
        × (is_reserved (to_lower (stem_of w)) ≡ false)
  unfolding check_segment
  check_segment-ok w h =
      let (dots, colon, forbidden, tidy, free) =
        checks-ok (text_eq w (codes ".") || text_eq w (codes "..")) (includes b':' w)
          (has_forbidden w) (not (text_eq w (strip_end w))) (is_reserved (to_lower (stem_of w)))
          (plain path_escapes_root) (plain path_escapes_root) (plain bad_request)
          (plain bad_request) (plain bad_request) h in
      (
        (λ k. ground (arith, (text_eq_iff w (codes ".")).1 k, dots)),
        (λ k. ground (arith, (text_eq_iff w (codes "..")).1 k, dots)),
        colon,
        forbidden,
        ground (arith, (text_eq_iff w (strip_end w)).0, tidy),
        free,
      )

  check_segment_of_IsSafe : (w : Text) → IsSafe w → check_segment to_lower w ≡ ok tt
  unfolding check_segment
  check_segment_of_IsSafe w (filled, one, two, slash, back, colon, nul, allowed, tidy, free) =
      let not_one : text_eq w (codes ".") ≡ false =
        ground (arith, (text_eq_iff w (codes ".")).0, one) in
      let not_two : text_eq w (codes "..") ≡ false =
        ground (arith, (text_eq_iff w (codes "..")).0, two) in
      checks_pass (text_eq w (codes ".") || text_eq w (codes "..")) (includes b':' w)
        (has_forbidden w) (not (text_eq w (strip_end w))) (is_reserved (to_lower (stem_of w)))
        (plain path_escapes_root) (plain path_escapes_root) (plain bad_request) (plain bad_request)
        (plain bad_request) (rw (not_one, not_two) refl) (includes_of_Without b':' w colon)
        (has_forbidden_of_AllAllowed w allowed)
        (rw ((text_eq_iff w (strip_end w)).1 (sym tidy)) refl) free

  check_segments-ok :
      (ws : List Text)
      → check_segments to_lower ws ≡ ok tt
      → AllFilled ws
      → AllWithout b'/' ws
      → AllWithout 92 ws
      → AllWithout 0 ws
      → AllSafe ws
  unfolding check_segments
  check_segments-ok [] h f a b c = tt
  check_segments-ok (w ∷ ws) h (f, fs) (a, more_a) (b, more_b) (c, more_c) =
      elim (Result-cases (check_segment to_lower w)) [
        | inl (e, bad) ↦ absurd (cc (rw bad at h))
        | inr (u, good) ↦
            let (one, two, colon, forbidden, tidy, free) = check_segment-ok w good in
            (
              (
                f,
                one,
                two,
                a,
                b,
                Without-of_includes b':' w colon,
                c,
                AllAllowed-of_has_forbidden w forbidden,
                tidy,
                free,
              ),
              check_segments-ok ws (rw good at h) fs more_a more_b more_c,
            )
      ]

  pub check_segments_of_AllSafe : (ws : List Text) → AllSafe ws → check_segments to_lower ws ≡ ok tt
  unfolding check_segments
  check_segments_of_AllSafe [] a = refl
  check_segments_of_AllSafe (w ∷ ws) (h, a) =
      rw (check_segment_of_IsSafe w h) (check_segments_of_AllSafe ws a)

  join_checked-ok :
      (ws : List Text) (y : Text)
      → join_checked to_lower ws ≡ ok y
      → (ws ≢ []) × (check_segments to_lower ws ≡ ok tt) × (join_slash ws ≡ y)
  unfolding join_checked
  join_checked-ok ws y h =
      let (some_ws, rest) =
        >>-ok (throw_if (is_nil ws) (plain bad_request))
          (check_segments to_lower ws >> ok (join_slash ws)) h in
      let (checked, joined) = >>-ok (check_segments to_lower ws) (ok (join_slash ws)) rest in
      (filled_of ws (throw_if-ok (is_nil ws) (plain bad_request) some_ws), checked, cc)

  sanitize_open :
      (input y : Text)
      → sanitize_relative_path to_lower input ≡ ok y
      → (includes 0 input ≡ false)
        × (is_absolute (slashes input) ≡ false)
        × (join_checked to_lower (drop_empty (split b'/' (slashes input))) ≡ ok y)
  unfolding sanitize_relative_path
  sanitize_open input y h =
      let joined = join_checked to_lower (drop_empty (split b'/' (slashes input))) in
      let absolute = throw_if (is_absolute (slashes input)) (plain path_escapes_root) in
      let (nul, rest) =
        >>-ok (throw_if (includes 0 input) (plain path_escapes_root)) (absolute >> joined) h in
      let (relative, last) = >>-ok absolute joined rest in
      (
        throw_if-ok (includes 0 input) (plain path_escapes_root) nul,
        throw_if-ok (is_absolute (slashes input)) (plain path_escapes_root) relative,
        last,
      )

  -- A path that is let through is one or more segments joined by slashes, each of which names an
  -- entry of its folder and nothing else: it is not empty and no dot segment, holds no separator, no
  -- colon, no null and no character that Windows forbids, does not end in a dot or a space, and is
  -- not one of the reserved names.
  pub sanitize-AllSafe :
      (input y : Text)
      → sanitize_relative_path to_lower input ≡ ok y
      → (ws : List Text) × (ws ≢ []) × AllSafe ws × (y ≡ join_slash ws)
  sanitize-AllSafe input y h =
      let (nul, _, joined) = sanitize_open input y h in
      let path = slashes input in
      let ws = drop_empty (split b'/' path) in
      let (some_ws, checked, e) = join_checked-ok ws y joined in
      (
        ws,
        some_ws,
        check_segments-ok ws checked (drop_empty-AllFilled (split b'/' path))
            (drop_empty-AllWithout b'/' (split b'/' path) (split-AllWithout b'/' path))
            (drop_empty-AllWithout 92 (split b'/' path)
              (split-keeps b'/' 92 path (slashes-Without input)))
            (drop_empty-AllWithout 0 (split b'/' path)
              (split-keeps b'/' 0 path (slashes-keeps input (Without-of_includes 0 input nul)))),
        sym e,
      )
