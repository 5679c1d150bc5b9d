-- ===== src/Uploads/Paths/Stability.antt =====
-- What `sanitizeRelativePath` of modules/uploads/paths.ts answers is a path that it lets through.
use local_cast.Base.{ℕ, ◌≡◌, ◌≢◌, refl, false, List, [], ◌∷◌, ◌++◌, Text, starts_with, arith, ok}
use local_cast.Js.Trim.{Without}
use local_cast.Uploads.Paths.{
  has_drive, is_absolute, join_slash, join_checked, sanitize_relative_path,
}
use local_cast.Uploads.Paths.Segments.{
  AllWithout, AllFilled, drop_empty_of_AllFilled, slashes_of_Without, includes_of_Without,
  join_slash-Without, split-join_slash,
}
use local_cast.Uploads.Paths.Safety.{AllSafe, check_segments_of_AllSafe, sanitize-AllSafe}

has_drive_of_Without : (s : Text) → Without b':' s → has_drive s ≡ false
unfolding has_drive
has_drive_of_Without [] a = refl
has_drive_of_Without (c ∷ []) a = refl
has_drive_of_Without (c ∷ d ∷ s) (h, (k, a)) = ground arith

is_absolute_of_Without :
    (c : ℕ) (s : Text) → c ≢ b'/' → Without b':' (c ∷ s) → is_absolute (c ∷ s) ≡ false
unfolding is_absolute starts_with
is_absolute_of_Without c s h a = ground (arith, has_drive_of_Without (c ∷ s) a)

is_absolute-join_slash :
    (w : Text) (ws : List Text)
    → w ≢ []
    → Without b'/' w
    → Without b':' (join_slash (w ∷ ws))
    → is_absolute (join_slash (w ∷ ws)) ≡ false
unfolding join_slash
is_absolute-join_slash [] ws f h a = absurd (f refl)
is_absolute-join_slash (c ∷ w) [] f (h, _) a = is_absolute_of_Without c w h a
is_absolute-join_slash (c ∷ w) (v ∷ ws) f (h, _) a =
    is_absolute_of_Without c (w ++ (b'/' ∷ join_slash (v ∷ ws))) h a

module _ (to_lower : Text → Text) where
  AllSafe-Without :
      (ws : List Text)
      → AllSafe to_lower ws
      → AllFilled ws × AllWithout b'/' ws × AllWithout 92 ws × AllWithout b':' ws × AllWithout 0 ws
  AllSafe-Without [] a = (tt, tt, tt, tt, tt)
  AllSafe-Without (w ∷ ws) ((f, _, _, slash, back, colon, nul, _, _, _), a) =
      let (fs, more_slash, more_back, more_colon, more_nul) = AllSafe-Without ws a in
      ((f, fs), (slash, more_slash), (back, more_back), (colon, more_colon), (nul, more_nul))

  join_checked_of_AllSafe :
      (w : Text) (ws : List Text)
      → AllSafe to_lower (w ∷ ws)
      → join_checked to_lower (w ∷ ws) ≡ ok (join_slash (w ∷ ws))
  unfolding join_checked
  join_checked_of_AllSafe w ws a = rw (check_segments_of_AllSafe to_lower (w ∷ ws) a) refl

  sanitize_of_AllSafe :
      (w : Text) (ws : List Text)
      → AllSafe to_lower (w ∷ ws)
      → sanitize_relative_path to_lower (join_slash (w ∷ ws)) ≡ ok (join_slash (w ∷ ws))
  unfolding sanitize_relative_path
  sanitize_of_AllSafe w ws a =
      let (filled, slash, back, colon, nul) = AllSafe-Without (w ∷ ws) a in
      let path = join_slash (w ∷ ws) in
      let no_nul =
        includes_of_Without 0 path (join_slash-Without 0 (w ∷ ws) (λ e. omega arith) nul) in
      let same = slashes_of_Without path (join_slash-Without 92 (w ∷ ws) (λ e. omega arith) back) in
      let relative =
        is_absolute-join_slash w ws filled.0 slash.0
          (join_slash-Without b':' (w ∷ ws) (λ e. omega arith) colon) in
      rw
        (
          no_nul,
          same,
          relative,
          split-join_slash w ws slash,
          drop_empty_of_AllFilled (w ∷ ws) filled,
        )
        (join_checked_of_AllSafe w ws a)

  again :
      (ws : List Text)
      → ws ≢ []
      → AllSafe to_lower ws
      → sanitize_relative_path to_lower (join_slash ws) ≡ ok (join_slash ws)
  again [] some_ws a = absurd (some_ws refl)
  again (w ∷ ws) some_ws a = sanitize_of_AllSafe w ws a

  -- The path that is answered is let through again, and comes back as it is: to sanitize twice is to
  -- sanitize once.
  sanitize-sanitize :
      (input y : Text)
      → sanitize_relative_path to_lower input ≡ ok y
      → sanitize_relative_path to_lower y ≡ ok y
  sanitize-sanitize input y h =
      let (ws, some_ws, safe, e) = sanitize-AllSafe to_lower input y h in
      rw e (again ws some_ws safe)
