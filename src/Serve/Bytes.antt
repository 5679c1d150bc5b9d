-- ===== src/Serve/Bytes.antt =====
-- A file that is fetched part by part through serveFile of http/range.ts.
use local_cast.Base.{
  ℕ, zero, suc, ◌+◌, ◌-◌, ◌≤◌, ◌<◌, ◌≡◌, refl, sym, ◌∙◌, false, List, [], ◌∷◌, ◌++◌, none, some,
  Text, codes, arith, length, drop, take-append-drop,
}
use local_cast.Contract.Permissions.{AccessMode}
use local_cast.Range.{single}
use local_cast.Range.Format.{between, format, parse-format, answer, max_safe}
use local_cast.Serve.{
  ServedFile, Request, inline, part, respond, effective_range, serve_file, read_slice, sent_bytes,
  drop_stale, is_full_body, body_of,
}
use local_cast.Serve.Answers.{serve_file-get}

module _ {A : Type 0} where
  drop_nil : (n : ℕ) → drop {A = A} n [] ≡ []
  drop_nil zero = refl
  drop_nil (suc n) = refl

  drop_all : (n : ℕ) (xs : List A) → length xs ≤ n → drop n xs ≡ []
  drop_all zero [] h = refl
  drop_all zero (x ∷ xs) h = elim h [ ]
  drop_all (suc n) [] h = refl
  drop_all (suc n) (x ∷ xs) h = drop_all n xs (omega arith)

  drop_more : (k a : ℕ) (xs : List A) → drop k (drop a xs) ≡ drop (a + k) xs
  drop_more k zero xs = let e : 0 + k ≡ k = omega arith in rw e
  drop_more k (suc a) [] = drop_nil k ∙ sym (drop_nil (suc a + k))
  drop_more k (suc a) (x ∷ xs) =
      let e : suc a + k ≡ suc (a + k) = omega arith in rw e (drop_more k a xs)

abbrev pub total : List ℕ → ℕ
total [] = 0
total (k ∷ ks) = k + total ks

abbrev pub AllPositive : List ℕ → Type 0
AllPositive [] = Unit
AllPositive (k ∷ ks) = (0 < k) × AllPositive ks

-- The request for the bytes from `a` to `b`.
abbrev pub part_request : ℕ → ℕ → Request
part_request a b = record {
  method = codes "GET";
  range = some (format (between a b));
  if_range = none;
}

answer-inside :
    (a b size : ℕ)
    → a ≤ b
    → b < size
    → answer (between a b) size ≡ single (record { start = a; end = b })
answer-inside a b size h k = ground arith

module _ (to_utc_string : ℕ → Text) (encode_uri_component : Text → Text) (file : ServedFile)
    (mode : AccessMode) (content : List ℕ) where
  -- The bytes that the answer to the request carries.
  pub fetch_part : ℕ → ℕ → List ℕ
  fetch_part a b =
      sent_bytes content
        (serve_file to_utc_string encode_uri_component (part_request a b) file mode inline)

  -- One request after the other, for parts of these lengths.
  pub fetch : ℕ → List ℕ → List ℕ
  fetch a [] = []
  fetch a (k ∷ ks) = fetch_part a (a + k - 1) ++ fetch (a + k) ks

  fetch_part_lem :
      (a b : ℕ)
      → file.is_dir ≡ false
      → file.size ≤ max_safe
      → a ≤ b
      → b < file.size
      → fetch_part a b ≡ read_slice content (a, b)
  unfolding fetch_part sent_bytes is_full_body respond part body_of effective_range drop_stale
  fetch_part_lem a b plain safe h k =
      let parsed =
        parse-format (between a b) file.size (omega arith, omega arith)
        ∙ answer-inside a b file.size h k in
      rw
        (
          serve_file-get to_utc_string encode_uri_component (part_request a b) file mode inline refl
              plain,
          parsed,
        )
        (ground arith)

  fetch_from :
      (a : ℕ) (ks : List ℕ)
      → file.is_dir ≡ false
      → file.size ≤ max_safe
      → length content ≡ file.size
      → AllPositive ks
      → a + total ks ≡ file.size
      → fetch a ks ≡ drop a content
  unfolding fetch
  fetch_from a [] plain safe len pos e = sym (drop_all a content (omega arith))
  fetch_from a (k ∷ ks) plain safe len (p, pos) e =
      let more : a + k - 1 - a + 1 ≡ k = omega arith in
      let part = fetch_part_lem a (a + k - 1) plain safe (omega arith) (omega arith) in
      let rest = fetch_from (a + k) ks plain safe len pos (omega arith) in
      rw (part, rest, more, ← drop_more k a content) (take-append-drop k (drop a content))

  -- A player that asks for a file part by part, in order, in parts of whatever positive lengths that
  -- make up its size, gets exactly the bytes of the file, which is no directory and has a size that is
  -- a safe integer.
  pub fetch_all :
      (ks : List ℕ)
      → file.is_dir ≡ false
      → file.size ≤ max_safe
      → length content ≡ file.size
      → AllPositive ks
      → total ks ≡ file.size
      → fetch 0 ks ≡ content
  fetch_all ks plain safe len pos e = fetch_from 0 ks plain safe len pos (omega arith)
