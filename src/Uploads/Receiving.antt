-- ===== src/Uploads/Receiving.antt =====
-- The loop of `append` in modules/uploads/sessions.ts over the chunks of a body.
use mathlib.Core.List.{append-nil, append_assoc}
use local_cast.Base.{
  ℕ, zero, suc, ◌+◌, ◌-◌, ◌≤◌, ◌<◌, ◌≡◌, ◌↔◌, refl, sym, ap, ◌∙◌, true, false, Bool-cases, inl, inr,
  List, [], ◌∷◌, ◌++◌, arith, ltb, if◌then◌else◌, length, length-append, take, drop,
}
use local_cast.Uploads.{
  UploadRow, Received, write_at, receive_chunk, receive, maybe_publish_progress,
}

module _ {A : Type 0} where
  take-length : (xs : List A) (n : ℕ) → length xs ≡ n → take n xs ≡ xs
  take-length [] zero h = refl
  take-length [] (suc n) h = refl
  take-length (x ∷ xs) zero h = absurd (omega arith)
  take-length (x ∷ xs) (suc n) h = ap (◌∷◌ x) (take-length xs n (omega arith))

  drop_beyond : (xs : List A) (n : ℕ) → length xs ≤ n → drop n xs ≡ []
  drop_beyond [] zero h = refl
  drop_beyond [] (suc n) h = refl
  drop_beyond (x ∷ xs) zero h = elim h [ ]
  drop_beyond (x ∷ xs) (suc n) h = drop_beyond xs n (omega arith)

-- A write at the end of the file appends.
pub write_at-end :
    (content bytes : List ℕ) (at : ℕ)
    → length content ≡ at
    → write_at content at bytes ≡ content ++ bytes
unfolding write_at
write_at-end content bytes at h =
    let none_missing : at - length content ≡ 0 = omega arith in
    rw
      (
        take-length content at h,
        none_missing,
        drop_beyond content (at + length bytes) (omega arith),
        append-nil bytes,
      )
      refl

-- The bytes of the chunks that fit, up to the first one that does not.
abbrev pub accepted : ℕ → ℕ → List (ℕ × List ℕ) → List ℕ
accepted total received [] = []
accepted total received ((t, bytes) ∷ cs) =
    let rest = accepted total (received + length bytes) cs in
    if ltb total (received + length bytes) then [] else bytes ++ rest

abbrev pub body_length : List (ℕ × List ℕ) → ℕ
body_length [] = 0
body_length ((t, bytes) ∷ cs) = length bytes + body_length cs

receive-overflow :
    (row : UploadRow) (r : Received) (cs : List (ℕ × List ℕ))
    → r.overflow ≡ true
    → ((receive row r cs).content ≡ r.content)
      × ((receive row r cs).received ≡ r.received)
      × ((receive row r cs).overflow ≡ true)
unfolding receive receive_chunk
receive-overflow row r [] h = (refl, refl, h)
receive-overflow row r ((t, []) ∷ cs) h = receive-overflow row r cs h
receive-overflow row r ((t, b ∷ bytes) ∷ cs) h =
    rw h (receive-overflow row (record r { overflow = true }) cs refl)

module _ (row : UploadRow) (r : Received) (t b : ℕ) (bytes : List ℕ)
    (open_ : r.overflow ≡ false) where
  receive_full :
      ltb row.total_bytes (r.received + length (b ∷ bytes)) ≡ true
      → (cs : List (ℕ × List ℕ))
      → receive row r ((t, b ∷ bytes) ∷ cs) ≡ receive row (record r { overflow = true }) cs
  unfolding receive receive_chunk
  receive_full full cs = ap (λ x. receive row x cs) (rw (open_, full) refl)

  receive_room :
      ltb row.total_bytes (r.received + length (b ∷ bytes)) ≡ false
      → (cs : List (ℕ × List ℕ))
      → receive row r ((t, b ∷ bytes) ∷ cs)
        ≡ receive row
            (record {
              service = maybe_publish_progress r.service row (r.received + length (b ∷ bytes)) t;
              content = write_at r.content r.received (b ∷ bytes);
              received = r.received + length (b ∷ bytes);
              overflow = false;
            })
            cs
  unfolding receive receive_chunk
  receive_room room cs = ap (λ x. receive row x cs) (rw (open_, room) refl)

receive_nil : (row : UploadRow) (r : Received) → receive row r [] ≡ r
unfolding receive
receive_nil row r = refl

receive_empty :
    (row : UploadRow) (r : Received) (t : ℕ) (cs : List (ℕ × List ℕ))
    → receive row r ((t, []) ∷ cs) ≡ receive row r cs
unfolding receive receive_chunk
receive_empty row r t cs = refl

-- The file grows by the chunks that fit and by nothing else, its length is the count of the bytes
-- received, which does not go past the size of the upload, and `overflow` says whether the body as
-- a whole is too long.
pub receive_lem :
    (row : UploadRow) (r : Received) (cs : List (ℕ × List ℕ))
    → r.overflow ≡ false
    → length r.content ≡ r.received
    → r.received ≤ row.total_bytes
    → ((receive row r cs).content ≡ r.content ++ accepted row.total_bytes r.received cs)
      × ((receive row r cs).received ≡ length (receive row r cs).content)
      × ((receive row r cs).received ≤ row.total_bytes)
      × (((receive row r cs).overflow ≡ false) ↔ (r.received + body_length cs ≤ row.total_bytes))
receive_lem row r [] h len fits =
    rw (receive_nil row r) (sym (append-nil r.content), sym len, fits, ((λ _. omega arith), λ _. h))
receive_lem row r ((t, []) ∷ cs) h len fits =
    let (content, len', fits', exact) = receive_lem row r cs h len fits in
    let same : r.received + 0 ≡ r.received = omega arith in
    let small : ltb row.total_bytes r.received ≡ false = ground arith in
    rw (receive_empty row r t cs) (
      rw (same, small) content,
      len',
      fits',
      ((λ e. omega (arith, exact.0 e)), (λ k. exact.1 (omega arith))),
    )
receive_lem row r ((t, b ∷ bytes) ∷ cs) h len fits =
    elim (Bool-cases (ltb row.total_bytes (r.received + length (b ∷ bytes)))) [
      | inl full ↦
          let past : row.total_bytes < r.received + length (b ∷ bytes) = ground arith in
          let (content, received, over) =
            receive-overflow row (record r { overflow = true }) cs refl in
          rw (receive_full row r t b bytes h full cs, full)
            (
              content ∙ sym (append-nil r.content),
              received ∙ sym len ∙ ap length (sym content),
              rw received fits,
              ((λ e. cc), (λ k. absurd (omega arith))),
            )
      | inr room ↦
          let next : Received = record {
            service = maybe_publish_progress r.service row (r.received + length (b ∷ bytes)) t;
            content = write_at r.content r.received (b ∷ bytes);
            received = r.received + length (b ∷ bytes);
            overflow = false;
          } in
          let grown = write_at-end r.content (b ∷ bytes) r.received len in
          let (content, len', fits', exact) =
            receive_lem row next cs refl
              (omega (arith, ap length grown, length-append r.content (b ∷ bytes)))
              (ground arith) in
          rw (receive_room row r t b bytes h room cs, room)
            (
              content
                  ∙ ap (λ x. x ++ accepted row.total_bytes (r.received + length (b ∷ bytes)) cs)
                      grown
                  ∙ append_assoc r.content (b ∷ bytes) _,
              len',
              fits',
              ((λ e. omega (arith, exact.0 e)), (λ k. exact.1 (omega arith))),
            )
    ]
