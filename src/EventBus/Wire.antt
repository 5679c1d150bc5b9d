-- ===== src/EventBus/Wire.antt =====
-- The events route of the server against the decoder of the client.
use local_cast.Base.{
  ℕ, ◌≡◌, refl, ◌∙◌, false, List, [], ◌∷◌, ◌++◌, Option, none, some, Text, codes, arith, includes,
}
use local_cast.Js.{decimal}
use local_cast.Js.Decimal.{AllDigits, decimal-AllDigits}
use local_cast.EventBus.{Event, send}
use local_cast.Sse.{SseDecoder, Fields, push}
use local_cast.Sse.Lines.{line_step-data, line_step-event, line_step-id, line_step-blank}
use local_cast.Sse.Stream.{AllLines, NoLineEnd, LineEnd, lf, text_of, read_lines, push-text_of}

includes_of_AllDigits : (s : Text) → AllDigits s → includes 0 s ≡ false
unfolding includes
includes_of_AllDigits [] a = refl
includes_of_AllDigits (c ∷ s) (lo, hi, a) = ground (arith, includes_of_AllDigits s a)

NoLineEnd-of_AllDigits : (s : Text) → AllDigits s → NoLineEnd s
NoLineEnd-of_AllDigits [] a = tt
NoLineEnd-of_AllDigits (c ∷ s) (lo, hi, a) = (omega arith, omega arith, NoLineEnd-of_AllDigits s a)

NoLineEnd-append : (s t : Text) → NoLineEnd s → NoLineEnd t → NoLineEnd (s ++ t)
NoLineEnd-append [] t a b = b
NoLineEnd-append (c ∷ s) t (n, r, a) b = (n, r, NoLineEnd-append s t a b)

-- The lines of an event.
abbrev lines_of : ℕ → Event → List (Text × LineEnd)
lines_of id e =
    (codes "id: " ++ decimal id, lf)
    ∷ (codes "event: " ++ e.kind, lf)
    ∷ (codes "data: " ++ e.json, lf)
    ∷ ([], lf)
    ∷ []

send-text_of : (id : ℕ) (e : Event) → send id e ≡ text_of (lines_of id e)
unfolding send text_of
send-text_of id e = refl

module _ (to_natural : Text → Option ℕ) where
  read_lines-lines_of :
      (f : Fields) (id : ℕ) (e : Event)
      → f.data_lines ≡ []
      → read_lines to_natural f (lines_of id e) ≡ (
        record f { data_lines = []; event = none; last_id = some (decimal id) },
        record { id = some (decimal id); event = some e.kind; data_text = e.json } ∷ [],
      )
  unfolding read_lines
  read_lines-lines_of f id e empty =
      let f1 : Fields = record f { last_id = some (decimal id) } in
      let f2 : Fields = record f1 { event = some e.kind } in
      let f3 : Fields = record f2 { data_lines = f2.data_lines ++ (e.json ∷ []) } in
      rw
        (
          line_step-id to_natural f (decimal id)
              (includes_of_AllDigits (decimal id) (decimal-AllDigits id)),
          line_step-event to_natural f1 e.kind,
          line_step-data to_natural f2 e.json,
          line_step-blank to_natural f3 e.json (rw empty refl),
        )
        refl

  -- An event that the server writes, fed to a decoder that stands between two events, is one frame
  -- with the event's id, type and JSON, and leaves the decoder between two events with that id as the
  -- last one. It needs a type and a JSON without a line end, as JSON.stringify makes it.
  pub push-send :
      (d : SseDecoder) (id : ℕ) (e : Event)
      → d.buffer ≡ []
      → d.fields.data_lines ≡ []
      → NoLineEnd e.kind
      → NoLineEnd e.json
      → push to_natural d (send id e) ≡ (
        record {
          buffer = [];
          fields = record d.fields { data_lines = []; event = none; last_id = some (decimal id) };
        },
        record { id = some (decimal id); event = some e.kind; data_text = e.json } ∷ [],
      )
  push-send d id e clean empty a b =
      let digits = NoLineEnd-of_AllDigits (decimal id) (decimal-AllDigits id) in
      let lines : AllLines (lines_of id e) = (
        NoLineEnd-append (codes "id: ") (decimal id) (omega arith) digits,
        (
          NoLineEnd-append (codes "event: ") e.kind (omega arith) a,
          (NoLineEnd-append (codes "data: ") e.json (omega arith) b, (tt, tt)),
        ),
      ) in
      rw (send-text_of id e) (
        push-text_of to_natural d (lines_of id e) clean lines
        ∙ rw (read_lines-lines_of d.fields id e empty) refl)
