-- ===== src/Sse/Lines.antt =====
-- What the decoder of sse.ts makes of the lines that the server writes.
use local_cast.Base.{
  ℕ, ◌≡◌, refl, false, [], ◌∷◌, ◌++◌, Option, none, some, Text, codes, includes, text_eq,
}
use local_cast.Sse.{
  Fields, line_step, field_line, split_colon, strip_space, dispatch_event, join_lines,
}

module _ (to_natural : Text → Option ℕ) (f : Fields) where
  pub line_step-data :
      (v : Text)
      → line_step to_natural f (codes "data: " ++ v)
        ≡ (record f { data_lines = f.data_lines ++ (v ∷ []) }, none)
  unfolding line_step split_colon strip_space field_line text_eq
  line_step-data v = refl

  pub line_step-event :
      (v : Text)
      → line_step to_natural f (codes "event: " ++ v) ≡ (record f { event = some v }, none)
  unfolding line_step split_colon strip_space field_line text_eq
  line_step-event v = refl

  pub line_step-id :
      (v : Text)
      → includes 0 v ≡ false
      → line_step to_natural f (codes "id: " ++ v) ≡ (record f { last_id = some v }, none)
  unfolding line_step split_colon strip_space field_line text_eq
  line_step-id v h = rw h refl

  -- A blank line behind one line of data.
  pub line_step-blank :
      (v : Text)
      → f.data_lines ≡ v ∷ []
      → line_step to_natural f [] ≡ (
        record f { data_lines = []; event = none },
        some (record { id = f.last_id; event = f.event; data_text = v }),
      )
  unfolding line_step dispatch_event join_lines
  line_step-blank v e = rw e refl
