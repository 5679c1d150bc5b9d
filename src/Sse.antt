-- ===== src/Sse.antt =====
-- packages/client-core/src/sse.ts: the incremental decoder of a text/event-stream.
--
-- The decoder's buffer stands beside its other four fields, which a line changes. `Number(value)`
-- of a `retry:` field is a parameter: the natural number that it is, if it is one.
pub mod Chunks
pub mod Lines
pub mod Stream
mod Tests
use local_cast.Base.{
  ℕ, zero, suc, Bool, List, [], ◌∷◌, ◌++◌, Option, none, some, Text, codes, text_eq, includes, ◌==◌,
  if◌then◌else◌, length,
}

pub record SseFrame : Type 0 where
  pub id : Option Text
  pub event : Option Text
  pub data_text : Text

pub record Fields : Type 0 where
  pub data_lines : List Text
  pub event : Option Text
  pub last_id : Option Text
  pub retry_ms : Option ℕ

pub record SseDecoder : Type 0 where
  pub buffer : Text
  pub fields : Fields

pub new : SseDecoder
new = record {
  buffer = [];
  fields = record { data_lines = []; event = none; last_id = none; retry_ms = none };
}

-- `data.join('\n')`
pub join_lines : List Text → Text
join_lines [] = []
join_lines (s ∷ []) = s
join_lines (s ∷ t ∷ ts) = s ++ (10 ∷ join_lines (t ∷ ts))

dispatch_event : Fields → List Text → Fields × Option SseFrame
unfolding join_lines
dispatch_event f [] = (record f { event = none }, none)
dispatch_event f (s ∷ ss) = (
  record f { data_lines = []; event = none },
  some (record { id = f.last_id; event = f.event; data_text = join_lines (s ∷ ss) }),
)

strip_space : Text → Text
strip_space [] = []
strip_space (c ∷ s) = if c == 32 then s else c ∷ s

-- The field and the value of a line: what stands before and behind its first colon.
pub split_colon : Text → Text × Text
unfolding strip_space
split_colon [] = ([], [])
split_colon (c ∷ s) =
    let (field, value) = split_colon s in
    if c == b':' then ([], strip_space s) else (c ∷ field, value)

-- `match` on LINE_END: the text before the first line end, and the text behind it.
pub after_cr : Text → Text
after_cr [] = []
after_cr (c ∷ s) = if c == 10 then s else c ∷ s

abbrev put_char : ℕ → Option (Text × Text) → Option (Text × Text)
put_char c none = none
put_char c (some (line, rest)) = some (c ∷ line, rest)

pub next_line : Text → Option (Text × Text)
unfolding after_cr
next_line [] = none
next_line (c ∷ s) =
    let more = put_char c (next_line s) in
    if c == 10 then some ([], s) else if c == 13 then some ([], after_cr s) else more

abbrev put_frame : Option SseFrame → List SseFrame → List SseFrame
put_frame none frames = frames
put_frame (some frame) frames = frame ∷ frames

module _ (to_natural : Text → Option ℕ) where
  set_retry : Fields → Option ℕ → Fields
  set_retry f none = f
  set_retry f (some ms) = record f { retry_ms = some ms }

  field_line : Fields → Text → Text → Fields
  unfolding set_retry
  field_line f field value =
      if text_eq field (codes "data")
      then record f { data_lines = f.data_lines ++ (value ∷ []) }
      else if text_eq field (codes "event")
      then record f { event = some value }
      else if text_eq field (codes "id")
      then (if includes 0 value then f else record f { last_id = some value })
      else if text_eq field (codes "retry")
      then set_retry f (to_natural value)
      else f

  -- `#line`
  pub line_step : Fields → Text → Fields × Option SseFrame
  unfolding dispatch_event split_colon field_line
  line_step f [] = dispatch_event f f.data_lines
  line_step f (c ∷ s) =
      if c == b':'
      then (f, none)
      else (let (field, value) = split_colon (c ∷ s) in (field_line f field value, none))

  -- The loop of `push`: what is left in the buffer, and the frames. Each round takes a line end off
  -- the buffer, so that one round more than the buffer is long is enough.
  pub drain : ℕ → Fields → Text → SseDecoder × List SseFrame
  unfolding next_line line_step
  drain zero f buffer = (record { buffer = buffer; fields = f }, [])
  drain (suc fuel) f buffer = elim (next_line buffer) [
    | none ↦ (record { buffer = buffer; fields = f }, [])
    | some (line, rest) ↦
        let (f', frame) = line_step f line in
        let (d, frames) = drain fuel f' rest in (d, put_frame frame frames)
  ]

  pub push : SseDecoder → Text → SseDecoder × List SseFrame
  unfolding drain
  push d chunk = let buffer = d.buffer ++ chunk in drain (suc (length buffer)) d.fields buffer

pub reset : SseDecoder → SseDecoder
reset d = record {
  buffer = [];
  fields = record {
    data_lines = [];
    event = none;
    last_id = d.fields.last_id;
    retry_ms = d.fields.retry_ms;
  };
}
