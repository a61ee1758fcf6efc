-- ===== src/Stream/RoundTrip.antt =====
-- Writing events as a stream and parsing them again.
use gpt_trace_extractor_for.Base.{
  ◌≡◌, ◌≢◌, refl, sym, ◌∙◌, ap, Option, none, some, List, [], ◌∷◌, ◌++◌, arith, All, nat_eq, map,
}
use mathlib.Core.List.{append_assoc, append-nil}
use gpt_trace_extractor_for.Stream.{
  Chars, newline, carriage_return, colon, space, SseEvent, split_lines, join_lines, event_field,
  data_field, Pending, nothing_pending, flush, parse_lines, parse_sse,
}
use gpt_trace_extractor_for.Stream.Lines.{
  IsOneLine, normalized_id, no_return-join, All-append, split-frames, split_lines-IsOneLine,
  split_lines-ne-nil, join-split,
}

abbrev event_line : Chars → Chars
event_line name = event_field ++ colon ∷ space ∷ name

abbrev data_line : Chars → Chars
data_line line = data_field ++ colon ∷ space ∷ line

-- the lines of one event, with the empty line that ends it
abbrev data_frame : List Chars → List Chars
data_frame [] = [] ∷ []
data_frame (line ∷ lines) = data_line line ∷ data_frame lines

abbrev pub frame : Pending → List Chars
frame p = elim p.event_name [
  | none ↦ data_frame p.data_lines
  | some name ↦ event_line name ∷ data_frame p.data_lines
]

abbrev pub frames : List Pending → List Chars
frames [] = [] ∷ []
frames (p ∷ ps) = frame p ++ frames ps

abbrev flush_all : List Pending → List SseEvent
flush_all [] = []
flush_all (p ∷ ps) = flush p ++ flush_all ps

-- an event by the lines of its data
abbrev lines_of : SseEvent → Pending
lines_of e = record { event_name = e.event; data_lines = split_lines e.data' }

-- the stream of the events: a line for the name, if there is one, and one for each line of data
abbrev pub format : List SseEvent → Chars
format es = join_lines (frames (map lines_of es))

parse-data_frame :
    (name : Option Chars) (before lines : List Chars) (more : List Chars)
    → parse_lines (data_frame lines ++ more) (record { event_name = name; data_lines = before })
      ≡ flush (record { event_name = name; data_lines = before ++ lines })
        ++ parse_lines more nothing_pending
unfolding parse_lines
parse-data_frame name before [] more =
    ap
      (λ lines.
        flush (record { event_name = name; data_lines = lines })
        ++ parse_lines more nothing_pending)
      (sym (append-nil before))
parse-data_frame name before (line ∷ lines) more =
    parse-data_frame name (before ++ line ∷ []) lines more
    ∙ ap
        (λ ls.
          flush (record { event_name = name; data_lines = ls }) ++ parse_lines more nothing_pending)
        (append_assoc before (line ∷ []) lines)

parse-frame :
    (name : Option Chars) (lines : List Chars) (more : List Chars)
    → let p : Pending = record { event_name = name; data_lines = lines } in
      parse_lines (frame p ++ more) nothing_pending ≡ flush p ++ parse_lines more nothing_pending
unfolding parse_lines
parse-frame none lines more = parse-data_frame none [] lines more
parse-frame (some name) lines more = parse-data_frame (some name) [] lines more

parse-frames : (ps : List Pending) → parse_lines (frames ps) nothing_pending ≡ flush_all ps
unfolding parse_lines
parse-frames [] = refl
parse-frames (p ∷ ps) =
    parse-frame p.event_name p.data_lines (frames ps) ∙ ap (λ es. flush p ++ es) (parse-frames ps)

abbrev pub NameIsOneLine : Option Chars → Type 0
NameIsOneLine none = Unit
NameIsOneLine (some name) = IsOneLine name

abbrev IsWritable : Pending → Type 0
IsWritable p = NameIsOneLine p.event_name × All IsOneLine p.data_lines

-- The name of the event has no line break in it, and its data no carriage return.
abbrev pub IsPrintable : SseEvent → Type 0
IsPrintable e = NameIsOneLine e.event × All (λ c. c ≢ carriage_return) e.data'

data_frame-IsOneLine : (lines : List Chars) → All IsOneLine lines → All IsOneLine (data_frame lines)
data_frame-IsOneLine [] h = (tt, tt)
data_frame-IsOneLine (line ∷ lines) h = (
  All-append (λ c. (c ≢ newline) × (c ≢ carriage_return)) (data_field ++ colon ∷ space ∷ []) line
      (omega arith) h.0,
  data_frame-IsOneLine lines h.1,
)

frame-IsOneLine :
    (name : Option Chars) (lines : List Chars)
    → NameIsOneLine name
    → All IsOneLine lines
    → All IsOneLine (frame (record { event_name = name; data_lines = lines }))
frame-IsOneLine none lines n h = data_frame-IsOneLine lines h
frame-IsOneLine (some name) lines n h = (
  All-append (λ c. (c ≢ newline) × (c ≢ carriage_return)) (event_field ++ colon ∷ space ∷ []) name
      (omega arith) n,
  data_frame-IsOneLine lines h,
)

frames-IsOneLine : (ps : List Pending) → All IsWritable ps → All IsOneLine (frames ps)
frames-IsOneLine [] h = (tt, tt)
frames-IsOneLine (p ∷ ps) h =
    All-append IsOneLine (frame p) (frames ps)
      (frame-IsOneLine p.event_name p.data_lines h.0.0 h.0.1) (frames-IsOneLine ps h.1)

frame-ne-nil :
    (name : Option Chars) (lines more : List Chars)
    → frame (record { event_name = name; data_lines = lines }) ++ more ≢ []
frame-ne-nil none [] more e = cc
frame-ne-nil none (line ∷ lines) more e = cc
frame-ne-nil (some name) lines more e = cc

frames-ne-nil : (ps : List Pending) → frames ps ≢ []
frames-ne-nil [] e = cc
frames-ne-nil (p ∷ ps) e = frame-ne-nil p.event_name p.data_lines (frames ps) e

parse_sse-frames :
    (ps : List Pending) → All IsWritable ps → parse_sse (join_lines (frames ps)) ≡ flush_all ps
unfolding parse_sse
parse_sse-frames ps h =
    rw
      (
        normalized_id (join_lines (frames ps)) (no_return-join (frames ps) (frames-IsOneLine ps h)),
        split-frames (frames ps) (frames-ne-nil ps) (frames-IsOneLine ps h),
      )
      (parse-frames ps)

flush-lines :
    (name : Option Chars) (lines : List Chars)
    → lines ≢ []
    → flush (record { event_name = name; data_lines = lines })
      ≡ record { event = name; data' = join_lines lines } ∷ []
unfolding flush
flush-lines none [] n = absurd (n refl)
flush-lines none (line ∷ lines) n = refl
flush-lines (some name) lines n = refl

flush-lines_of : (e : SseEvent) → flush (lines_of e) ≡ e ∷ []
flush-lines_of e =
    flush-lines e.event (split_lines e.data') (split_lines-ne-nil e.data')
    ∙ ap (λ text. record { event = e.event; data' = text } ∷ []) (join-split e.data')

flush_all-lines_of : (es : List SseEvent) → flush_all (map lines_of es) ≡ es
flush_all-lines_of [] = refl
flush_all-lines_of (e ∷ es) = rw (flush-lines_of e, flush_all-lines_of es) refl

lines_of-IsWritable : (es : List SseEvent) → All IsPrintable es → All IsWritable (map lines_of es)
lines_of-IsWritable [] h = tt
lines_of-IsWritable (e ∷ es) h =
    ((h.0.0, split_lines-IsOneLine e.data' h.0.1), lines_of-IsWritable es h.1)

-- Events that are written as a stream, with a line for the name and one for each line of data, are
-- parsed again as they were, with their names and their data, if no name has a line break in it
-- and no data a carriage return.
pub parse_sse-format : (es : List SseEvent) → All IsPrintable es → parse_sse (format es) ≡ es
parse_sse-format es h =
    parse_sse-frames (map lines_of es) (lines_of-IsWritable es h) ∙ flush_all-lines_of es
