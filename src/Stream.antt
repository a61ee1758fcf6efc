-- ===== src/Stream.antt =====
-- apps/runner/src/gpt_trace_runner/stream.py: the server-sent events of a conversation. Here is
-- the event parser, over the code points of the text.
pub mod Inspect
pub mod Wait
pub mod Lines
pub mod RoundTrip
pub mod Round
pub mod Verdict
pub mod Accepted
pub mod Tests
use gpt_trace_extractor_for.Base.{
  ℕ, Option, none, some, Bool, true, false, not, ◌&&◌, List, [], ◌∷◌, ◌++◌, ◌==◌, nat_eq, list_eq,
  if◌then◌else◌,
}

-- a text as its code points
abbrev pub Chars : Type 0
Chars = List ℕ

abbrev pub newline : ℕ
newline = 10

abbrev pub carriage_return : ℕ
carriage_return = 13

abbrev pub colon : ℕ
colon = 58

abbrev pub space : ℕ
space = 32

pub record SseEvent : Type 0 where
  pub event : Option Chars
  pub data' : Chars

-- `text.replace("\r\n", "\n").replace("\r", "\n")`
unfoldable pub normalized : Chars → Chars
normalized [] = []
normalized (c ∷ []) = (if c == carriage_return then newline else c) ∷ []
normalized (c ∷ d ∷ rest) =
    let dropped = normalized (d ∷ rest) in
    if c == carriage_return
    then (if d == newline then dropped else newline ∷ dropped)
    else c ∷ dropped

-- `text.split("\n")`: the line that is being read, and those behind it
abbrev pub add_to_first : ℕ → List Chars → List Chars
add_to_first c [] = (c ∷ []) ∷ []
add_to_first c (line ∷ lines) = (c ∷ line) ∷ lines

unfoldable pub split_lines : Chars → List Chars
split_lines [] = [] ∷ []
split_lines (c ∷ rest) =
    let lines = split_lines rest in if c == newline then [] ∷ lines else add_to_first c lines

-- `"\n".join(lines)`
unfoldable pub join_lines : List Chars → Chars
join_lines [] = []
join_lines (line ∷ []) = line
join_lines (line ∷ next ∷ lines) = line ++ newline ∷ join_lines (next ∷ lines)

-- `line.partition(":")`, with `none` for the value where there is no colon
abbrev add_to_field : ℕ → Chars × Option Chars → Chars × Option Chars
add_to_field c (name, value) = (c ∷ name, value)

unfoldable pub partition : Chars → Chars × Option Chars
partition [] = ([], none)
partition (c ∷ rest) =
    let parts = partition rest in if c == colon then ([], some rest) else add_to_field c parts

-- one leading space of the value is dropped
abbrev pub field_value : Option Chars → Chars
field_value none = []
field_value (some []) = []
field_value (some (c ∷ rest)) = if c == space then rest else c ∷ rest

-- "event" and "data"
abbrev pub event_field : Chars
event_field = 101 ∷ 118 ∷ 101 ∷ 110 ∷ 116 ∷ []

abbrev pub data_field : Chars
data_field = 100 ∷ 97 ∷ 116 ∷ 97 ∷ []

-- the locals of `parse_sse`
pub record Pending : Type 0 where
  pub event_name : Option Chars
  pub data_lines : List Chars

abbrev pub nothing_pending : Pending
nothing_pending = record { event_name = none; data_lines = [] }

abbrev is_blank : Pending → Bool
is_blank p = elim p.event_name [
  | some name ↦ false
  | none ↦ elim p.data_lines [ [] ↦ true | line ∷ lines ↦ false ]
]

-- `flush`
unfoldable pub flush : Pending → List SseEvent
unfolding join_lines
flush p =
    if is_blank p then [] else record { event = p.event_name; data' = join_lines p.data_lines } ∷ []

abbrev starts_with_colon : Chars → Bool
starts_with_colon [] = false
starts_with_colon (c ∷ rest) = c == colon

abbrev read_field : Chars × Option Chars → Pending → Pending
read_field (name, value) p =
    if name == event_field
    then record p { event_name = some (field_value value) }
    else if name == data_field
    then record p { data_lines = p.data_lines ++ field_value value ∷ [] }
    else p

-- a line that is not empty
unfoldable pub read_line : Chars → Pending → Pending
unfolding partition
read_line line p = if starts_with_colon line then p else read_field (partition line) p

-- the loop of `parse_sse` and the flush behind it
unfoldable pub parse_lines : List Chars → Pending → List SseEvent
unfolding flush read_line
parse_lines [] p = flush p
parse_lines (line ∷ lines) p = elim line [
  | [] ↦ flush p ++ parse_lines lines nothing_pending
  | c ∷ rest ↦ parse_lines lines (read_line (c ∷ rest) p)
]

unfoldable pub parse_sse : Chars → List SseEvent
unfolding normalized split_lines parse_lines
parse_sse text = parse_lines (split_lines (normalized text)) nothing_pending
