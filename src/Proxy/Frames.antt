-- ===== src/Proxy/Frames.antt =====
-- sseReader of internal/lp/server/anthropic.go: the frames of a stream that arrives in pieces.
use agentgate.Base.{ℕ, Bool, ◌&&◌, Option, none, some, List, [], ◌∷◌, ◌++◌, nat_eq, if◌then◌else◌}
use agentgate.Streaming.Lines.{Bytes}

-- What stands before and behind the first "\n\n": bytes.Index and the two slices.
abbrev pub prepend : ℕ → Option (Bytes × Bytes) → Option (Bytes × Bytes)
prepend b none = none
prepend b (some (frame, rest)) = some (b ∷ frame, rest)

unfoldable pub split_frame : Bytes → Option (Bytes × Bytes)
split_frame [] = none
split_frame (b ∷ []) = none
split_frame (b ∷ c ∷ rest) =
    let later = prepend b (split_frame (c ∷ rest)) in
    if nat_eq b 10 && nat_eq c 10 then some ([], rest) else later

-- What the calls of Read return: pieces without an error, and then a piece with one, which is io.EOF
-- or, with `failed`, another. `ending` is none once io.EOF was met, the flag `done`.
pub record Ending : Type 0 where
  pub last : Bytes
  pub failed : Bool

pub record SseReader : Type 0 where
  pub buf : Bytes
  pub reads : List Bytes
  pub ending : Option Ending

pub data Next : Type 0 where
  frame : Bytes → Next
  eof : Next
  read_error : Next

-- NextFrame after io.EOF.
abbrev pub rest_frame : Bytes → Next × SseReader
rest_frame [] = (eof, record { buf = []; reads = []; ending = none })
rest_frame (b ∷ bs) = (frame (b ∷ bs), record { buf = []; reads = []; ending = none })

unfoldable pub drained : Bytes → Next × SseReader
drained buf = elim (split_frame buf) [
  | none ↦ rest_frame buf
  | some (f, rest) ↦ (frame f, record { buf = rest; reads = []; ending = none })
]

-- NextFrame when no piece without an error is left.
abbrev pub at_ending : Bytes → Option Ending → Next × SseReader
at_ending buf none = drained buf
at_ending buf (some e) =
    let next = drained (buf ++ e.last) in
    if e.failed
    then (read_error, record { buf = buf ++ e.last; reads = []; ending = some e })
    else next

-- The loop of NextFrame, by the pieces that are left.
unfoldable pub next_frame_from : List Bytes → Bytes → Option Ending → Next × SseReader
next_frame_from [] buf ending = elim (split_frame buf) [
  | some (f, rest) ↦ (frame f, record { buf = rest; reads = []; ending = ending })
  | none ↦ at_ending buf ending
]
next_frame_from (piece ∷ reads) buf ending = elim (split_frame buf) [
  | some (f, rest) ↦ (frame f, record { buf = rest; reads = piece ∷ reads; ending = ending })
  | none ↦ next_frame_from reads (buf ++ piece) ending
]

unfoldable pub next_frame : SseReader → Next × SseReader
unfolding drained next_frame_from split_frame
next_frame r = next_frame_from r.reads r.buf r.ending
