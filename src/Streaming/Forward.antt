-- ===== src/Streaming/Forward.antt =====
-- The relay: forwardFrames of internal/gw/server/stream_accounting.go. The source is the bytes that it
-- delivers and how it ends; a source that has ended stays so.
use agentgate.Base.{String, Bool, true, false, List, [], ◌∷◌, Option, none, some, if◌then◌else◌}
use agentgate.Config.Pools.{is_empty}
use agentgate.External.{Writer}
use agentgate.Streaming.Lines.{Bytes, strip_prefix, trim_right, pieces, event_field, data_field}
use agentgate.Streaming.Usage.{Json, Accumulator, handle_sse_data}

pub data StreamError : Type 0 where
  read_failed write_failed : StreamError

pub record Source : Type 0 where
  pub bytes : Bytes
  pub interrupted : Bool

-- What a line is to the loop: the end of a frame, the name of an event, data, or anything else.
pub data Line : Type 0 where
  blank other : Line
  event_line data_line : Bytes → Line

abbrev pub data_or_other : Option Bytes → Line
data_or_other none = other
data_or_other (some text) = data_line text

abbrev pub event_or : Option Bytes → Line → Line
event_or none line = line
event_or (some name) line = event_line name

unfoldable pub read_line : Bytes → Line
read_line line =
    let text = trim_right line in
    if is_empty text
    then blank
    else event_or (strip_prefix event_field text) (data_or_other (strip_prefix data_field text))

abbrev pub next_event : Bytes → Line → Bytes
next_event event blank = []
next_event event (event_line name) = name
next_event event _ = event

module _ (json : Json) (wire : String) where
  abbrev pub next_usage : Bytes → Line → Accumulator → Accumulator
  next_usage event (data_line text) acc = handle_sse_data json wire event text acc
  next_usage event _ acc = acc

  module _ (writer : Writer) where
    open writer use {Sink, write}

    -- The loop over what ReadBytes returns; the Boolean is false where a write failed.
    unfoldable pub forward_pieces :
        List Bytes → Bytes → Accumulator → Sink → Bool × Accumulator × Sink
    forward_pieces [] event acc s = (true, acc, s)
    forward_pieces (line ∷ rest) event acc s =
        let (s', sent) = write s line in
        let later =
          forward_pieces rest (next_event event (read_line line))
            (next_usage event (read_line line) acc) s' in
        if sent then later else (false, acc, s')

    unfoldable pub forward_frames :
        Source → Sink → Accumulator → Option StreamError × Accumulator × Sink
    forward_frames src s acc =
        let (sent, acc', s') = forward_pieces (pieces src.bytes) [] acc s in
        (
          if sent then (if src.interrupted then some read_failed else none) else some write_failed,
          acc',
          s',
        )
