-- ===== src/Tests/Proxy.antt =====
-- A stream in three pieces, its last frame from the gateway: internal/lp/server/anthropic.go.
use agentgate.Base.{◌≡◌, refl, false, some, [], ◌∷◌, ◌++◌, List, arith}
use agentgate.Proxy.Delivery.{relay_frames, relay_stream-frames_of}
use agentgate.Proxy.Frames.{SseReader, drained, next_frame, next_frame_from, split_frame}
use agentgate.Proxy.Reading.{bytes_left}
use agentgate.Proxy.Relay.{
  Relayed, frame_end, is_agentgate_frame, relay_stream, usage_prefix, completed,
}
use agentgate.Proxy.Split.{frames_of}
use agentgate.Streaming.Lines.{Bytes}
use agentgate.Tests.Streaming.{memory}

-- "data: a", and the usage frame.
abbrev first : Bytes
first = 100 ∷ 97 ∷ 116 ∷ 97 ∷ 58 ∷ 32 ∷ 97 ∷ []

abbrev usage : Bytes
usage = usage_prefix ++ 10 ∷ 123 ∷ 125 ∷ []

abbrev frames : List Bytes
frames = first ∷ first ∷ []

-- The second piece starts inside the end of the first frame.
abbrev reader : SseReader
reader = record {
  buf = [];
  reads = (first ++ 10 ∷ []) ∷ (10 ∷ first) ∷ [];
  ending = some (record { last = frame_end ++ (usage ++ frame_end); failed = false });
}

abbrev whole_run : Relayed memory (λ f. f)
whole_run = relay_stream memory (λ f. f) 60 reader []

relay_stream-frames_of_example :
    whole_run ≡ relay_frames memory (λ f. f) (frames_of (bytes_left reader)) []
relay_stream-frames_of_example =
    relay_stream-frames_of memory (λ f. f) 60 reader [] refl (omega arith)

whole_run_ends : whole_run.ended ≡ completed
unfolding relay_stream next_frame next_frame_from drained split_frame is_agentgate_frame
whole_run_ends = refl
