-- ===== src/Proxy/Relay.antt =====
-- relayStream of internal/lp/server/anthropic.go. The client is a writer; the entries for the ledger are
-- returned, and the rendering of an error for the client is a parameter.
use agentgate.Base.{
  ℕ, zero, suc, Bool, true, false, not, none, some, List, [], ◌∷◌, ◌++◌, if◌then◌else◌,
}
use agentgate.External.{Writer}
use agentgate.Proxy.Frames.{SseReader, frame, eof, read_error, next_frame}
use agentgate.Streaming.Lines.{Bytes, strip_prefix, event_field}

abbrev pub has_prefix : Bytes → Bytes → Bool
has_prefix text prefix = elim (strip_prefix prefix text) [ none ↦ false | some rest ↦ true ]

-- "event: aicg."
abbrev pub agentgate_prefix : Bytes
agentgate_prefix = event_field ++ 97 ∷ 105 ∷ 99 ∷ 103 ∷ 46 ∷ []

-- "event: aicg.usage"
abbrev pub usage_prefix : Bytes
usage_prefix = agentgate_prefix ++ 117 ∷ 115 ∷ 97 ∷ 103 ∷ 101 ∷ []

-- "event: aicg.error"
abbrev pub error_prefix : Bytes
error_prefix = agentgate_prefix ++ 101 ∷ 114 ∷ 114 ∷ 111 ∷ 114 ∷ []

unfoldable pub is_agentgate_frame : Bytes → Bool
is_agentgate_frame f = has_prefix f agentgate_prefix

abbrev pub frame_end : Bytes
frame_end = 10 ∷ 10 ∷ []

-- How the relay ended: at the end of the stream, by a failed read or write, or with an error frame.
pub data RelayEnd : Type 0 where
  completed read_failed write_failed error_sent out_of_fuel : RelayEnd

module _ (writer : Writer) (build_anthropic_error_frame : Bytes → Bytes) where
  open writer use {Sink, write}

  pub record Relayed : Type 0 where
    pub client : Sink
    pub ledger : List Bytes
    pub ended : RelayEnd

  -- Two writes: the frame, and "\n\n". The second is made only after the first.
  abbrev pub write_frame : Sink → Bytes → Sink × Bool
  write_frame s f = let (s', sent) = write s f in if sent then write s' frame_end else (s', false)

  abbrev pub stop : Sink → RelayEnd → Relayed
  stop s e = record { client = s; ledger = []; ended = e }

  abbrev pub noted : Bytes → Relayed → Relayed
  noted f r = record r { ledger = f ∷ r.ledger }

  -- One turn of the loop, with what the later turns do.
  abbrev pub relay_frame : Bytes → Sink → (Sink → Relayed) → Relayed
  relay_frame f s later =
      if not (is_agentgate_frame f)
      then (let (s', sent) = write_frame s f in if sent then later s' else stop s' write_failed)
      else if has_prefix f usage_prefix
      then noted f (later s)
      else if has_prefix f error_prefix
      then (let (s', sent) = write_frame s (build_anthropic_error_frame f) in
          stop s' (if sent then error_sent else write_failed))
      else later s

  -- The loop, one frame of fuel each.
  unfoldable pub relay_stream : ℕ → SseReader → Sink → Relayed
  relay_stream zero r s = stop s out_of_fuel
  relay_stream (suc fuel) r s =
      let (next, r') = next_frame r in
      elim next [
        | eof ↦ stop s completed
        | read_error ↦ stop s read_failed
        | frame f ↦ relay_frame f s (λ s'. relay_stream fuel r' s')
      ]
