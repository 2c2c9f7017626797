-- ===== src/Tests/Streaming.antt =====
-- A stream of one message_start event, and the same stream without its data:
-- internal/gw/server/stream_accounting.go.

use agentgate.Base.{ℕ, ◌≡◌, refl, true, false, List, [], ◌∷◌, ◌++◌, none, some, pos}
use agentgate.Cost.{no_usage}
use agentgate.External.{Writer}
use agentgate.Streaming.Lines.{trim_right, pieces}
use agentgate.Streaming.Usage.{
  Json, StartUsage, new_accumulator, usage, handle_sse_data, handle_anthropic_data, start_usage,
}
use agentgate.Streaming.Forward.{read_failed, Source, read_line, forward_frames, forward_pieces}
use agentgate.Streaming.Relay.{accumulate, data_lines}
use agentgate.Streaming.Accounting.{AccountedStreamConfig, run, completed_run}
use agentgate.Streaming.Settled.{run_lem, run-usage_missing}
use agentgate.Tests.Cost.{whole, table}

abbrev pub memory : Writer
memory = record {
  Sink = List ℕ;
  write = λ s bytes. (s ++ bytes, true);
  received = λ s. s;
  write-received = λ s bytes h. refl;
}

abbrev forty_tokens : StartUsage
forty_tokens = record {
  input_tokens = pos 40;
  output_tokens = pos 1;
  cache_read_input_tokens = none;
  cache_creation_input_tokens = some (pos 8);
}

abbrev test_json : Json
test_json = record {
  message_start = λ _. some (some (some forty_tokens));
  message_delta = λ _. none;
  chunk = λ _. none;
}

abbrev config : AccountedStreamConfig
config = record {
  wire = "anthropic";
  has_cost_writer = true;
  vendor_id = "acme";
  endpoint_id = "eu";
  model = "large";
  pool = "standard";
  is_private = false;
  has_post_account = true;
}

-- "event: message_start\ndata: {}\n\n", cut off by the provider.
abbrev started : Source
started = record {
  bytes =
      101 ∷ 118 ∷ 101 ∷ 110 ∷ 116 ∷ 58 ∷ 32 ∷ 109 ∷ 101 ∷ 115 ∷ 115 ∷ 97 ∷ 103 ∷ 101 ∷ 95 ∷ 115
      ∷ 116 ∷ 97 ∷ 114 ∷ 116 ∷ 10 ∷ 100 ∷ 97 ∷ 116 ∷ 97 ∷ 58 ∷ 32 ∷ 123 ∷ 125 ∷ 10 ∷ 10 ∷ [];
  interrupted = true;
}

-- "ping\n"
abbrev idle : Source
idle = record { bytes = 112 ∷ 105 ∷ 110 ∷ 103 ∷ 10 ∷ []; interrupted = false }

run_lem_example :
    let r = run whole test_json memory config (some table) started [] in
    (r.sink ≡ started.bytes)
    × (r.result.err ≡ some read_failed)
    × (r.result.usage
        ≡ usage (
            accumulate test_json "anthropic" new_accumulator
              (data_lines [] (pieces started.bytes))))
run_lem_example = run_lem whole test_json memory config (some table) started [] (λ at_ line. refl)

-- The usage that the stream above reported before it was cut off.
started_usage :
    usage (accumulate test_json "anthropic" new_accumulator (data_lines [] (pieces started.bytes)))
    ≡ record { input = pos 40; output = pos 1; cache_read = pos 0; cache_create = pos 8 }
unfolding usage read_line trim_right pieces handle_sse_data handle_anthropic_data start_usage
started_usage = refl

idle_fine : (run whole test_json memory config (some table) idle []).result.err ≡ none
unfolding run completed_run forward_frames forward_pieces read_line trim_right pieces
idle_fine = refl

idle_missing :
    (run whole test_json memory config (some table) idle []).result.error_class ≡ "usage_missing"
unfolding run completed_run forward_frames forward_pieces read_line trim_right pieces
idle_missing = refl

run-usage_missing_example :
    ((run whole test_json memory config (some table) idle []).result.usage ≡ no_usage)
    × ((run whole test_json memory config (some table) idle []).result.cost_event.cost_source
        ≡ "estimated")
run-usage_missing_example =
    run-usage_missing whole test_json memory config (some table) idle [] idle_fine idle_missing
