-- ===== src/Streaming/Usage.antt =====
-- The usage that a stream reports: usageAccumulator and the handlers of a data line in
-- internal/gw/server/stream_accounting.go. The results of json.Unmarshal are an interface.
use agentgate.Base.{
  ℤ, pos, String, Bool, true, false, ◌||◌, Option, none, some, ◌==◌, if◌then◌else◌,
}
use agentgate.Cost.{Usage}
use agentgate.Streaming.Lines.{Bytes, bytes_eq, message_start_name, message_delta_name}

-- The usage of a message_start event.
pub record StartUsage : Type 0 where
  pub input_tokens : ℤ
  pub output_tokens : ℤ
  pub cache_read_input_tokens : Option ℤ
  pub cache_creation_input_tokens : Option ℤ

-- json.Unmarshal into the structs of the three handlers: an error is `none`, and so is a nil pointer
-- inside. For message_start these are the pointers `message` and `usage`; for message_delta `usage`
-- with its output tokens; for a chunk `usage` with its prompt and completion tokens.
pub record Json : Type 0 where
  pub message_start : Bytes → Option (Option (Option StartUsage))
  pub message_delta : Bytes → Option (Option ℤ)
  pub chunk : Bytes → Option (Option (ℤ × ℤ))

pub record Accumulator : Type 0 where
  pub input : ℤ
  pub output : ℤ
  pub cache_read : ℤ
  pub cache_create : ℤ
  pub has_usage : Bool

abbrev pub new_accumulator : Accumulator
new_accumulator = record {
  input = pos 0;
  output = pos 0;
  cache_read = pos 0;
  cache_create = pos 0;
  has_usage = false;
}

unfoldable pub usage : Accumulator → Usage
usage a = record {
  input = a.input;
  output = a.output;
  cache_read = a.cache_read;
  cache_create = a.cache_create;
}

-- `if p != nil { x = *p }`
abbrev pub or_old : Option ℤ → ℤ → ℤ
or_old none old = old
or_old (some new) old = new

unfoldable pub start_usage : Accumulator → StartUsage → Accumulator
start_usage acc u = record {
  input = u.input_tokens;
  output = u.output_tokens;
  cache_read = or_old u.cache_read_input_tokens acc.cache_read;
  cache_create = or_old u.cache_creation_input_tokens acc.cache_create;
  has_usage = true;
}

abbrev pub handle_start : Accumulator → Option (Option (Option StartUsage)) → Accumulator
handle_start acc none = acc
handle_start acc (some none) = acc
handle_start acc (some (some none)) = acc
handle_start acc (some (some (some u))) = start_usage acc u

abbrev pub handle_delta : Accumulator → Option (Option ℤ) → Accumulator
handle_delta acc none = acc
handle_delta acc (some none) = acc
handle_delta acc (some (some output)) = record acc { has_usage = true; output = output }

abbrev pub handle_chunk : Accumulator → Option (Option (ℤ × ℤ)) → Accumulator
handle_chunk acc none = acc
handle_chunk acc (some none) = acc
handle_chunk acc (some (some (prompt, completion))) = record acc {
  has_usage = true;
  input = prompt;
  output = completion;
}

module _ (json : Json) where
  unfoldable pub handle_anthropic_data : Bytes → Bytes → Accumulator → Accumulator
  handle_anthropic_data event data_ acc =
      if bytes_eq event message_start_name
      then handle_start acc (json.message_start data_)
      else if bytes_eq event message_delta_name
      then handle_delta acc (json.message_delta data_)
      else acc

  unfoldable pub handle_openai_data : Bytes → Accumulator → Accumulator
  handle_openai_data data_ acc = handle_chunk acc (json.chunk data_)

  unfoldable pub handle_sse_data : String → Bytes → Bytes → Accumulator → Accumulator
  handle_sse_data wire event data_ acc =
      if (wire == "anthropic") || (wire == "anthropic_compat")
      then handle_anthropic_data event data_ acc
      else if (wire == "openai") || (wire == "openai_compat")
      then handle_openai_data data_ acc
      else acc
