-- ===== src/Tests/Transformer.antt =====
-- A request with a cached text, an image, a tool call and its result: internal/shared/transformer.
use agentgate.Base.{
  ◌≡◌, refl, inl, String, true, false, ◌||◌, [], ◌∷◌, Option, none, some, map, pos, ◌==◌,
  Bool-cases, inr, if◌then◌else◌, ok, ℕ,
}
use agentgate.External.{JsonMaps}
use agentgate.Pipeline.Egress.{provider_request, degraded_for}
use agentgate.Provider.Delivered.{anthropic_shaped_body-degraded_for}
use agentgate.Provider.Request.{openai_body, ProviderRequest, anthropic_shaped_body}
use agentgate.Routing.Constraints.{Member}
use agentgate.Transformer.Ir.{IrRequest}
use agentgate.Transformer.Anthropic.{
  CacheControl, AnthropicBlock, anthropic_block, no_blocks, add_block, AnthropicRequest, string,
}
use agentgate.Transformer.Kept.{kept_request}
use agentgate.Transformer.Uncached.{request_without}
use agentgate.Transformer.ToIr.{
  unmarshal_content, anthropic_block_to_ir, content_to_ir, anthropic_to_ir,
}
use agentgate.Transformer.FromIr.{ir_block_to_anthropic_block}
use agentgate.Transformer.Degraded.{
  is_thinking, strip_blocks, strip_messages, strip_anthropic_features,
}
use agentgate.Transformer.OpenAi.{OpenAiRequest}
use agentgate.Transformer.OpenAiBody.{sent}
use agentgate.Provider.OpenAi.{provider_request-openai_body}
use agentgate.Transformer.Stripped.{
  in_use, any_cached, any_cached_message, all_uncached, uncached_message,
  strip_anthropic_features_lem,
}

-- Maps that are texts; the nil map is written "null".
abbrev write_map : Option String → String
write_map none = "null"
write_map (some s) = s

abbrev read_map : String → Option String
read_map s = if s == "null" then none else if s == "" then none else some s

pub write_map-nonempty : (s : String) → (write_map (read_map s) == "") ≡ false
write_map-nonempty s = elim (Bool-cases (s == "null")) [
  | inl e ↦ rw e
  | inr e ↦ rw e (elim (Bool-cases (s == "")) [ inl f ↦ rw f | inr f ↦ rw f f ])
]

pub read_map-write_map : (s : String) → read_map (write_map (read_map s)) ≡ read_map s
read_map-write_map s = elim (Bool-cases (s == "null")) [
  | inl e ↦ rw e
  | inr e ↦ rw e (elim (Bool-cases (s == "")) [ inl f ↦ rw f | inr f ↦ rw f (rw (e, f)) ])
]

abbrev pub texts : JsonMaps
texts = record {
  Raw = String;
  Map = Option String;
  empty = "";
  null = "null";
  is_empty = λ s. s == "";
  nil = none;
  marshal = write_map;
  unmarshal = read_map;
  is_empty-empty = refl;
  unmarshal-null = refl;
  is_empty-marshal = write_map-nonempty;
  unmarshal-marshal = read_map-write_map;
}

abbrev text_of : String → Option CacheControl → AnthropicBlock String
text_of text cache = anthropic_block "text" text "" "" "" "" no_blocks false cache none

abbrev image : AnthropicBlock String
image = anthropic_block "image" "" "" "" "" "" no_blocks false none none

abbrev call : AnthropicBlock String
call = anthropic_block "tool_use" "" "call_1" "ls" "{}" "" no_blocks false none none

abbrev answer : AnthropicBlock String
answer =
    anthropic_block "tool_result" "" "" "" "" "call_1"
      (add_block (text_of "a.txt" (some (record { type_ = "ephemeral" }))) no_blocks) false none
      none

abbrev pub request : AnthropicRequest ℕ String (Option String)
request = record {
  model = "claude";
  messages =
      record {
        role = "user";
        content =
            add_block (text_of "hello" (some (record { type_ = "ephemeral" })))
              (add_block image no_blocks);
      }
      ∷ record { role = "assistant"; content = add_block call no_blocks }
      ∷ record { role = "user"; content = add_block answer no_blocks }
      ∷ [];
  system = add_block (text_of "be brief" none) no_blocks;
  tools = [];
  tool_choice = some (record { type_ = "tool"; name = "ls" });
  max_tokens = pos 100;
  temperature = none;
  stream = false;
  thinking = some (record { type_ = "enabled"; budget_tokens = pos 50 });
  metadata = ("user", "u1") ∷ [];
}

abbrev pub member_on : String → Member
member_on wire = record {
  endpoint_id = "e1";
  wire = wire;
  vendor_id = "acme";
  model = "other";
  url = "https://api.example.com";
  trust_tier = "vendor";
  data_residency = "eu";
  streaming = true;
  private = false;
  original_weight = pos 1;
}

abbrev read_request : IrRequest ℕ (Option String)
read_request = anthropic_to_ir texts request

anthropic_shaped_body-degraded_for_example :
    (prov : ProviderRequest ℕ String (Option String)) × (provider_request texts
        (member_on "anthropic_compat")
        "key"
        (degraded_for texts (member_on "anthropic_compat") request).1
      ≡ ok prov)
    × (anthropic_shaped_body prov true ≡ kept_request texts "other" (request_without request))
    × (anthropic_to_ir texts (anthropic_shaped_body prov true)
        ≡ record (degraded_for texts (member_on "anthropic_compat") request).1 {
          model = "other";
          stream = true;
        })
anthropic_shaped_body-degraded_for_example =
    anthropic_shaped_body-degraded_for texts (member_on "anthropic_compat") "key" request (inr refl)

strip_anthropic_features_lem_example : strip_anthropic_features read_request ≡ (
  in_use
      (is_thinking read_request.thinking)
      (any_cached_message read_request.messages || any_cached read_request.system),
  record read_request {
    messages = map uncached_message read_request.messages;
    system = all_uncached read_request.system;
    thinking = if is_thinking read_request.thinking then none else read_request.thinking;
  },
)
strip_anthropic_features_lem_example = strip_anthropic_features_lem read_request

degraded_features :
    (strip_anthropic_features read_request).0 ≡ "extended_thinking" ∷ "cache_control" ∷ []
unfolding strip_anthropic_features anthropic_to_ir content_to_ir strip_blocks strip_messages
degraded_features = refl

provider_request-openai_body_example :
    (prov : ProviderRequest ℕ String (Option String)) × (body : OpenAiRequest ℕ String
      (Option String))
    × (provider_request texts
          (member_on "openai")
          "key"
          (degraded_for texts (member_on "openai") request).1
        ≡ ok prov)
    × (prov.messages ≡ openai_body body)
    × (body.model ≡ "claude")
    × (body.stream ≡ false)
    × (body.messages
        ≡ map (sent texts) (degraded_for texts (member_on "openai") request).1.messages)
provider_request-openai_body_example =
    provider_request-openai_body texts (member_on "openai") "key" request (inl refl)

-- An image keeps its type alone.
image_lost :
    ir_block_to_anthropic_block texts (anthropic_block_to_ir texts image)
    ≡ anthropic_block "image" "" "" "" "" "" no_blocks false none none
unfolding ir_block_to_anthropic_block anthropic_block_to_ir
image_lost = refl

string_content :
    unmarshal_content texts (string "hi") ≡ some (add_block (text_of "hi" none) no_blocks)
unfolding unmarshal_content
string_content = refl
