-- ===== src/Classify/Client.antt =====
-- The client's tagger: internal/lp/tagger/v0.go. The field for agentic loops is never set. A count
-- of lines is a 64-bit pattern.
use text.Mathlib.Text.{starts_with}
use agentgate.Base.{ℕ, String, Bool, not, ◌&&◌, ◌||◌, List, add64, exceeds, if◌then◌else◌}
use agentgate.Classify.Paths.{
  PathKind, test, doc, config, src, is_test, is_doc, is_config, is_src, has, is_config_path,
  ends_with,
}

pub record Tag : Type 0 where
  pub task_type : String
  pub complexity : String
  pub language : String

unfoldable pub client_kind : String → PathKind
client_kind p =
    if ends_with p "_test.go" || (ends_with p "_test.py" || ends_with p ".test.ts")
    then test
    else if ends_with p ".md" || (ends_with p ".rst" || starts_with p "docs/")
    then doc
    else if is_config_path p
    then config
    else src

unfoldable pub classify_task_type : List String → ℕ → ℕ → Bool → Bool → String
classify_task_type paths added removed test_fail stack_trace =
    if test_fail || stack_trace
    then "test_output"
    else let has_test = has is_test client_kind paths in
      let has_doc = has is_doc client_kind paths in
      let has_config = has is_config client_kind paths in
      let has_src = has is_src client_kind paths in
      if has_doc && (not has_src && not has_test)
      then "summary"
      else if has_config && not has_src
      then "simple_edit"
      else if has_test
      then "test_output"
      else if exceeds added 200 || exceeds removed 200
      then "code_edit"
      else if exceeds added 50 || exceeds removed 50
      then "code_edit"
      else if has_src
      then "code_edit"
      else "unknown"

unfoldable pub classify_complexity : ℕ → ℕ → String
classify_complexity added removed =
    if exceeds (add64 added removed) 500
    then "high"
    else if exceeds (add64 added removed) 100
    then "medium"
    else if exceeds (add64 added removed) 0
    then "low"
    else "unknown"

unfoldable pub classify : List String → String → ℕ → ℕ → Bool → Bool → Tag
classify paths language added removed test_fail stack_trace = record {
  task_type = classify_task_type paths added removed test_fail stack_trace;
  complexity = classify_complexity added removed;
  language = language;
}
