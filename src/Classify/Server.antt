-- ===== src/Classify/Server.antt =====
-- The server's reclassifier: internal/gw/classifier/server_reclassifier.go. The field for secret
-- findings and the reasons are never set. strings.ToLower is a parameter, and a count of lines is a
-- 64-bit pattern.
use text.Mathlib.Text.{starts_with}
use agentgate.Base.{
  ℕ, String, Bool, not, ◌&&◌, ◌||◌, List, [], ◌∷◌, ltb, add64, exceeds, nat_eq, length,
  if◌then◌else◌,
}
use agentgate.Classify.Paths.{
  PathKind, arch, test, doc, config, src, is_arch, is_test, is_doc, is_config, is_src, has,
  is_config_path, ends_with, includes,
}

pub record Reclassification : Type 0 where
  pub task_type : String
  pub complexity : String
  pub data_sensitivity : String
  pub language : String

unfoldable pub server_kind : String → PathKind
server_kind p =
    if starts_with p "docs/architecture/" || starts_with p "docs/design/"
    then arch
    else if ends_with p "_test.go" || (ends_with p "_test.py" || includes p "/test/")
    then test
    else if ends_with p ".md" || ends_with p ".rst"
    then doc
    else if is_config_path p
    then config
    else src

unfoldable pub reclassify_task_type : List String → ℕ → ℕ → Bool → Bool → String
reclassify_task_type paths added removed test_fail stack_trace =
    if test_fail || stack_trace
    then "debug"
    else let has_arch = has is_arch server_kind paths in
      let has_test = has is_test server_kind paths in
      let has_doc = has is_doc server_kind paths in
      let has_config = has is_config server_kind paths in
      let has_src = has is_src server_kind paths in
      if has_arch && (not has_src && not has_test)
      then "architecture"
      else if has_doc && (not has_src && (not has_test && not has_config))
      then "summary"
      else if has_config && (not has_src && not has_test)
      then "simple_edit"
      else if has_test || test_fail
      then "test_output"
      else if has_src
      then if exceeds added 100 || exceeds removed 100 then "code_edit" else "simple_edit"
      else if nat_eq added 0 && nat_eq removed 0
      then "file_reading"
      else "unknown"

unfoldable pub reclassify_complexity : List String → ℕ → ℕ → String
reclassify_complexity paths added removed =
    if ltb 20 (length paths) || exceeds (add64 added removed) 1000
    then "high"
    else if ltb 5 (length paths) || exceeds (add64 added removed) 200
    then "medium"
    else if exceeds (add64 added removed) 0
    then "low"
    else "unknown"

abbrev pub is_high : String → Bool
is_high p =
    includes p "secret" || (includes p "key" || (includes p "credential" || includes p "token"))

abbrev pub is_medium : String → Bool
is_medium p =
    includes p "config" || (includes p "auth" || (includes p "payment" || includes p "billing"))

module _ (to_lower : String → String) where
  unfoldable pub reclassify_sensitivity : List String → String
  reclassify_sensitivity [] = "low"
  reclassify_sensitivity (p ∷ paths) =
      let later = reclassify_sensitivity paths in
      if is_high (to_lower p) then "high" else if is_medium (to_lower p) then "medium" else later

  unfoldable pub reclassify : List String → String → ℕ → ℕ → Bool → Bool → Reclassification
  reclassify paths primary_language added removed test_fail stack_trace = record {
    task_type = reclassify_task_type paths added removed test_fail stack_trace;
    complexity = reclassify_complexity paths added removed;
    data_sensitivity = reclassify_sensitivity paths;
    language = primary_language;
  }
