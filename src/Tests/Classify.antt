-- ===== src/Tests/Classify.antt =====
-- Some paths, in two orders: internal/gw/classifier/server_reclassifier.go and internal/lp/tagger/v0.go.
use mathlib.Core.List.Perm
use agentgate.Base.{◌≤◌, ◌≡◌, refl, String, false, List, [], ◌∷◌, arith}
use agentgate.Classify.Server.{reclassify_task_type, reclassify_complexity, reclassify_sensitivity}
use agentgate.Classify.Client.{classify_task_type, classify_complexity}
use agentgate.Classify.Order.{task_type-Perm, level, complexity_monotone, sensitivity_first}

abbrev two : List String
two = "main.go" ∷ "README.md" ∷ []

abbrev swapped : List String
swapped = "README.md" ∷ "main.go" ∷ []

task_type-Perm_example :
    (reclassify_task_type two 120 3 false false ≡ reclassify_task_type swapped 120 3 false false)
    × (classify_task_type two 120 3 false false ≡ classify_task_type swapped 120 3 false false)
task_type-Perm_example =
    task_type-Perm two swapped 120 3 false false (Perm.swap "README.md" "main.go" [])

complexity_monotone_example :
    (level (reclassify_complexity [] 3 0) ≤ level (reclassify_complexity two 250 0))
    × (level (classify_complexity 3 0) ≤ level (classify_complexity 250 0))
complexity_monotone_example =
    complexity_monotone [] two 3 0 250 0 (omega arith) (omega arith) (omega arith) (omega arith)

-- The secret behind the configuration is not seen.
sensitivity_first_example :
    reclassify_sensitivity (λ p. p) ("main.go" ∷ "app/config.go" ∷ "deploy/secret.txt" ∷ [])
    ≡ "medium"
sensitivity_first_example =
    sensitivity_first (λ p. p) ("main.go" ∷ []) ("deploy/secret.txt" ∷ []) "app/config.go"
      ((refl, refl), tt) refl
