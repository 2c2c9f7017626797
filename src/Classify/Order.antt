-- ===== src/Classify/Order.antt =====
-- How the classifications of internal/gw/classifier/server_reclassifier.go and internal/lp/tagger/v0.go
-- depend on the order of the paths and on the counts of lines.
use mathlib.Core.List.{Perm, Permᴰ}
use mathlib.Core.Logic.{∥∥₁_elim}
use mathlib.Core.Bool.{Bool-set}
use agentgate.Base.{
  ℕ, ◌+◌, ◌≤◌, ◌<◌, ◌≡◌, refl, ap, ◌∙◌, String, Bool, true, false, ◌||◌, List, [], ◌∷◌, ◌++◌,
  length, ◌==◌, if◌then◌else◌, All, sign, arith,
}
use agentgate.Classify.Paths.{PathKind, is_arch, is_test, is_doc, is_config, is_src, has}
use agentgate.Classify.Server.{
  server_kind, reclassify_task_type, reclassify_complexity, is_high, is_medium,
  reclassify_sensitivity,
}
use agentgate.Classify.Client.{client_kind, classify_task_type, classify_complexity}

or_swap : (p q r : Bool) → (p || (q || r)) ≡ (q || (p || r))
or_swap p q r = ground arith

module _ (flag : PathKind → Bool) (kind : String → PathKind) where
  has-Permᴰ : {ps qs : List String} → Permᴰ ps qs → has flag kind ps ≡ has flag kind qs
  unfolding has
  has-Permᴰ Permᴰ.nil = refl
  has-Permᴰ (Permᴰ.cons {b = b} e p) = rw e (ap (λ r. flag (kind b) || r) (has-Permᴰ p))
  has-Permᴰ (Permᴰ.swap {a' = a'} {b' = b'} {l = l} e f) =
      rw e (rw f (or_swap (flag (kind b')) (flag (kind a')) (has flag kind l)))
  has-Permᴰ (Permᴰ.trans p q) = has-Permᴰ p ∙ has-Permᴰ q

  has-Perm : {ps qs : List String} → Perm ps qs → has flag kind ps ≡ has flag kind qs
  has-Perm p = ∥∥₁_elim p (Bool-set _ _) has-Permᴰ

-- Neither classifier's task type depends on the order of the paths.
pub task_type-Perm :
    (ps qs : List String) (added removed : ℕ) (test_fail stack_trace : Bool)
    → Perm ps qs
    → (reclassify_task_type ps added removed test_fail stack_trace
        ≡ reclassify_task_type qs added removed test_fail stack_trace)
      × (classify_task_type ps added removed test_fail stack_trace
          ≡ classify_task_type qs added removed test_fail stack_trace)
unfolding reclassify_task_type classify_task_type
task_type-Perm ps qs added removed test_fail stack_trace p = (
  rw (has-Perm is_arch server_kind p) (
      rw (has-Perm is_test server_kind p) (
        rw (has-Perm is_doc server_kind p)
          (rw (has-Perm is_config server_kind p) (rw (has-Perm is_src server_kind p))))),
  rw (has-Perm is_test client_kind p) (
      rw (has-Perm is_doc client_kind p)
        (rw (has-Perm is_config client_kind p) (rw (has-Perm is_src client_kind p)))),
)

-- The order of the complexities.
abbrev pub level : String → ℕ
level c = if c == "high" then 3 else if c == "medium" then 2 else if c == "low" then 1 else 0

level_if :
    (a b c : Bool)
    → level (if a then "high" else if b then "medium" else if c then "low" else "unknown")
      ≡ (if a then 3 else if b then 2 else if c then 1 else 0)
level_if true b c = refl
level_if false true c = refl
level_if false false true = refl
level_if false false false = refl

steps_monotone :
    (a b c a' b' c' : Bool)
    → (a ≡ true → a' ≡ true)
    → (b ≡ true → (a' || b') ≡ true)
    → (c ≡ true → (a' || (b' || c')) ≡ true)
    → ◌≤◌
        (if a then 3 else if b then 2 else if c then 1 else 0)
        (if a' then 3 else if b' then 2 else if c' then 1 else 0)
steps_monotone a b c a' b' c' f g h = ground arith

-- More paths and more changed lines never make a request less complex, for either classifier, where the
-- counts of lines are not negative and the larger total fits into a Go int.
pub complexity_monotone :
    (ps qs : List String) (added removed added' removed' : ℕ)
    → length ps ≤ length qs
    → added ≤ added'
    → removed ≤ removed'
    → added' + removed' < sign
    → (level (reclassify_complexity ps added removed)
        ≤ level (reclassify_complexity qs added' removed'))
      × (level (classify_complexity added removed) ≤ level (classify_complexity added' removed'))
unfolding reclassify_complexity classify_complexity
complexity_monotone ps qs added removed added' removed' paths more fewer fits = (
  rw level_if (
      rw level_if
        (steps_monotone _ _ _ _ _ _ (λ e. ground arith) (λ e. ground arith) (λ e. ground arith))),
  rw level_if (
      rw level_if
        (steps_monotone _ _ _ _ _ _ (λ e. ground arith) (λ e. ground arith) (λ e. ground arith))),
)

module _ (to_lower : String → String) where
  abbrev pub Insensitive : String → Type 0
  Insensitive p = (is_high (to_lower p) ≡ false) × (is_medium (to_lower p) ≡ false)

  -- The sensitivity is that of the first path that is sensitive at all: a path of medium sensitivity
  -- hides the secrets behind it.
  pub sensitivity_first :
      (before after : List String) (p : String)
      → All Insensitive before
      → (is_high (to_lower p) || is_medium (to_lower p)) ≡ true
      → reclassify_sensitivity to_lower (before ++ p ∷ after)
        ≡ (if is_high (to_lower p) then "high" else "medium")
  unfolding reclassify_sensitivity
  sensitivity_first [] after p all h = ground arith
  sensitivity_first (q ∷ before) after p all h =
      rw all.0.0 (rw all.0.1 (sensitivity_first before after p all.1 h))
