-- ===== src/Policy/Merge.antt =====
-- What `Merge` of internal/gw/policy/decision.go promises: a monoid of optional decisions, the
-- stronger primary action, and the union of the lists.
use agentgate.Base.{
  String, ◌||◌, List, [], ◌∷◌, ◌++◌, Option, none, some, ◌≡◌, refl, sym, ap, ◌∙◌, contains,
  contains-append, eq_iff, ◌==◌, if◌then◌else◌, arith, append-nil, append_assoc,
}
use agentgate.Policy.Decision.{
  Decision, rank, merge_primary, append_unique, override, append_nonempty, merge_both, merge,
}
use agentgate.Policy.Fresh.{
  fresh, fresh_cong, append_unique-eq, contains-fresh, fresh-append, fresh-fresh,
}

pub merge_primary_assoc :
    (a b c : String) → merge_primary a (merge_primary b c) ≡ merge_primary (merge_primary a b) c
unfolding merge_primary
merge_primary_assoc a b c = ground arith

override_assoc : (a b c : String) → override a (override b c) ≡ override (override a b) c
unfolding override
override_assoc a b c = ground arith

-- Appending the new items of an append is appending both in turn.
pub append_unique_assoc :
    (a b c : List String)
    → append_unique a (append_unique b c) ≡ append_unique (append_unique a b) c
append_unique_assoc a b c = rw (append_unique-eq a (append_unique b c)) (
    rw (append_unique-eq b c) (
      rw (append_unique-eq (append_unique a b) c) (
        rw (append_unique-eq a b) (
          rw (fresh-append a b (fresh b c)) (
            rw (fresh-fresh (a ++ b) b c (λ x h. ground (arith, contains-append a b x))) (
              sym (append_assoc a (fresh a b) (fresh (a ++ b) c))
              ∙ ap (λ r. (a ++ fresh a b) ++ r)
                  (fresh_cong (a ++ b) (a ++ fresh a b) c (λ x. ground (
                    arith,
                    contains-append a b x,
                    contains-append a (fresh a b) x,
                    contains-fresh a b x,
                  )))))))))

append_unique-nil : (a : List String) → append_unique a [] ≡ a
unfolding fresh
append_unique-nil a = append_unique-eq a [] ∙ append-nil a

pub append_nonempty-eq : (a b : List String) → append_nonempty a b ≡ append_unique a b
unfolding append_nonempty
append_nonempty-eq a [] = sym (append_unique-nil a)
append_nonempty-eq a (x ∷ b) = refl

append_nonempty_assoc :
    (a b c : List String)
    → append_nonempty a (append_nonempty b c) ≡ append_nonempty (append_nonempty a b) c
append_nonempty_assoc a b c = simp append_nonempty-eq (append_unique_assoc a b c)

pub contains-append_unique :
    (a b : List String) (x : String)
    → contains (append_unique a b) x ≡ (contains a x || contains b x)
contains-append_unique a b x =
    rw (append_unique-eq a b) (contains-append a (fresh a b) x ∙ contains-fresh a b x)

merge_both_assoc :
    (a b c : Decision) → merge_both a (merge_both b c) ≡ merge_both (merge_both a b) c
unfolding merge_both
merge_both_assoc a b c = λ i. record {
  primary_action = merge_primary_assoc a.primary_action b.primary_action c.primary_action i;
  modifiers = append_unique_assoc a.modifiers b.modifiers c.modifiers i;
  side_effects = append_unique_assoc a.side_effects b.side_effects c.side_effects i;
  model_pool = override_assoc a.model_pool b.model_pool c.model_pool i;
  shadow_pool = override_assoc a.shadow_pool b.shadow_pool c.shadow_pool i;
  redactions = append_unique_assoc a.redactions b.redactions c.redactions i;
  reasons = append_unique_assoc a.reasons b.reasons c.reasons i;
  required_trust_tier =
      override_assoc a.required_trust_tier b.required_trust_tier c.required_trust_tier i;
  required_data_residency =
      append_nonempty_assoc a.required_data_residency b.required_data_residency
        c.required_data_residency i;
  required_capabilities =
      append_nonempty_assoc a.required_capabilities b.required_capabilities c.required_capabilities
        i;
  degraded_features =
      append_unique_assoc a.degraded_features b.degraded_features c.degraded_features i;
}

-- `Merge` is associative: the grouping of merges does not change the decision.
pub merge_assoc : (a b c : Option Decision) → merge a (merge b c) ≡ merge (merge a b) c
unfolding merge
merge_assoc none b c = refl
merge_assoc (some a) none c = refl
merge_assoc (some a) (some b) none = refl
merge_assoc (some a) (some b) (some c) = ap some (merge_both_assoc a b c)

-- The first action of a list that is one of two, or else the first of the two.
abbrev pub first_of : List String → String → String → String
first_of [] a b = a
first_of (action ∷ actions) a b =
    let later = first_of actions a b in if action == a || action == b then action else later

-- The primary action of a merge is the first of block, require_approval, route, allow and the empty action
-- that one of the two decisions has, and that of the first decision where neither has any of these.
pub merge-strongest :
    (a b : Decision)
    → (merge_both a b).primary_action
      ≡ first_of
          ("block" ∷ "require_approval" ∷ "route" ∷ "allow" ∷ "" ∷ [])
          a.primary_action
          b.primary_action
unfolding merge_both merge_primary rank
merge-strongest a b = ground (
  arith,
  eq_iff "block" a.primary_action,
  eq_iff "require_approval" a.primary_action,
  eq_iff "route" a.primary_action,
  eq_iff "allow" a.primary_action,
  eq_iff "" a.primary_action,
  eq_iff "block" b.primary_action,
  eq_iff "require_approval" b.primary_action,
  eq_iff "route" b.primary_action,
  eq_iff "allow" b.primary_action,
  eq_iff "" b.primary_action,
)

-- A text stands in a list of the merge, of modifiers, side effects, redactions, reasons, data
-- residencies, capabilities or degraded features, exactly when it stands in that list of one of the
-- two decisions.
pub merge-union :
    (a b : Decision) (x : String)
    → let m = merge_both a b in
      (contains m.modifiers x ≡ (contains a.modifiers x || contains b.modifiers x))
      × (contains m.side_effects x ≡ (contains a.side_effects x || contains b.side_effects x))
      × (contains m.redactions x ≡ (contains a.redactions x || contains b.redactions x))
      × (contains m.reasons x ≡ (contains a.reasons x || contains b.reasons x))
      × (contains m.required_data_residency x
          ≡ (contains a.required_data_residency x || contains b.required_data_residency x))
      × (contains m.required_capabilities x
          ≡ (contains a.required_capabilities x || contains b.required_capabilities x))
      × (contains m.degraded_features x
          ≡ (contains a.degraded_features x || contains b.degraded_features x))
unfolding merge_both
merge-union a b x = (
  contains-append_unique a.modifiers b.modifiers x,
  contains-append_unique a.side_effects b.side_effects x,
  contains-append_unique a.redactions b.redactions x,
  contains-append_unique a.reasons b.reasons x,
  rw append_nonempty-eq
      (contains-append_unique a.required_data_residency b.required_data_residency x),
  rw append_nonempty-eq (contains-append_unique a.required_capabilities b.required_capabilities x),
  contains-append_unique a.degraded_features b.degraded_features x,
)
