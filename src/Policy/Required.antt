-- ===== src/Policy/Required.antt =====
-- What internal/gw/policy/capability_detect.go detects, and what a policy may degrade of it.
use agentgate.Base.{
  ◌⊎◌, ◌↔◌, Option, Option-cases, ◌≡◌, refl, sym, ◌∙◌, String, Bool, true, false, not, ◌&&◌, ◌||◌,
  List, [], ◌∷◌, ◌++◌, none, some, ◌==◌, eq_iff, eq_refl, contains, ok, reject-eq-ok, Bool-cases,
  inl, inr, arith,
}
use agentgate.Config.Types.{PolicyConfig}
use agentgate.Config.Policy.{
  valid_degradable_capabilities, not_degradable, check_capabilities, validate_degradation,
  validate_policy,
}
use agentgate.Config.Policy.Valid.{validate_policy-degradation}
use agentgate.External.{Cel}
use agentgate.Policy.Blocks.{
  any_message, AnyOf, IsImage, IsCached, HasBlock, InSystem, or_iff, any_message_iff,
  block_or_blocks_iff,
}
use agentgate.Policy.Capability.{
  MessagesBody, Parser, keep_hard, filter_degradable, has_cache_control_in_array,
  has_vision_in_array, scan_messages, in_system, when_set, detect_capabilities,
}

keep_hard-contains :
    (allowed detected : List String) (x : String)
    → contains (keep_hard allowed detected) x ≡ (contains detected x && not (contains allowed x))
unfolding keep_hard
keep_hard-contains allowed [] x = refl
keep_hard-contains allowed (c ∷ detected) x = elim (Bool-cases (c == x)) [
  | inl e ↦
      let same = (eq_iff c x).0 e in
      elim (Bool-cases (contains allowed x)) [
        | inl f ↦ rw same (rw f (keep_hard-contains allowed detected x ∙ rw f (ground arith)))
        | inr f ↦ rw same (rw f (rw (eq_refl x)))
      ]
  | inr e ↦ elim (Bool-cases (contains allowed c)) [
    | inl f ↦ rw f (rw e (keep_hard-contains allowed detected x))
    | inr f ↦ rw f (rw e (keep_hard-contains allowed detected x))
  ]
]

-- The hard requirements are the detected capabilities that are not degradable.
pub filter_degradable_lem :
    (detected allowed : List String) (x : String)
    → contains (filter_degradable detected allowed) x
      ≡ (contains detected x && not (contains allowed x))
unfolding filter_degradable
filter_degradable_lem detected [] x = ground arith
filter_degradable_lem detected (a ∷ allowed) x = keep_hard-contains (a ∷ allowed) detected x

not_vision : (caps : List String) → check_capabilities caps ≡ ok tt → contains caps "vision" ≡ false
unfolding check_capabilities
not_vision [] h = refl
not_vision (cap ∷ caps) h =
    let (listed, h₁) =
      reject-eq-ok (not (contains valid_degradable_capabilities cap)) (not_degradable cap) _ h in
    elim (Bool-cases (cap == "vision")) [
      | inl e ↦ cc (rw ((eq_iff cap "vision").0 e) at listed)
      | inr e ↦ rw e (not_vision caps h₁)
    ]

-- With a policy that passes its check, the need for vision is never degraded.
pub filter_degradable-validate_policy :
    (cel : Cel) (policy : PolicyConfig) (detected : List String)
    → validate_policy cel policy ≡ ok tt
    → contains (filter_degradable detected policy.degradation.allowed_capabilities) "vision"
      ≡ contains detected "vision"
unfolding validate_degradation
filter_degradable-validate_policy cel policy detected valid =
    let allowed = policy.degradation.allowed_capabilities in
    filter_degradable_lem detected allowed "vision"
    ∙ rw (not_vision allowed (validate_policy-degradation cel policy valid)) (ground arith)

or_assoc : (p q r : Bool) → (p || (q || r)) ≡ ((p || q) || r)
or_assoc p q r = ground arith

or_false : (p : Bool) → (p || false) ≡ p
or_false p = ground arith

three_flags :
    (parser : Parser) (c t v : Bool)
    → let caps =
        when_set parser c "cache_control"
        ++ (when_set parser t "extended_thinking" ++ when_set parser v "vision") in
      (contains caps "cache_control" ≡ c)
      × (contains caps "extended_thinking" ≡ t)
      × (contains caps "vision" ≡ v)
three_flags parser true true true = (refl, refl, refl)
three_flags parser true true false = (refl, refl, refl)
three_flags parser true false true = (refl, refl, refl)
three_flags parser true false false = (refl, refl, refl)
three_flags parser false true true = (refl, refl, refl)
three_flags parser false true false = (refl, refl, refl)
three_flags parser false false true = (refl, refl, refl)
three_flags parser false false false = (refl, refl, refl)

module _ (parser : Parser) where
  has_cache_control_in_array-IsCached :
      (raw : parser.Raw)
      → (has_cache_control_in_array parser raw ≡ true) ↔ HasBlock parser IsCached raw
  unfolding has_cache_control_in_array
  has_cache_control_in_array-IsCached raw =
      block_or_blocks_iff IsCached (λ b. b.cache_control) (λ b. (λ h. h, λ h. h))
        (parser.blocks raw) (parser.block raw)

  has_vision_in_array-IsImage :
      (raw : parser.Raw) → (has_vision_in_array parser raw ≡ true) ↔ HasBlock parser IsImage raw
  unfolding has_vision_in_array
  has_vision_in_array-IsImage raw =
      block_or_blocks_iff IsImage (λ b. b.type_ == "image") (λ b. eq_iff b.type_ "image")
        (parser.blocks raw) (parser.block raw)

  in_system_iff :
      (system : Option parser.Raw)
      → (in_system parser system ≡ true) ↔ InSystem (HasBlock parser IsCached) system
  in_system_iff none = (λ e. cc, λ x. absurd x)
  in_system_iff (some raw) = has_cache_control_in_array-IsCached raw

  scan_messages-any :
      (messages : List parser.Raw) (c v : Bool)
      → ((scan_messages parser messages c v).0
          ≡ (c || any_message (has_cache_control_in_array parser) messages))
        × ((scan_messages parser messages c v).1
            ≡ (v || any_message (has_vision_in_array parser) messages))
  unfolding scan_messages
  scan_messages-any [] c v = (sym (or_false c), sym (or_false v))
  scan_messages-any (msg ∷ messages) c v =
      let (cached, seen) =
        scan_messages-any messages (c || has_cache_control_in_array parser msg)
          (v || has_vision_in_array parser msg) in
      (cached ∙ sym (or_assoc c _ _), seen ∙ sym (or_assoc v _ _))

  -- For a body that parses, caching is needed exactly if a block of the system prompt or of a message has
  -- cache_control, thinking exactly if the field is set, and vision exactly if a block of a message is
  -- an image, where a value that is no array of blocks may be a single block; for a body that does not
  -- parse, nothing is needed.
  pub detect_capabilities_lem :
      (raw : parser.Raw)
      → ((parser.body raw ≡ none) × (detect_capabilities parser raw ≡ []))
        ⊎ ((mb : MessagesBody parser.Raw) × (parser.body raw ≡ some mb)
            × ((contains (detect_capabilities parser raw) "cache_control" ≡ true) ↔ (
                InSystem (HasBlock parser IsCached) mb.system
                ⊎ AnyOf (HasBlock parser IsCached) mb.messages))
            × (contains (detect_capabilities parser raw) "extended_thinking" ≡ mb.thinking)
            × ((contains (detect_capabilities parser raw) "vision" ≡ true)
                ↔ AnyOf (HasBlock parser IsImage) mb.messages))
  unfolding detect_capabilities
  detect_capabilities_lem raw = elim (Option-cases (parser.body raw)) [
    | inl e ↦ inl (e, rw (e, detect_capabilities))
    | inr (mb, e) ↦
        let scan = scan_messages parser mb.messages (in_system parser mb.system) false in
        let (cached, seen) = scan_messages-any mb.messages (in_system parser mb.system) false in
        let (c, t, v) = three_flags parser scan.0 mb.thinking scan.1 in
        let caches : contains (detect_capabilities parser raw) "cache_control" ≡ (
            in_system parser mb.system
            || any_message (has_cache_control_in_array parser) mb.messages) =
          rw (e, detect_capabilities) (c ∙ cached) in
        let sees : contains (detect_capabilities parser raw) "vision"
            ≡ any_message (has_vision_in_array parser) mb.messages =
          rw (e, detect_capabilities) (v ∙ seen) in
        inr (
          mb,
          e,
          rw caches (
              or_iff (in_system parser mb.system) (in_system_iff mb.system) (
                any_message_iff (has_cache_control_in_array parser) (HasBlock parser IsCached)
                  has_cache_control_in_array-IsCached mb.messages)),
          rw (e, detect_capabilities) t,
          rw sees (
              any_message_iff (has_vision_in_array parser) (HasBlock parser IsImage)
                has_vision_in_array-IsImage mb.messages),
        )
  ]
