-- ===== src/Budget/Audited.antt =====
-- What the settler of internal/gw/budget/settler.go tells onAudit.
use agentgate.Base.{
  ◌≡◌, ◌⊎◌, String, Bool, true, false, ◌&&◌, List, [], ◌∷◌, ◌++◌, Dict, if◌then◌else◌,
}
use agentgate.Budget.Reservation.{State, reserved, expired, Reservation, is_reserved}
use agentgate.Budget.Service.{Service}

abbrev pub is_expired : State → Bool
is_expired expired = true
is_expired _ = false

-- The ids of the entries that were reserved in the first map and are expired in the second.
abbrev pub newly_expired : Dict Reservation → Dict Reservation → List String
newly_expired ((_, r) ∷ rs) ((_, r') ∷ rs') =
    let rest = newly_expired rs rs' in
    if is_reserved r.state && is_expired r'.state then r.id ∷ rest else rest
newly_expired _ _ = []

-- Entry by entry, the state is the same, or it was reserved and is expired.
abbrev Keeps : Reservation → Reservation → Type 0
Keeps r r' = (r'.state ≡ r.state) ⊎ ((r.state ≡ reserved) × (r'.state ≡ expired))

abbrev Follows : Dict Reservation → Dict Reservation → Type 0
Follows [] [] = Unit {0}
Follows ((_, r) ∷ rs) ((_, r') ∷ rs') = Keeps r r' × Follows rs rs'
Follows [] (_ ∷ _) = ⊥
Follows (_ ∷ _) [] = ⊥

abbrev pub concat : List (List String) → List String
concat [] = []
concat (ids ∷ calls) = ids ++ concat calls
