-- ===== src/Streaming/Lines.antt =====
-- The lines of a stream of server-sent events, as forwardFrames of
-- internal/gw/server/stream_accounting.go reads them. A text is its bytes.
use agentgate.Base.{
  ℕ, Bool, true, false, ◌&&◌, ◌||◌, List, [], ◌∷◌, ◌++◌, Option, none, some, nat_eq, if◌then◌else◌,
  ◌≡◌, refl, ap, ◌∙◌, Bool-cases, inl, inr,
}
use agentgate.Config.Pools.{is_empty}

abbrev pub Bytes : Type 0
Bytes = List ℕ

abbrev pub bytes_eq : Bytes → Bytes → Bool
bytes_eq [] [] = true
bytes_eq [] (b ∷ bs) = false
bytes_eq (a ∷ rest) [] = false
bytes_eq (a ∷ rest) (b ∷ bs) = nat_eq a b && bytes_eq rest bs

-- strings.HasPrefix and strings.TrimPrefix: what stands behind the prefix.
abbrev pub strip_prefix : Bytes → Bytes → Option Bytes
strip_prefix [] text = some text
strip_prefix (p ∷ ps) [] = none
strip_prefix (p ∷ ps) (b ∷ text) =
    let rest = strip_prefix ps text in if nat_eq p b then rest else none

-- strings.TrimRight for "\r\n".
unfoldable pub trim_right : Bytes → Bytes
trim_right [] = []
trim_right (b ∷ bs) =
    let rest = trim_right bs in
    if is_empty rest && (nat_eq b 13 || nat_eq b 10) then [] else b ∷ rest

abbrev joined : ℕ → List Bytes → List Bytes
joined b [] = (b ∷ []) ∷ []
joined b (piece ∷ pieces) = (b ∷ piece) ∷ pieces

-- What the calls of ReadBytes for a newline return until the end: the lines with their newlines, and a
-- last piece without one if there is such.
unfoldable pub pieces : Bytes → List Bytes
pieces [] = []
pieces (b ∷ bs) = let rest = pieces bs in if nat_eq b 10 then (b ∷ []) ∷ rest else joined b rest

abbrev pub concat : List Bytes → Bytes
concat [] = []
concat (piece ∷ rest) = piece ++ concat rest

concat-joined : (b : ℕ) (rest : List Bytes) → concat (joined b rest) ≡ b ∷ concat rest
concat-joined b [] = refl
concat-joined b (piece ∷ rest) = refl

pub concat-pieces : (bs : Bytes) → concat (pieces bs) ≡ bs
unfolding pieces
concat-pieces [] = refl
concat-pieces (b ∷ bs) = elim (Bool-cases (nat_eq b 10)) [
  | inl e ↦ rw e (ap (λ r. b ∷ r) (concat-pieces bs))
  | inr e ↦ rw e (concat-joined b (pieces bs) ∙ ap (λ r. b ∷ r) (concat-pieces bs))
]

-- "event: "
abbrev pub event_field : Bytes
event_field = 101 ∷ 118 ∷ 101 ∷ 110 ∷ 116 ∷ 58 ∷ 32 ∷ []

-- "data: "
abbrev pub data_field : Bytes
data_field = 100 ∷ 97 ∷ 116 ∷ 97 ∷ 58 ∷ 32 ∷ []

-- "message_start"
abbrev pub message_start_name : Bytes
message_start_name = 109 ∷ 101 ∷ 115 ∷ 115 ∷ 97 ∷ 103 ∷ 101 ∷ 95 ∷ 115 ∷ 116 ∷ 97 ∷ 114 ∷ 116 ∷ []

-- "message_delta"
abbrev pub message_delta_name : Bytes
message_delta_name = 109 ∷ 101 ∷ 115 ∷ 115 ∷ 97 ∷ 103 ∷ 101 ∷ 95 ∷ 100 ∷ 101 ∷ 108 ∷ 116 ∷ 97 ∷ []
