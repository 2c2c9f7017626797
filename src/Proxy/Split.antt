-- ===== src/Proxy/Split.antt =====
-- The frames of a sequence of bytes, and how sseReader of internal/lp/server/anthropic.go splits the first
-- one off.
use agentgate.Base.{
  ℕ, ◌+◌, ◌≡◌, refl, ap, ◌∙◌, ◌&&◌, Option, none, some, List, [], ◌∷◌, ◌++◌, nat_eq, length,
  Bool-cases, inl, inr, if◌then◌else◌, arith,
}
use agentgate.Proxy.Frames.{prepend, split_frame}
use agentgate.Streaming.Lines.{Bytes}

abbrev onto_first : ℕ → List Bytes → List Bytes
onto_first b [] = (b ∷ []) ∷ []
onto_first b (f ∷ frames) = (b ∷ f) ∷ frames

-- A frame ends at "\n\n" or with the bytes.
unfoldable pub frames_of : Bytes → List Bytes
frames_of [] = []
frames_of (b ∷ []) = (b ∷ []) ∷ []
frames_of (b ∷ c ∷ rest) =
    let closed = [] ∷ frames_of rest in
    let later = onto_first b (frames_of (c ∷ rest)) in
    if nat_eq b 10 && nat_eq c 10 then closed else later

abbrev pub one_frame : Bytes → List Bytes
one_frame [] = []
one_frame (b ∷ bs) = (b ∷ bs) ∷ []

abbrev pub frames_by : Bytes → Option (Bytes × Bytes) → List Bytes
frames_by bs none = one_frame bs
frames_by bs (some (f, rest)) = f ∷ frames_of rest

onto_first-frames_by :
    (b c : ℕ) (bs : Bytes) (found : Option (Bytes × Bytes))
    → onto_first b (frames_by (c ∷ bs) found) ≡ frames_by (b ∷ c ∷ bs) (prepend b found)
onto_first-frames_by b c bs none = refl
onto_first-frames_by b c bs (some (f, rest)) = refl

-- The first frame of the bytes is the one that is split off.
pub frames_of-split : (bs : Bytes) → frames_of bs ≡ frames_by bs (split_frame bs)
unfolding frames_of split_frame
frames_of-split [] = refl
frames_of-split (b ∷ []) = refl
frames_of-split (b ∷ c ∷ rest) = elim (Bool-cases (nat_eq b 10 && nat_eq c 10)) [
  | inl e ↦ rw e
  | inr e ↦ rw e (
      ap (onto_first b) (frames_of-split (c ∷ rest))
      ∙ onto_first-frames_by b c rest (split_frame (c ∷ rest)))
]

prepend-eq_some :
    (b : ℕ) (found : Option (Bytes × Bytes)) {f rest : Bytes}
    → prepend b found ≡ some (f, rest)
    → (g : Bytes) × (found ≡ some (g, rest)) × (f ≡ b ∷ g)
prepend-eq_some b none h = cc
prepend-eq_some b (some (g, rest)) h = (g, cc, cc)

-- What follows does not change the first frame.
pub split_frame-append :
    (bs more : Bytes) {f rest : Bytes}
    → split_frame bs ≡ some (f, rest)
    → split_frame (bs ++ more) ≡ some (f, rest ++ more)
unfolding split_frame
split_frame-append [] more h = cc
split_frame-append (b ∷ []) more h = cc
split_frame-append (b ∷ c ∷ bs) more h = elim (Bool-cases (nat_eq b 10 && nat_eq c 10)) [
  | inl e ↦ rw e (cc (rw e at h))
  | inr e ↦
      let (g, found, made) = prepend-eq_some b (split_frame (c ∷ bs)) (rw e at h) in
      rw e (rw (split_frame-append (c ∷ bs) more found) (rw made))
]

pub length-split_frame :
    (bs : Bytes) {f rest : Bytes}
    → split_frame bs ≡ some (f, rest)
    → length bs ≡ length f + 2 + length rest
unfolding split_frame
length-split_frame [] h = cc
length-split_frame (b ∷ []) h = cc
length-split_frame (b ∷ c ∷ bs) h = elim (Bool-cases (nat_eq b 10 && nat_eq c 10)) [
  | inl e ↦ ground (arith, rw e at h)
  | inr e ↦
      let (g, found, made) = prepend-eq_some b (split_frame (c ∷ bs)) (rw e at h) in
      rw made (omega (arith, length-split_frame (c ∷ bs) found))
]
