-- ===== src/Proxy/Reading.antt =====
-- sseReader of internal/lp/server/anthropic.go reads the frames of the bytes, however they arrive.
use agentgate.Base.{
  ◌<◌, ◌≡◌, refl, sym, subst, ap, ◌∙◌, ◌⊎◌, inl, inr, false, Option, none, some, List, [], ◌∷◌,
  ◌++◌, append_assoc, append-nil, length, Option-cases, arith,
}
use agentgate.Proxy.Frames.{
  split_frame, Ending, SseReader, Next, frame, eof, rest_frame, drained, at_ending, next_frame_from,
  next_frame,
}
use agentgate.Proxy.Split.{
  frames_of, frames_by, frames_of-split, split_frame-append, length-split_frame,
}
use agentgate.Streaming.Lines.{Bytes, concat}

abbrev pub last_bytes : Option Ending → Bytes
last_bytes none = []
last_bytes (some e) = e.last

-- The bytes that a reader has not returned yet.
abbrev pub bytes_left : SseReader → Bytes
bytes_left r = r.buf ++ (concat r.reads ++ last_bytes r.ending)

-- The stream ends, if it has not yet, with io.EOF.
abbrev pub IsClean : Option Ending → Type 0
IsClean none = Unit {0}
IsClean (some e) = e.failed ≡ false

-- A call that takes the first frame off these bytes, or reports their end.
abbrev pub TakesFirst : Bytes → Next × SseReader → Type 0
TakesFirst bytes (next, r) =
    ((f : Bytes) × (next ≡ frame f)
      × (frames_of bytes ≡ f ∷ frames_of (bytes_left r))
      × IsClean r.ending
      × (length (bytes_left r) < length bytes))
    ⊎ ((next ≡ eof) × (frames_of bytes ≡ []))

split_first :
    (buf more f rest : Bytes)
    → split_frame buf ≡ some (f, rest)
    → (frames_of (buf ++ more) ≡ f ∷ frames_of (rest ++ more))
      × (length (rest ++ more) < length (buf ++ more))
split_first buf more f rest p =
    let q = split_frame-append buf more p in
    (
      frames_of-split (buf ++ more) ∙ ap (frames_by (buf ++ more)) q,
      omega (arith, length-split_frame (buf ++ more) q),
    )

rest_frame-TakesFirst : (buf : Bytes) → split_frame buf ≡ none → TakesFirst buf (rest_frame buf)
unfolding frames_of
rest_frame-TakesFirst [] p = inr (refl, refl)
rest_frame-TakesFirst (b ∷ bs) p =
    inl (b ∷ bs, refl, frames_of-split (b ∷ bs) ∙ ap (frames_by (b ∷ bs)) p, tt, omega arith)

drained-TakesFirst : (buf : Bytes) → TakesFirst buf (drained buf)
unfolding drained
drained-TakesFirst buf = elim (Option-cases (split_frame buf)) [
  | inl p ↦ rw (p, drained) (rest_frame-TakesFirst buf p)
  | inr ((f, rest), p) ↦
      let (first, less) = split_first buf [] f rest p in
      rw (p, drained)
        (inl (
          f,
          refl,
          subst (λ bs. frames_of bs ≡ f ∷ frames_of (rest ++ [])) (append-nil buf) first,
          tt,
          subst (λ bs. length (rest ++ []) < length bs) (append-nil buf) less,
        ))
]

at_ending-TakesFirst :
    (buf : Bytes) (ending : Option Ending)
    → IsClean ending
    → TakesFirst (buf ++ last_bytes ending) (at_ending buf ending)
at_ending-TakesFirst buf none clean = rw (append-nil buf) (drained-TakesFirst buf)
at_ending-TakesFirst buf (some e) clean = rw clean (drained-TakesFirst (buf ++ e.last))

next_frame_from-TakesFirst :
    (reads : List Bytes) (buf : Bytes) (ending : Option Ending)
    → IsClean ending
    → TakesFirst (buf ++ (concat reads ++ last_bytes ending)) (next_frame_from reads buf ending)
unfolding next_frame_from
next_frame_from-TakesFirst [] buf ending clean = elim (Option-cases (split_frame buf)) [
  | inl p ↦ rw (p, next_frame_from) (at_ending-TakesFirst buf ending clean)
  | inr ((f, rest), p) ↦
      let (first, less) = split_first buf (last_bytes ending) f rest p in
      rw (p, next_frame_from) (inl (f, refl, first, clean, less))
]
next_frame_from-TakesFirst (piece ∷ reads) buf ending clean =
    elim (Option-cases (split_frame buf)) [
      | inl p ↦
          rw (p, next_frame_from)
            (subst (λ bytes. TakesFirst bytes (next_frame_from reads (buf ++ piece) ending))
              (append_assoc buf piece (concat reads ++ last_bytes ending)
                ∙ ap (λ bs. buf ++ bs)
                    (sym (append_assoc piece (concat reads) (last_bytes ending))))
              (next_frame_from-TakesFirst reads (buf ++ piece) ending clean))
      | inr ((f, rest), p) ↦
          let (first, less) =
            split_first buf (concat (piece ∷ reads) ++ last_bytes ending) f rest p in
          rw (p, next_frame_from) (inl (f, refl, first, clean, less))
    ]

-- Each call takes the first frame of the bytes that are left.
pub next_frame-TakesFirst :
    (r : SseReader) → IsClean r.ending → TakesFirst (bytes_left r) (next_frame r)
unfolding next_frame
next_frame-TakesFirst r clean = next_frame_from-TakesFirst r.reads r.buf r.ending clean
