-- ===== src/Proxy/Delivery.antt =====
-- What the client of the local proxy gets: relayStream of internal/lp/server/anthropic.go.
use mathlib.Core.Path.{fun_ext}
use agentgate.Base.{
  ℕ, zero, suc, ◌<◌, ◌≡◌, refl, sym, ap, subst, ◌∙◌, ◌⊎◌, inl, inr, Bool, true, not, some, List, [],
  ◌∷◌, ◌++◌, append_assoc, append-nil, length, All, Bool-cases, if◌then◌else◌, arith,
}
use agentgate.External.{Writer}
use agentgate.Proxy.Frames.{split_frame, SseReader, next_frame}
use agentgate.Proxy.Reading.{IsClean, bytes_left, next_frame-TakesFirst}
use agentgate.Proxy.Relay.{
  has_prefix, usage_prefix, error_prefix, is_agentgate_frame, frame_end, completed, write_failed,
  Relayed, write_frame, stop, noted, relay_frame, relay_stream,
}
use agentgate.Proxy.Split.{frames_of, frames_by, frames_of-split, split_frame-append}
use agentgate.Streaming.Lines.{Bytes}

module _ (writer : Writer) (build_anthropic_error_frame : Bytes → Bytes) where
  open writer use {Sink, write, received, write-received}

  -- The relay of a list of frames.
  abbrev pub relay_frames : List Bytes → Sink → Relayed writer build_anthropic_error_frame
  relay_frames [] s = stop writer build_anthropic_error_frame s completed
  relay_frames (f ∷ frames) s =
      relay_frame writer build_anthropic_error_frame f s (relay_frames frames)

  -- With a stream that ends with io.EOF, the loop ends after at most as many turns as there are bytes
  -- and one more, and does what the relay of the frames of these bytes does, in whatever pieces the
  -- bytes arrive.
  pub relay_stream-frames_of :
      (fuel : ℕ) (r : SseReader) (s : Sink)
      → IsClean r.ending
      → length (bytes_left r) < fuel
      → relay_stream writer build_anthropic_error_frame fuel r s
        ≡ relay_frames (frames_of (bytes_left r)) s
  unfolding relay_stream
  relay_stream-frames_of zero r s clean enough = absurd (omega arith)
  relay_stream-frames_of (suc fuel) r s clean enough = elim (next_frame-TakesFirst r clean) [
    | inl (f, next, first, still, less) ↦
        rw (next, relay_stream)
          (rw first (
            ap (relay_frame writer build_anthropic_error_frame f s) (
              fun_ext (λ s'.
                relay_stream-frames_of fuel (next_frame r).1 s' still (omega (arith, less))))))
    | inr (next, empty) ↦ rw (next, relay_stream) (rw empty)
  ]

  -- The bytes for the client, and the frames for the ledger.
  abbrev pub client_bytes : List Bytes → Bytes
  client_bytes [] = []
  client_bytes (f ∷ frames) =
      let later = client_bytes frames in
      if not (is_agentgate_frame f)
      then f ++ (frame_end ++ later)
      else if has_prefix f usage_prefix
      then later
      else if has_prefix f error_prefix
      then build_anthropic_error_frame f ++ frame_end
      else later

  abbrev pub ledger_frames : List Bytes → List Bytes
  ledger_frames [] = []
  ledger_frames (f ∷ frames) =
      let later = ledger_frames frames in
      if not (is_agentgate_frame f)
      then later
      else if has_prefix f usage_prefix
      then f ∷ later
      else if has_prefix f error_prefix
      then []
      else later

  -- A relay whose writes failed, or that delivered these bytes and these frames.
  abbrev pub Delivers : Relayed writer build_anthropic_error_frame → Bytes → List Bytes → Type 0
  Delivers run out ledger =
      (run.ended ≡ write_failed) ⊎ ((received run.client ≡ out) × (run.ledger ≡ ledger))

  abbrev sent_frame : Sink → Bytes → Sink × Bool
  sent_frame = write_frame writer build_anthropic_error_frame

  write_frame-received :
      (s : Sink) (f : Bytes)
      → (write_frame writer build_anthropic_error_frame s f).1 ≡ true
      → received (write_frame writer build_anthropic_error_frame s f).0
        ≡ received s ++ (f ++ frame_end)
  write_frame-received s f h = elim (Bool-cases (write s f).1) [
    | inl e ↦ rw e (
        write-received (write s f).0 frame_end (rw e at h)
        ∙ ap (λ r. r ++ frame_end) (write-received s f e)
        ∙ append_assoc (received s) f frame_end)
    | inr e ↦ cc (rw e at h)
  ]

  noted-Delivers :
      (f : Bytes) (run : Relayed writer build_anthropic_error_frame) {out : Bytes}
      {ledger : List Bytes}
      → Delivers run out ledger
      → Delivers (noted writer build_anthropic_error_frame f run) out (f ∷ ledger)
  noted-Delivers f run (inl e) = inl e
  noted-Delivers f run (inr (out, ledger)) = inr (out, rw ledger)

  pub relay_frames-Delivers :
      (frames : List Bytes) (s : Sink)
      → Delivers (relay_frames frames s) (received s ++ client_bytes frames) (ledger_frames frames)
  relay_frames-Delivers [] s = inr (sym (append-nil (received s)), refl)
  relay_frames-Delivers (f ∷ frames) s = elim (Bool-cases (is_agentgate_frame f)) [
    | inl a ↦ elim (Bool-cases (has_prefix f usage_prefix)) [
      | inl u ↦
          rw (a, u) (noted-Delivers f (relay_frames frames s) (relay_frames-Delivers frames s))
      | inr u ↦ elim (Bool-cases (has_prefix f error_prefix)) [
        | inl x ↦ elim (Bool-cases (sent_frame s (build_anthropic_error_frame f)).1) [
          | inl w ↦
              rw (a, u, x)
                (rw w (inr (write_frame-received s (build_anthropic_error_frame f) w, refl)))
          | inr w ↦ rw (a, u, x) (rw w (inl refl))
        ]
        | inr x ↦ rw (a, u, x) (relay_frames-Delivers frames s)
      ]
    ]
    | inr a ↦ elim (Bool-cases (sent_frame s f).1) [
      | inl w ↦ rw a (
          rw w (
            subst
              (λ out. Delivers (relay_frames frames (sent_frame s f).0) out (ledger_frames frames))
              (ap (λ bs. bs ++ client_bytes frames) (write_frame-received s f w)
                ∙ append_assoc (received s) (f ++ frame_end) (client_bytes frames)
                ∙ ap (λ bs. received s ++ bs) (append_assoc f frame_end (client_bytes frames)))
              (relay_frames-Delivers frames (sent_frame s f).0)))
      | inr w ↦ rw a (rw w (inl refl))
    ]
  ]

-- A frame: no "\n\n" stands in it or across its end.
abbrev pub IsFrame : Bytes → Type 0
IsFrame f = split_frame (f ++ frame_end) ≡ some (f, [])

abbrev pub render : List Bytes → Bytes
render [] = []
render (f ∷ frames) = f ++ (frame_end ++ render frames)

-- Frames that are written read back.
pub frames_of-render :
    (frames : List Bytes) → All IsFrame frames → frames_of (render frames) ≡ frames
unfolding frames_of
frames_of-render [] h = refl
frames_of-render (f ∷ frames) h = rw (← append_assoc f frame_end (render frames)) (
    frames_of-split ((f ++ frame_end) ++ render frames)
    ∙ ap (frames_by ((f ++ frame_end) ++ render frames))
        (split_frame-append (f ++ frame_end) (render frames) h.0)
    ∙ ap (λ r. f ∷ r) (frames_of-render frames h.1))
