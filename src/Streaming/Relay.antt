-- ===== src/Streaming/Relay.antt =====
-- What forwardFrames of internal/gw/server/stream_accounting.go promises: the bytes pass unchanged, and
-- the usage is that of the data lines.
use agentgate.Base.{
  ℤ, ◌≡◌, ◌⊎◌, refl, sym, ap, ◌∙◌, String, Bool, true, false, ◌||◌, List, [], ◌∷◌, ◌++◌,
  append_assoc, append-nil, Option, none, some, ◌==◌, if◌then◌else◌, Bool-cases, inl, inr,
}
use agentgate.Cost.{no_usage}
use agentgate.External.{Writer}
use agentgate.Streaming.Lines.{
  Bytes, bytes_eq, pieces, concat, concat-pieces, message_start_name, message_delta_name,
}
use agentgate.Streaming.Usage.{
  Json, StartUsage, Accumulator, usage, start_usage, handle_start, handle_delta, handle_chunk,
  handle_anthropic_data, handle_openai_data, handle_sse_data,
}
use agentgate.Streaming.Forward.{
  read_failed, write_failed, Source, Line, blank, other, event_line, data_line, read_line,
  next_event, next_usage, forward_pieces, forward_frames,
}

-- The data of a stream with the event each stands under: the frames of a sequence of lines.
abbrev under : Bytes → Line → List (Bytes × Bytes) → List (Bytes × Bytes)
under event (data_line text) later = (event, text) ∷ later
under event _ later = later

abbrev pub data_lines : Bytes → List Bytes → List (Bytes × Bytes)
data_lines event [] = []
data_lines event (line ∷ rest) =
    under event (read_line line) (data_lines (next_event event (read_line line)) rest)

-- The usage of a sequence of data lines.
abbrev pub accumulate : Json → String → Accumulator → List (Bytes × Bytes) → Accumulator
accumulate json wire acc [] = acc
accumulate json wire acc ((event, text) ∷ rest) =
    accumulate json wire (handle_sse_data json wire event text acc) rest

module _ (json : Json) (wire : String) where
  accumulate-under :
      (event : Bytes) (line : Line) (acc : Accumulator) (later : List (Bytes × Bytes))
      → accumulate json wire acc (under event line later)
        ≡ accumulate json wire (next_usage json wire event line acc) later
  accumulate-under event blank acc later = refl
  accumulate-under event other acc later = refl
  accumulate-under event (event_line name) acc later = refl
  accumulate-under event (data_line text) acc later = refl

  module _ (writer : Writer) where
    open writer use {Sink, write, received, write-received}

    forward_pieces-all :
        (lines : List Bytes) (event : Bytes) (acc : Accumulator) (s : Sink)
        → (forward_pieces json wire writer lines event acc s).0 ≡ true
        → (received (forward_pieces json wire writer lines event acc s).2
            ≡ received s ++ concat lines)
          × ((forward_pieces json wire writer lines event acc s).1
              ≡ accumulate json wire acc (data_lines event lines))
    unfolding forward_pieces
    forward_pieces-all [] event acc s h = (sym (append-nil (received s)), refl)
    forward_pieces-all (line ∷ rest) event acc s h = elim (Bool-cases (write s line).1) [
      | inl e ↦
          let (out, used) =
            forward_pieces-all rest (next_event event (read_line line))
              (next_usage json wire event (read_line line) acc) (write s line).0 (rw e at h) in
          (
            rw e (
                out
                ∙ ap (λ r. r ++ concat rest) (write-received s line e)
                ∙ append_assoc (received s) line (concat rest)),
            rw e (used ∙ sym (accumulate-under event (read_line line) acc _)),
          )
      | inr e ↦ cc (rw e at h)
    ]

    forward_pieces-failed :
        (lines : List Bytes) (event : Bytes) (acc : Accumulator) (s : Sink)
        → (forward_pieces json wire writer lines event acc s).0 ≡ false
        → (at_ : Sink) × (line : Bytes) × ((write at_ line).1 ≡ false)
    unfolding forward_pieces
    forward_pieces-failed [] event acc s h = cc
    forward_pieces-failed (line ∷ rest) event acc s h = elim (Bool-cases (write s line).1) [
      | inl e ↦
          forward_pieces-failed rest (next_event event (read_line line))
            (next_usage json wire event (read_line line) acc) (write s line).0 (rw e at h)
      | inr e ↦ (s, line, e)
    ]

    -- Unless a write fails, the relay delivers the bytes of the source, unchanged and all of them, the
    -- usage is that of the data lines in their order, and the error says whether the source was
    -- interrupted.
    pub forward_frames_lem :
        (src : Source) (acc : Accumulator) (s : Sink)
        → let (error, acc', s') = forward_frames json wire writer src s acc in
          ((error ≡ some write_failed)
            × ((at_ : Sink) × (line : Bytes) × ((write at_ line).1 ≡ false)))
          ⊎ ((error ≡ (if src.interrupted then some read_failed else none))
              × (received s' ≡ received s ++ src.bytes)
              × (acc' ≡ accumulate json wire acc (data_lines [] (pieces src.bytes))))
    unfolding forward_frames
    forward_frames_lem src acc s =
        elim (Bool-cases (forward_pieces json wire writer (pieces src.bytes) [] acc s).0) [
          | inl e ↦
              let (out, used) = forward_pieces-all (pieces src.bytes) [] acc s e in
              inr (rw e, out ∙ ap (λ r. received s ++ r) (concat-pieces src.bytes), used)
          | inr e ↦ inl (rw e, forward_pieces-failed (pieces src.bytes) [] acc s e)
        ]

-- An accumulator without usage has counted nothing.
abbrev pub IsUnused : Accumulator → Type 0
IsUnused acc = acc.has_usage ≡ false → usage acc ≡ no_usage

handle_start-IsUnused :
    (acc : Accumulator) (found : Option (Option (Option StartUsage)))
    → IsUnused acc
    → IsUnused (handle_start acc found)
unfolding start_usage usage
handle_start-IsUnused acc none h = h
handle_start-IsUnused acc (some none) h = h
handle_start-IsUnused acc (some (some none)) h = h
handle_start-IsUnused acc (some (some (some u))) h = λ e. cc

handle_delta-IsUnused :
    (acc : Accumulator) (found : Option (Option ℤ))
    → IsUnused acc
    → IsUnused (handle_delta acc found)
handle_delta-IsUnused acc none h = h
handle_delta-IsUnused acc (some none) h = h
handle_delta-IsUnused acc (some (some output)) h = λ e. cc

handle_chunk-IsUnused :
    (acc : Accumulator) (found : Option (Option (ℤ × ℤ)))
    → IsUnused acc
    → IsUnused (handle_chunk acc found)
handle_chunk-IsUnused acc none h = h
handle_chunk-IsUnused acc (some none) h = h
handle_chunk-IsUnused acc (some (some tokens)) h = λ e. cc

if-IsUnused :
    (t : Bool) (a b : Accumulator) → IsUnused a → IsUnused b → IsUnused (if t then a else b)
if-IsUnused true a b h k = h
if-IsUnused false a b h k = k

handle-IsUnused :
    (json : Json) (wire : String) (event text : Bytes) (acc : Accumulator)
    → IsUnused acc
    → IsUnused (handle_sse_data json wire event text acc)
unfolding handle_sse_data handle_anthropic_data handle_openai_data
handle-IsUnused json wire event text acc h =
    if-IsUnused ((wire == "anthropic") || (wire == "anthropic_compat")) _ _
      (if-IsUnused (bytes_eq event message_start_name) _ _
        (handle_start-IsUnused acc (json.message_start text) h)
        (if-IsUnused (bytes_eq event message_delta_name) _ acc
          (handle_delta-IsUnused acc (json.message_delta text) h) h))
      (if-IsUnused ((wire == "openai") || (wire == "openai_compat")) _ acc
        (handle_chunk-IsUnused acc (json.chunk text) h) h)

pub accumulate-IsUnused :
    (json : Json) (wire : String) (acc : Accumulator) (lines : List (Bytes × Bytes))
    → IsUnused acc
    → IsUnused (accumulate json wire acc lines)
accumulate-IsUnused json wire acc [] h = h
accumulate-IsUnused json wire acc ((event, text) ∷ rest) h =
    accumulate-IsUnused json wire (handle_sse_data json wire event text acc) rest
      (handle-IsUnused json wire event text acc h)
