-- ===== src/Streaming/Settled.antt =====
-- What an accounted stream leaves behind: run of internal/gw/server/stream_accounting.go with the
-- settlement of internal/gw/server/ingress_pipeline.go.
use agentgate.Base.{
  ◌≡◌, ◌⊎◌, refl, sym, ap, subst, ◌∙◌, String, true, false, [], ◌++◌, map, Option, none, some,
  if◌then◌else◌, Bool-cases, inl, inr,
}
use agentgate.Config.Types.{PricingConfig}
use agentgate.Cost.{no_usage}
use agentgate.External.{Float64, Writer}
use agentgate.Streaming.Lines.{Bytes, pieces}
use agentgate.Streaming.Usage.{Json, Accumulator, new_accumulator, usage}
use agentgate.Streaming.Forward.{StreamError, read_failed, Source, forward_frames}
use agentgate.Streaming.Relay.{
  accumulate, data_lines, forward_frames_lem, accumulate-IsUnused, IsUnused,
}
use agentgate.Streaming.Accounting.{
  AccountedStreamConfig, usage_tail, error_tail, Run, when, interrupted_run, completed_run, end_run,
  run, release, commit, settle,
}

empty_apart : ◌≡◌ {A = String} "" "usage_missing" → ⊥
empty_apart h = cc

module _ (float : Float64) (json : Json) (writer : Writer) where
  open writer use {Sink, write, received}

  -- Why a stream fails: its source is interrupted, or a write to the client fails.
  abbrev pub IsBroken : Source → Type 0
  IsBroken body =
      (body.interrupted ≡ true) ⊎ ((at_ : Sink) × (line : Bytes) × ((write at_ line).1 ≡ false))

  -- A stream that is broken, with an error, a released reservation, an estimated source and an error as
  -- the tail; or one that is whole and delivered before the tail, without an error, and with a
  -- reservation that is committed at the cents that the tail reports.
  abbrev pub EndsWith : Source → Sink → Option StreamError → Run Sink → Type 0
  EndsWith body s (some e) r =
      IsBroken body
      × (r.result.err ≡ some e)
      × (r.result.error_class ≡ "stream_interrupted")
      × (settle r.result ≡ release)
      × (r.result.cost_event.cost_source ≡ "estimated")
      × (r.tail ≡ error_tail r.result.usage.output)
  EndsWith body s none r =
      (body.interrupted ≡ false)
      × (received r.sink ≡ received s ++ body.bytes)
      × (r.result.err ≡ none)
      × (settle r.result ≡ commit r.result.cost_event.cost_cents)
      × (r.tail
          ≡ usage_tail r.result.usage r.result.cost_event.cost_cents
              r.result.cost_event.cost_source)

  -- The callback runs once, with the result, where there is one, and so does the writing of the event.
  abbrev pub IsSettled : AccountedStreamConfig → Source → Sink → Run Sink → Type 0
  IsSettled cfg body s r =
      EndsWith body s r.result.err r
      × (r.post_accounts ≡ when cfg.has_post_account r.result)
      × (map (λ w. w.event) r.cost_writes ≡ when cfg.has_cost_writer r.result.cost_event)

  -- What the error and the sink of the relay tell of the source.
  abbrev Explains : Source → Sink → Option StreamError → Sink → Type 0
  Explains body s none s' = (body.interrupted ≡ false) × (received s' ≡ received s ++ body.bytes)
  Explains body s (some e) s' = IsBroken body

  -- What end_run takes over from the relay.
  end_run_relayed :
      (cfg : AccountedStreamConfig) (pricing : Option (PricingConfig float.F))
      (e : Option StreamError) (acc : Accumulator) (s : Sink)
      → ((end_run float json writer cfg pricing (e, acc, s)).sink ≡ s)
        × ((end_run float json writer cfg pricing (e, acc, s)).result.err ≡ e)
        × ((end_run float json writer cfg pricing (e, acc, s)).result.usage ≡ usage acc)
  unfolding interrupted_run completed_run
  end_run_relayed cfg pricing none acc s = (refl, refl, refl)
  end_run_relayed cfg pricing (some e) acc s = (refl, refl, refl)

  -- Where no write fails, the client receives the bytes of the provider, unchanged and all of them,
  -- before the tail; the usage that is accounted is that of the data lines, and the result is an error
  -- exactly if the provider's stream was interrupted.
  pub run_lem :
      (cfg : AccountedStreamConfig) (pricing : Option (PricingConfig float.F)) (body : Source)
      (s : Sink)
      → ((at_ : Sink) (line : Bytes) → (write at_ line).1 ≡ true)
      → let r = run float json writer cfg pricing body s in
        (received r.sink ≡ received s ++ body.bytes)
        × (r.result.err ≡ (if body.interrupted then some read_failed else none))
        × (r.result.usage
            ≡ usage (accumulate json cfg.wire new_accumulator (data_lines [] (pieces body.bytes))))
  unfolding run
  run_lem cfg pricing body s takes =
      let end = forward_frames json cfg.wire writer body s new_accumulator in
      let (sink, error, used) = end_run_relayed cfg pricing end.0 end.1 end.2 in
      elim (forward_frames_lem json cfg.wire writer body new_accumulator s) [
        | inl (_, (at_, line, failed)) ↦ cc (takes at_ line, failed)
        | inr (e, out, acc) ↦ (ap received sink ∙ out, error ∙ e, used ∙ ap usage acc)
      ]

  completed-missing :
      (cfg : AccountedStreamConfig) (pricing : Option (PricingConfig float.F)) (acc : Accumulator)
      (s : Sink)
      → IsUnused acc
      → (completed_run float json writer cfg pricing acc s).result.error_class ≡ "usage_missing"
      → ((completed_run float json writer cfg pricing acc s).result.usage ≡ no_usage)
        × ((completed_run float json writer cfg pricing acc s).result.cost_event.cost_source
            ≡ "estimated")
  unfolding completed_run
  completed-missing cfg pricing acc s unused h = elim (Bool-cases acc.has_usage) [
    | inl e ↦ absurd (empty_apart (rw e at h))
    | inr e ↦ (unused e, rw e)
  ]

  missing_end :
      (cfg : AccountedStreamConfig) (pricing : Option (PricingConfig float.F))
      (e : Option StreamError) (acc : Accumulator) (s : Sink)
      → e ≡ none
      → IsUnused acc
      → (end_run float json writer cfg pricing (e, acc, s)).result.error_class ≡ "usage_missing"
      → ((end_run float json writer cfg pricing (e, acc, s)).result.usage ≡ no_usage)
        × ((end_run float json writer cfg pricing (e, acc, s)).result.cost_event.cost_source
            ≡ "estimated")
  missing_end cfg pricing none acc s none_failed unused h =
      completed-missing cfg pricing acc s unused h
  missing_end cfg pricing (some e) acc s none_failed unused h = cc

  -- A completed stream whose result says that the usage is missing is accounted with no tokens, at an
  -- estimated cost.
  pub run-usage_missing :
      (cfg : AccountedStreamConfig) (pricing : Option (PricingConfig float.F)) (body : Source)
      (s : Sink)
      → (run float json writer cfg pricing body s).result.err ≡ none
      → (run float json writer cfg pricing body s).result.error_class ≡ "usage_missing"
      → ((run float json writer cfg pricing body s).result.usage ≡ no_usage)
        × ((run float json writer cfg pricing body s).result.cost_event.cost_source ≡ "estimated")
  unfolding run usage
  run-usage_missing cfg pricing body s fine missing =
      let end = forward_frames json cfg.wire writer body s new_accumulator in
      let (_, error, _) = end_run_relayed cfg pricing end.0 end.1 end.2 in
      elim (forward_frames_lem json cfg.wire writer body new_accumulator s) [
        | inl (e, _) ↦ cc (fine, error, e)
        | inr (_, _, acc) ↦
            let unused =
              accumulate-IsUnused json cfg.wire new_accumulator (data_lines [] (pieces body.bytes))
                (λ _. refl) in
            missing_end cfg pricing end.0 end.1 end.2 (sym error ∙ fine)
              (subst IsUnused (sym acc) unused) missing
      ]
