-- ===== src/Streaming/Accounting.antt =====
-- The end of an accounted stream: the method run of internal/gw/server/stream_accounting.go, and the
-- settlement of the reservation that Run of internal/gw/server/ingress_pipeline.go hands to it. The
-- rendering of the tail events and the log are left out: what run writes and calls is its result.
use agentgate.Base.{ℤ, String, Bool, true, false, List, [], ◌∷◌, Option, none, some, if◌then◌else◌}
use agentgate.Config.Types.{PricingConfig}
use agentgate.Cost.{Usage, Event, build_event}
use agentgate.External.{Float64, Writer}
use agentgate.Streaming.Usage.{Json, Accumulator, new_accumulator, usage}
use agentgate.Streaming.Forward.{StreamError, Source, forward_frames}

pub record StreamAccountingResult : Type 0 where
  pub usage : Usage
  pub cost_event : Event
  pub error_class : String
  pub err : Option StreamError

-- The fields of AccountedStreamConfig that decide what run does. `has_cost_writer` is `CostW != nil`,
-- and `has_post_account` is `PostAccount != nil`.
pub record AccountedStreamConfig : Type 0 where
  pub wire : String
  pub has_cost_writer : Bool
  pub vendor_id : String
  pub endpoint_id : String
  pub model : String
  pub pool : String
  pub is_private : Bool
  pub has_post_account : Bool

-- A write of a cost event: the event, whether the stream completed, and the class of the error.
pub record CostWrite : Type 0 where
  pub event : Event
  pub completed : Bool
  pub error_class : String

-- The arguments of InjectUsage and of InjectError that differ from stream to stream.
pub data Tail : Type 0 where
  usage_tail : Usage → ℤ → String → Tail
  error_tail : ℤ → Tail

-- What run has done when it ends.
pub record Run (Sink : Type 0) : Type 0 where
  pub result : StreamAccountingResult
  pub cost_writes : List CostWrite
  pub post_accounts : List StreamAccountingResult
  pub tail : Tail
  pub sink : Sink

abbrev pub when {ℓ} : {A : Type ℓ} → Bool → A → List A
when true a = a ∷ []
when false a = []

module _ (float : Float64) (json : Json) (writer : Writer) where
  unfoldable pub interrupted_run :
      AccountedStreamConfig
      → Option (PricingConfig float.F)
      → StreamError
      → Accumulator
      → writer.Sink
      → Run writer.Sink
  interrupted_run cfg pricing e acc s =
      let u = usage acc in
      let built =
        build_event float (some u) cfg.wire cfg.vendor_id cfg.endpoint_id cfg.model cfg.pool
          cfg.is_private pricing in
      let ce = record built { cost_source = "estimated" } in
      let result : StreamAccountingResult = record {
        usage = u;
        cost_event = ce;
        error_class = "stream_interrupted";
        err = some e;
      } in
      record {
        result = result;
        cost_writes =
            when cfg.has_cost_writer
              (record { event = ce; completed = false; error_class = "stream_interrupted" });
        post_accounts = when cfg.has_post_account result;
        tail = error_tail u.output;
        sink = s;
      }

  unfoldable pub completed_run :
      AccountedStreamConfig
      → Option (PricingConfig float.F)
      → Accumulator
      → writer.Sink
      → Run writer.Sink
  completed_run cfg pricing acc s =
      let u = usage acc in
      let error_class = if acc.has_usage then "" else "usage_missing" in
      let built =
        build_event float (some u) cfg.wire cfg.vendor_id cfg.endpoint_id cfg.model cfg.pool
          cfg.is_private pricing in
      let ce = if acc.has_usage then built else record built { cost_source = "estimated" } in
      let result : StreamAccountingResult = record {
        usage = u;
        cost_event = ce;
        error_class = error_class;
        err = none;
      } in
      record {
        result = result;
        cost_writes =
            when cfg.has_cost_writer
              (record { event = ce; completed = true; error_class = error_class });
        post_accounts = when cfg.has_post_account result;
        tail = usage_tail u ce.cost_cents ce.cost_source;
        sink = s;
      }

  abbrev pub end_run :
      AccountedStreamConfig
      → Option (PricingConfig float.F)
      → Option StreamError × Accumulator × writer.Sink
      → Run writer.Sink
  end_run cfg pricing (some e, acc, s) = interrupted_run cfg pricing e acc s
  end_run cfg pricing (none, acc, s) = completed_run cfg pricing acc s

  unfoldable pub run :
      AccountedStreamConfig
      → Option (PricingConfig float.F)
      → Source
      → writer.Sink
      → Run writer.Sink
  run cfg pricing body s =
      end_run cfg pricing (forward_frames json cfg.wire writer body s new_accumulator)

-- What the PostAccount of the pipeline does with the reservation.
pub data Settlement : Type 0 where
  release : Settlement
  commit : ℤ → Settlement

unfoldable pub settle : StreamAccountingResult → Settlement
settle r = elim r.err [ none ↦ commit r.cost_event.cost_cents | some e ↦ release ]
