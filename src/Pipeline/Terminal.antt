-- ===== src/Pipeline/Terminal.antt =====
-- The scoring, routing and terminal nodes of app/pipeline/nodes.py.
use ocr_service.Prelude.{ℕ, String, none, some, [], if◌then◌else◌}
use ocr_service.Prelude.Outcome.{Outcome, ok, err}
use ocr_service.Json
use ocr_service.Json.{Dict, count}
use ocr_service.Float.{Float, less, ◌>=◌, min2}
use ocr_service.Status.{DocumentStatus, FailureReason}
use ocr_service.Confidence.{
  RoutingDecision, ConfidenceBreakdown, high, medium, low, completeness_score, missing_required,
  score,
}
use ocr_service.Pipeline.State.{ExtractionState, StepName, nothing, get_or}
use ocr_service.Pipeline.Nodes.{halted, is_cancel, property_count, or_nat, at_least_one}

pub data Branch : Type 0 where
  deliver review dlq : Branch

-- `{"deliver": "HIGH", "review": "MEDIUM", "dlq": "LOW"}`
abbrev pub decision_of : Branch → RoutingDecision
decision_of deliver = high
decision_of review = medium
decision_of dlq = low

module _ {F : Type 0} ⦃fl : Float F⦄ where
  -- How much of the schema is filled: `min(1.0, len(extracted) / total_props)`.
  unfoldable pub fill_rate : Dict → ℕ → F
  fill_rate extracted properties =
      min2 (fl.ratio 1 1)
        (fl.ratio (count extracted) (or_nat properties (at_least_one (count extracted))))

  -- The self-report of the model where it is above 0, and the structural signals where not.
  unfoldable pub llm_signal : F → F → F → F
  llm_signal llm_self completeness filled =
      if less (fl.ratio 0 1) llm_self then llm_self else min2 completeness filled

  -- The breakdown that `score_node` computes.
  unfoldable pub breakdown : ExtractionState F → ℕ → ConfidenceBreakdown F
  unfolding score completeness_score fill_rate llm_signal
  breakdown s properties =
      let extracted = get_or s.extracted_json Json.empty in
      let completeness : F = completeness_score extracted (get_or s.required_fields []) in
      let filled : F = fill_rate extracted properties in
      score (llm_signal (get_or s.llm_confidence (fl.ratio 0 1)) completeness filled) completeness
        filled (get_or s.guardrail_multiplier (fl.ratio 1 1))

  abbrev pub scored_update : ExtractionState F → ℕ → ExtractionState F
  scored_update s properties = record (nothing F) {
    confidence = some (breakdown s properties).guardrail_adjusted;
    confidence_breakdown = some (breakdown s properties);
    missing_fields =
        some (missing_required (get_or s.extracted_json Json.empty) (get_or s.required_fields []));
    current_step = some StepName.score;
    status = some DocumentStatus.routing;
  }

  unfoldable pub score_node : ExtractionState F → Outcome String (ExtractionState F)
  score_node s =
      if halted s then ok (nothing F) else elim (property_count (get_or s.json_schema Json.empty)) [
        | some properties ↦ ok (scored_update s properties)
        | none ↦ err "TypeError"
      ]

  -- `route_decision`
  unfoldable pub route_decision : ExtractionState F → Branch
  route_decision s =
      let conf : F = get_or s.confidence (fl.ratio 0 1) in
      if halted s
      then dlq
      else if conf >= get_or s.confidence_high (fl.ratio 85 100)
      then deliver
      else if conf >= get_or s.confidence_medium (fl.ratio 60 100)
      then review
      else dlq

  unfoldable pub route_node : ExtractionState F → ExtractionState F
  unfolding route_decision
  route_node s = record (nothing F) {
    routing_decision = some (decision_of (route_decision s));
    current_step = some StepName.route;
  }

  unfoldable pub deliver_node : ExtractionState F → ExtractionState F
  deliver_node s = record (nothing F) {
    status = some DocumentStatus.completed;
    current_step = some StepName.deliver;
  }

  unfoldable pub review_node : ExtractionState F → ExtractionState F
  review_node s = record (nothing F) {
    status = some DocumentStatus.review;
    current_step = some StepName.create_review;
  }

  -- `state.get("failure_reason") or "LOW_CONFIDENCE"`: no reason is an empty text.
  unfoldable pub dlq_node : ExtractionState F → ExtractionState F
  dlq_node s =
      if is_cancel s.status
      then record (nothing F) { current_step = some StepName.dlq }
      else record (nothing F) {
        status = some DocumentStatus.rejected;
        failure_reason = some (get_or s.failure_reason FailureReason.low_confidence);
        current_step = some StepName.dlq;
      }
