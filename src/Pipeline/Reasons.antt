-- ===== src/Pipeline/Reasons.antt =====
-- Why a run of the graph of app/pipeline/graph.py delivers or rejects a document.
use ocr_service.Prelude.{◌∙◌, sym, if◌then◌else◌, String, ◌≡◌, false, Option, none, some, arith}
use ocr_service.Prelude.Outcome.{Outcome, ok, err}
use ocr_service.Float.{Float, ◌>=◌}
use ocr_service.Status.{DocumentStatus, FailureReason}
use ocr_service.Guardrails.{run_guardrails}
use ocr_service.Pipeline.State.{ExtractionState, merge, get_or}
use ocr_service.Pipeline.Parsing.{ParseResult, is_empty_result}
use ocr_service.Pipeline.Nodes.{
  Services, first_block, block_reason, extraction_request, parse_node, guardrail_node, extract_node,
}
use ocr_service.Pipeline.Terminal.{score_node}
use ocr_service.Pipeline.Graph.{Node, visit, follow, run_from, run_graph}
use ocr_service.Pipeline.Outcomes.{before_score, run_graph-score, run_from-score}

module _ {F : Type 0} ⦃fl : Float F⦄ where
  -- The state that `_load_initial_state` of app/worker/runner.py seeds, as far as it matters here.
  abbrev pub IsFresh : ExtractionState F → Type 0
  IsFresh s =
      (s.status ≡ some DocumentStatus.pending)
      × (s.is_cancelled ≡ some false)
      × (s.failure_reason ≡ none)
      × (s.extracted_json ≡ none)

  abbrev reason_of_text : Services F → ExtractionState F → ParseResult → Option FailureReason
  reason_of_text svc s r = elim (first_block (run_guardrails {F = F} svc.unicode r.text)) [
    | some o ↦ some (block_reason o)
    | none ↦ elim (svc.extract (record (extraction_request s) { text = r.text })) [
      | err message ↦ some FailureReason.extraction_failed
      | ok extraction ↦ none
    ]
  ]

  abbrev reason_of_parse :
      Services F → ExtractionState F → Outcome String ParseResult → Option FailureReason
  reason_of_parse svc s (err message) = some FailureReason.parse_failed
  reason_of_parse svc s (ok r) =
      if is_empty_result r then some FailureReason.parse_empty_output else reason_of_text svc s r

  -- The first thing that goes wrong with the document before it is scored.
  abbrev pub first_failure : Services F → ExtractionState F → Option FailureReason
  first_failure svc s = elim (svc.load s.file_storage_key) [
    | err message ↦ some FailureReason.parse_failed
    | ok content ↦ reason_of_parse svc s (svc.parse content)
  ]

  before_score-failed :
      (svc : Services F) (s : ExtractionState F)
      → IsFresh s
      → (r : FailureReason) → first_failure svc s ≡ some r
      → ((before_score svc s).status ≡ some DocumentStatus.error)
        × ((before_score svc s).failure_reason ≡ some r)
  unfolding parse_node guardrail_node extract_node
  before_score-failed svc s f r h = ground arith

  before_score-passed :
      (svc : Services F) (s : ExtractionState F)
      → IsFresh s
      → first_failure svc s ≡ none
      → ((before_score svc s).status ≡ some DocumentStatus.scoring)
        × ((before_score svc s).failure_reason ≡ none)
  unfolding parse_node guardrail_node extract_node
  before_score-passed svc s f h = ground arith

  score-failed :
      (svc : Services F) (s t : ExtractionState F) (n : Node) (r : FailureReason)
      → s.status ≡ some DocumentStatus.error
      → s.failure_reason ≡ some r
      → run_from svc 3 Node.score s ≡ ok (n, t)
      → (t.status ≡ some DocumentStatus.rejected) × (t.failure_reason ≡ some r)
  unfolding run_from visit follow
  score-failed svc s t n r h k e = ground arith

  -- The tier of a confidence between the two thresholds of the schema.
  abbrev pub tier : F → F → F → DocumentStatus
  tier c h m =
      if c >= h
      then DocumentStatus.completed
      else if c >= m
      then DocumentStatus.review
      else DocumentStatus.rejected

  -- How a document that was scored is left.
  abbrev pub IsRouted : ExtractionState F → ExtractionState F → Type 0
  IsRouted s t =
      (t.status
        ≡ some (
            tier (get_or t.confidence (fl.ratio 0 1)) (get_or s.confidence_high (fl.ratio 85 100))
              (get_or s.confidence_medium (fl.ratio 60 100))))
      × (t.status ≡ some DocumentStatus.rejected
          → t.failure_reason ≡ some FailureReason.low_confidence)

  route-passed :
      (svc : Services F) (s t : ExtractionState F) (n : Node)
      → s.status ≡ some DocumentStatus.routing
      → s.failure_reason ≡ none
      → run_from svc 2 Node.route s ≡ ok (n, t)
      → IsRouted s t
  unfolding run_from visit follow
  route-passed svc s t n h k e = ground arith

  score_node-passed :
      (s u : ExtractionState F)
      → s.status ≡ some DocumentStatus.scoring
      → score_node s ≡ ok u
      → ((merge s u).status ≡ some DocumentStatus.routing)
        × ((merge s u).failure_reason ≡ s.failure_reason)
        × ((merge s u).confidence_high ≡ s.confidence_high)
        × ((merge s u).confidence_medium ≡ s.confidence_medium)
  unfolding score_node
  score_node-passed s u h e = ground arith

  score-passed :
      (svc : Services F) (s t : ExtractionState F) (n : Node)
      → s.status ≡ some DocumentStatus.scoring
      → s.failure_reason ≡ none
      → run_from svc 3 Node.score s ≡ ok (n, t)
      → IsRouted s t
  score-passed svc s t n h k e =
      let (u, scored, rest) = run_from-score svc s t n e in
      let (st, fr, hi, me) = score_node-passed s u h scored in
      rw (hi, me) at (route-passed svc (merge s u) t n st (fr ∙ k) rest)

  thresholds-before_score :
      (svc : Services F) (s : ExtractionState F)
      → ((before_score svc s).confidence_high ≡ s.confidence_high)
        × ((before_score svc s).confidence_medium ≡ s.confidence_medium)
  unfolding parse_node guardrail_node extract_node
  thresholds-before_score svc s = ground arith

  -- Of a fresh document, a run that ends leaves it rejected for the first thing that went wrong
  -- before it was scored; if nothing did, its confidence and the thresholds of its schema alone
  -- decide whether it is delivered, reviewed, or rejected for low confidence.
  pub run_graph_verdict :
      (svc : Services F) (s t : ExtractionState F) (n : Node)
      → IsFresh s
      → run_graph svc s ≡ ok (n, t)
      → ((r : FailureReason)
          → first_failure svc s ≡ some r
          → (t.status ≡ some DocumentStatus.rejected) × (t.failure_reason ≡ some r))
        × (first_failure svc s ≡ none → IsRouted s t)
  run_graph_verdict svc s t n f h = (
    λ r e.
        let (st, fr) = before_score-failed svc s f r e in
        score-failed svc (before_score svc s) t n r st fr (sym (run_graph-score svc s) ∙ h),
    λ e.
        let (st, fr) = before_score-passed svc s f e in
        let (hi, me) = thresholds-before_score svc s in
        rw (hi, me) at
          (score-passed svc (before_score svc s) t n st fr (sym (run_graph-score svc s) ∙ h)),
  )
