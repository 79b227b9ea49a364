-- ===== src/Pipeline/Completion.antt =====
-- When a run of the graph of app/pipeline/graph.py comes to its end.
use ocr_service.Prelude.{ℕ, ◌≡◌, refl, ap, ◌∙◌, some, Bool-cases, inl, inr, arith}
use ocr_service.Prelude.Outcome.{ok}
use ocr_service.Json
use ocr_service.Float.{Float}
use ocr_service.Pipeline.State.{ExtractionState, merge, get_or, nothing}
use ocr_service.Pipeline.Nodes.{
  Services, halted, property_count, parse_node, guardrail_node, extract_node,
}
use ocr_service.Pipeline.Terminal.{scored_update, score_node, route_decision}
use ocr_service.Pipeline.Graph.{Node, run_graph, run_from, visit, follow}
use ocr_service.Pipeline.Outcomes.{
  before_score, run_graph-score, routed, ended, run_from-routed, run_from-branch,
}

module _ {F : Type 0} ⦃fl : Float F⦄ where
  score_node-ok :
      (s : ExtractionState F) (k : ℕ)
      → property_count (get_or s.json_schema Json.empty) ≡ some k
      → (u : ExtractionState F) × (score_node s ≡ ok u)
  unfolding score_node
  score_node-ok s k h = elim (Bool-cases (halted s)) [
    | inl c ↦ (nothing F, rw (score_node, c) refl)
    | inr c ↦ (scored_update s k, rw (score_node, c, h) refl)
  ]

  run_from-scored :
      (svc : Services F) (s u : ExtractionState F)
      → score_node s ≡ ok u
      → run_from svc 3 Node.score s ≡ run_from svc 2 Node.route (merge s u)
  unfolding run_from visit follow
  run_from-scored svc s u e = rw (run_from, visit, e) refl

  json_schema-before_score :
      (svc : Services F) (s : ExtractionState F) → (before_score svc s).json_schema ≡ s.json_schema
  unfolding parse_node guardrail_node extract_node
  json_schema-before_score svc s = ground arith

  -- A run comes to the end of the graph whenever the `properties` of the schema have a length.
  pub run_graph_completes :
      (svc : Services F) (s : ExtractionState F) (k : ℕ)
      → property_count (get_or s.json_schema Json.empty) ≡ some k
      → (t : ExtractionState F) × (run_graph svc s ≡ ok (Node.end, t))
  run_graph_completes svc s k h =
      let b = before_score svc s in
      let (u, e) =
        score_node-ok b k
          (ap (λ j. property_count (get_or j Json.empty)) (json_schema-before_score svc s) ∙ h) in
      let r = merge b u in
      (
        ended (route_decision (routed r)) (routed r),
        run_graph-score svc s
            ∙ run_from-scored svc b u e
            ∙ run_from-routed svc r
            ∙ run_from-branch svc (route_decision (routed r)) (routed r),
      )
