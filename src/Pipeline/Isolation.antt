-- ===== src/Pipeline/Isolation.antt =====
-- What a run of the graph of app/pipeline/graph.py does not call.
use ocr_service.Prelude.{
  ap, String, ◌≡◌, sym, ◌∙◌, refl, true, false, none, some, List, [], ◌∷◌, arith,
}
use ocr_service.Prelude.Outcome.{Outcome, ok}
use ocr_service.Float.{Float}
use ocr_service.Status.{DocumentStatus}
use ocr_service.Guardrails.{GuardrailOutcome, run_guardrails, has_block}
use ocr_service.Pipeline.State.{ExtractionState, merge, get_or, nothing}
use ocr_service.Pipeline.Nodes.{
  Services, ExtractionRequest, LlmExtraction, halted, is_filled, first_block, parse_node,
  guardrail_node, extract_node,
}
use ocr_service.Pipeline.Graph.{Node, visit, follow, run_from, run_graph}
use ocr_service.Pipeline.Outcomes.{before_score, run_graph-score}

module _ {F : Type 0} ⦃fl : Float F⦄ where
  -- From `score` on, no service is called.
  run_from-score_alone :
      (svc svc' : Services F) (s : ExtractionState F)
      → run_from svc 3 Node.score s ≡ run_from svc' 3 Node.score s
  unfolding run_from visit follow
  run_from-score_alone svc svc' s = ground arith

  -- Two sets of services that prepare the same state for `score` run alike.
  same_run :
      (svc svc' : Services F) (s : ExtractionState F)
      → before_score svc s ≡ before_score svc' s
      → run_graph svc s ≡ run_graph svc' s
  same_run svc svc' s e =
      run_graph-score svc s
      ∙ run_from-score_alone svc svc' (before_score svc s)
      ∙ ap (λ t. run_from svc' 3 Node.score t) e
      ∙ sym (run_graph-score svc' s)

  extract_node-halted :
      (svc : Services F) (s : ExtractionState F) → halted s ≡ true → extract_node svc s ≡ nothing F
  unfolding extract_node
  extract_node-halted svc s h = ground arith

  guardrail_node-halted :
      (svc : Services F) (s : ExtractionState F)
      → halted s ≡ true
      → guardrail_node svc s ≡ nothing F
  unfolding guardrail_node
  guardrail_node-halted svc s h = ground arith

  -- A run that starts cancelled calls no service at all, and leaves the document cancelled, with
  -- the text and the extraction that it had.
  pub cancelled_calls_nothing :
      (svc svc' : Services F) (s t : ExtractionState F) (n : Node)
      → s.is_cancelled ≡ some true
      → run_graph svc s ≡ ok (n, t)
      → (run_graph svc' s ≡ ok (n, t))
        × (t.status ≡ some DocumentStatus.cancelled)
        × (t.raw_text ≡ s.raw_text)
        × (t.extracted_json ≡ s.extracted_json)
  unfolding run_graph run_from visit follow parse_node guardrail_node extract_node
  cancelled_calls_nothing svc svc' s t n c h = ground arith

  has_block-first : (os : List (GuardrailOutcome F)) → first_block os ≡ none → has_block os ≡ false
  unfolding has_block
  has_block-first [] h = refl
  has_block-first (o ∷ os) h = ground (arith, has_block-first os)

  -- The text that the guardrails see, after `parse`.
  abbrev pub parsed_text : Services F → ExtractionState F → String
  parsed_text svc s = get_or (merge s (parse_node svc s)).raw_text ""

  -- The state in which `extract` is due.
  abbrev before_extract : Services F → ExtractionState F → ExtractionState F
  before_extract svc s = let a = merge s (parse_node svc s) in merge a (guardrail_node svc a)

  halted-guardrail_node :
      (svc : Services F) (a : ExtractionState F)
      → has_block (run_guardrails {F = F} svc.unicode (get_or a.raw_text "")) ≡ true
      → halted (merge a (guardrail_node svc a)) ≡ true
  unfolding guardrail_node
  halted-guardrail_node svc a h =
      ground (arith, has_block-first (run_guardrails {F = F} svc.unicode (get_or a.raw_text "")))

  extract_node-filled :
      (svc : Services F) (s : ExtractionState F)
      → is_filled s.extracted_json ≡ true
      → extract_node svc s ≡ nothing F
  unfolding extract_node
  extract_node-filled svc s h = ground arith

  extracted_json-before_extract :
      (svc : Services F) (s : ExtractionState F)
      → (before_extract svc s).extracted_json ≡ s.extracted_json
  unfolding parse_node guardrail_node
  extracted_json-before_extract svc s = ground arith

  -- Services that differ in the chain alone run alike where `extract` returns nothing.
  same_without_extract :
      (svc : Services F) (chain : ExtractionRequest → Outcome String (LlmExtraction F))
      (s : ExtractionState F)
      → ((svc' : Services F) → extract_node svc' (before_extract svc s) ≡ nothing F)
      → run_graph (record svc { extract = chain }) s ≡ run_graph svc s
  unfolding parse_node guardrail_node
  same_without_extract svc chain s h =
      same_run (record svc { extract = chain }) svc s
        (ap (λ u. merge (before_extract svc s) u)
          (h (record svc { extract = chain }) ∙ sym (h svc)))

  -- A text that a guardrail blocks never reaches the extraction chain: with another chain the run
  -- is the same.
  pub blocked_never_extracts :
      (svc : Services F) (chain : ExtractionRequest → Outcome String (LlmExtraction F))
      (s : ExtractionState F)
      → has_block (run_guardrails {F = F} svc.unicode (parsed_text svc s)) ≡ true
      → run_graph (record svc { extract = chain }) s ≡ run_graph svc s
  blocked_never_extracts svc chain s h = same_without_extract svc chain s (λ svc'.
      extract_node-halted svc' (before_extract svc s)
        (halted-guardrail_node svc (merge s (parse_node svc s)) h))

  -- A state that holds an extraction already, as the checkpoint of a document that is retried does,
  -- is not extracted again: with another chain the run is the same.
  pub filled_never_extracts :
      (svc : Services F) (chain : ExtractionRequest → Outcome String (LlmExtraction F))
      (s : ExtractionState F)
      → is_filled s.extracted_json ≡ true
      → run_graph (record svc { extract = chain }) s ≡ run_graph svc s
  filled_never_extracts svc chain s h = same_without_extract svc chain s (λ svc'.
      extract_node-filled svc' (before_extract svc s) (rw (extracted_json-before_extract svc s) h))
