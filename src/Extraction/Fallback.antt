-- ===== src/Extraction/Fallback.antt =====
-- The two language models of app/pipeline/extraction.py behind the circuit breaker.
use ocr_service.Prelude.{◌≡◌, ◌≢◌, ◌⊎◌, refl, ◌∙◌, ap, String, none, List, inl, inr, arith}
use ocr_service.Prelude.Outcome.{Outcome, ok, err, Outcome-cases}
use ocr_service.Float.{Float}
use ocr_service.CircuitBreaker
use ocr_service.CircuitBreaker.{CircuitBreaker, State, closed, opened, half_open, state}
use ocr_service.Pipeline.Nodes.{LlmExtraction}
use ocr_service.Extraction.Prompt.{Printer, Retrieval}
use ocr_service.Extraction.Coercion.{OutputField, Pydantic, RawResult, build_output_model, coerce}
use ocr_service.Extraction.Chain.{
  ChatModel, Timing, ExtractionChain, Request, invoke, prompt_of, coerced, extract_fields,
}

-- What a call without an injected model comes to.
pub data Turn {F : Type 0} (chain : ExtractionChain F) (at : Timing)
    (output_model : List OutputField) (prompt : String) (b : CircuitBreaker)
    : Outcome String (RawResult F) × CircuitBreaker → Type 0 where
  refused :
      state at.start b ≡ opened
      → Turn chain at output_model prompt b (chain.fallback output_model prompt, b)
  answered :
      (raw : RawResult F)
      → state at.start b ≢ opened
      → chain.primary output_model prompt ≡ ok raw
      → Turn chain at output_model prompt b (ok raw, CircuitBreaker.record_success (at.others b))
  failed :
      (e : String)
      → state at.start b ≢ opened
      → chain.primary output_model prompt ≡ err e
      → Turn chain at output_model prompt b (
        chain.fallback output_model prompt,
        CircuitBreaker.record_failure at.finish (at.others b),
      )

State-cases : (s : State) → (s ≡ opened) ⊎ ((s ≢ opened) × ((s ≡ closed) ⊎ (s ≡ half_open)))
State-cases opened = inl refl
State-cases closed = inr (ground arith, inl refl)
State-cases half_open = inr (ground arith, inr refl)

module _ {F : Type 0} where
  through :
      (chain : ExtractionChain F) (at : Timing) (output_model : List OutputField) (prompt : String)
      (b : CircuitBreaker)
      → chain.model ≡ none
      → state at.start b ≢ opened
      → (state at.start b ≡ closed) ⊎ (state at.start b ≡ half_open)
      → Turn chain at output_model prompt b (invoke chain at output_model prompt b)
  unfolding invoke CircuitBreaker.call CircuitBreaker.settle
  through chain at output_model prompt b m n c =
      elim (Outcome-cases (chain.primary output_model prompt)) [
        | inl (raw, r) ↦ (elim c [
          | inl s ↦
              rw (invoke, m, CircuitBreaker.call, s, CircuitBreaker.settle, r) (answered raw n r)
          | inr s ↦
              rw (invoke, m, CircuitBreaker.call, s, CircuitBreaker.settle, r) (answered raw n r)
        ])
        | inr (e, r) ↦ (elim c [
          | inl s ↦ rw (invoke, m, CircuitBreaker.call, s, CircuitBreaker.settle, r) (failed e n r)
          | inr s ↦ rw (invoke, m, CircuitBreaker.call, s, CircuitBreaker.settle, r) (failed e n r)
        ])
      ]

  -- A call without an injected model: an open breaker keeps the primary model out, and the fallback
  -- answers; otherwise the answer of the primary model counts and closes the breaker, or its failure
  -- is recorded when it ends and the fallback answers.
  pub invoke-Turn :
      (chain : ExtractionChain F) (at : Timing) (output_model : List OutputField) (prompt : String)
      (b : CircuitBreaker)
      → chain.model ≡ none
      → Turn chain at output_model prompt b (invoke chain at output_model prompt b)
  unfolding invoke CircuitBreaker.call
  invoke-Turn chain at output_model prompt b m = elim (State-cases (state at.start b)) [
    | inl s ↦ rw (invoke, m, CircuitBreaker.call, s) (refused s)
    | inr (n, c) ↦ through chain at output_model prompt b m n c
  ]

module _ {F V : Type 0} ⦃fl : Float F⦄ (py : Pydantic F) (p : Printer) (r : Retrieval V) where
  -- Every answer to the prompt of the request is accepted.
  abbrev pub Accepts : Request → List OutputField → ChatModel F → Type 0
  Accepts q output_model model =
      (raw : RawResult F)
      → model output_model (prompt_of py p r q) ≡ ok raw
      → (e : LlmExtraction F) × (coerce py raw ≡ ok e)

  Turn-accepted :
      (chain : ExtractionChain F) (at : Timing) (q : Request) (b : CircuitBreaker)
      (output_model : List OutputField) (raw : RawResult F)
      (o : Outcome String (RawResult F) × CircuitBreaker)
      → chain.fallback output_model (prompt_of py p r q) ≡ ok raw
      → Accepts q output_model chain.primary
      → Turn chain at output_model (prompt_of py p r q) b o
      → (got : RawResult F) × (o.0 ≡ ok got)
        × ((got ≡ raw) ⊎ (chain.primary output_model (prompt_of py p r q) ≡ ok got))
  Turn-accepted chain at q b output_model raw o f first (refused s) = (raw, f, inl refl)
  Turn-accepted chain at q b output_model raw o f first (answered got n h) = (got, refl, inr h)
  Turn-accepted chain at q b output_model raw o f first (failed e n h) = (raw, f, inl refl)

  coerced-ok :
      (o : Outcome String (RawResult F) × CircuitBreaker) (raw : RawResult F) (e : LlmExtraction F)
      → o.0 ≡ ok raw
      → coerce py raw ≡ ok e
      → (coerced py o).0 ≡ ok e
  coerced-ok (err message, b) raw e h c = absurd (ground arith)
  coerced-ok (ok got, b) raw e h c = ap (λ g. coerce py g) (got_raw h) ∙ c
    where
      got_raw : ◌≡◌ {A = Outcome String (RawResult F)} (ok got) (ok raw) → got ≡ raw
      got_raw i = ground arith

  -- Where the fallback model answers, and the answers of both models are accepted, the extraction
  -- succeeds, whatever the primary model, the breaker, the embedder and the vector store do.
  pub extract_fields_available :
      (chain : ExtractionChain F) (at : Timing) (q : Request) (b : CircuitBreaker)
      (output_model : List OutputField) (raw : RawResult F)
      → chain.model ≡ none
      → build_output_model py q.json_schema ≡ ok output_model
      → chain.fallback output_model (prompt_of py p r q) ≡ ok raw
      → Accepts q output_model chain.primary
      → Accepts q output_model chain.fallback
      → (e : LlmExtraction F) × ((extract_fields py p r chain at q b).0 ≡ ok e)
  unfolding extract_fields
  extract_fields_available chain at q b output_model raw m i f first second =
      let o = invoke chain at output_model (prompt_of py p r q) b in
      let (got, h, from) =
        Turn-accepted chain at q b output_model raw o f first
          (invoke-Turn chain at output_model (prompt_of py p r q) b m) in
      let (e, c) = accepted from in (e, rw (extract_fields, i) (coerced-ok o got e h c))
    where
      accepted :
          {got : RawResult F}
          → (got ≡ raw) ⊎ (chain.primary output_model (prompt_of py p r q) ≡ ok got)
          → (e : LlmExtraction F) × (coerce py got ≡ ok e)
      accepted (inl s) = rw s (second raw f)
      accepted (inr s) = first _ s
