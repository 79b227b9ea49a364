-- ===== src/Pipeline/Outcomes.antt =====
-- What a run of the graph of app/pipeline/graph.py ends with.
use ocr_service.Prelude.{
  true, Option, ap, Bool-cases, String, zero, suc, inr, inl, ◌+◌, ◌∙◌, refl, sym, ℕ, ◌⊎◌, ◌≡◌, ◌≢◌,
  none, some, arith,
}
use ocr_service.Prelude.Outcome.{Outcome, Outcome, err, Outcome-cases, ok}
use native.Mathlib.Nat.{zero-add, suc-add}
use ocr_service.Float.{Float}
use ocr_service.Status.{DocumentStatus}
use ocr_service.Confidence.{high, medium, low}
use ocr_service.Pipeline.State.{merge, ExtractionState}
use ocr_service.Pipeline.Nodes.{is_cancel, extract_node, guardrail_node, parse_node, Services}
use ocr_service.Pipeline.Terminal.{
  Branch, decision_of, score_node, route_decision, route_node, deliver_node, review_node, dlq_node,
}
use ocr_service.Pipeline.Graph.{branch_node, run_graph, Node, visit, follow, run_from}

-- How a run can leave a document: its status, and the decision and the reason that go with it.
abbrev pub Ends : {F : Type 0} → ExtractionState F → Type 0
Ends t =
    ((t.status ≡ some DocumentStatus.completed) × (t.routing_decision ≡ some high))
    ⊎ ((t.status ≡ some DocumentStatus.review) × (t.routing_decision ≡ some medium))
    ⊎ ((t.status ≡ some DocumentStatus.rejected)
        × (t.routing_decision ≡ some low)
        × (t.failure_reason ≢ none))
    ⊎ ((t.status ≡ some DocumentStatus.cancelled) × (t.routing_decision ≡ some low))

abbrev pub Run : Type 0 → Type 0
Run F = Outcome String (Node × ExtractionState F)

or_end : {F : Type 0} → Node × ExtractionState F → Run F → Node × ExtractionState F
or_end d (ok r) = r
or_end d (err message) = d

ok_injective : {F : Type 0} {a b : Node × ExtractionState F} → ◌≡◌ {A = Run F} (ok a) (ok b) → a ≡ b
unfolding or_end
ok_injective {a = a} h = ap (or_end a) h

is_cancel_lem :
    (status : Option DocumentStatus)
    → is_cancel status ≡ true
    → status ≡ some DocumentStatus.cancelled
is_cancel_lem status h = ground arith

Node-discrete : Discrete Node
Node-discrete = hlevel

module _ {F : Type 0} ⦃fl : Float F⦄ where
  -- The state in which `score` is due.
  abbrev pub before_score : Services F → ExtractionState F → ExtractionState F
  before_score svc s =
      let a = merge s (parse_node svc s) in
      let b = merge a (guardrail_node svc a) in merge b (extract_node svc b)

  -- The state in which the branch is taken.
  pub routed : ExtractionState F → ExtractionState F
  routed s = merge s (route_node s)

  -- The state that the last node leaves.
  pub ended : Branch → ExtractionState F → ExtractionState F
  ended Branch.deliver s = merge s (deliver_node s)
  ended Branch.review s = merge s (review_node s)
  ended Branch.dlq s = merge s (dlq_node s)

  pub run_from-branch :
      (svc : Services F) (b : Branch) (s : ExtractionState F)
      → run_from svc 1 (branch_node b) s ≡ ok (Node.end, ended b s)
  unfolding run_from visit follow ended
  run_from-branch svc Branch.deliver s = refl
  run_from-branch svc Branch.review s = refl
  run_from-branch svc Branch.dlq s = refl

  pub run_from-routed :
      (svc : Services F) (s : ExtractionState F)
      → run_from svc 2 Node.route s
        ≡ run_from svc 1 (branch_node (route_decision (routed s))) (routed s)
  unfolding run_from visit follow routed
  run_from-routed svc s = refl

  route_decision-routed : (s : ExtractionState F) → route_decision (routed s) ≡ route_decision s
  unfolding routed route_decision route_node
  route_decision-routed s = refl

  routing_decision-routed :
      (s : ExtractionState F)
      → (routed s).routing_decision ≡ some (decision_of (route_decision (routed s)))
  unfolding routed route_node
  routing_decision-routed s = ap (λ b. some (decision_of b)) (sym (route_decision-routed s))

  dlq-Ends : (s : ExtractionState F) → s.routing_decision ≡ some low → Ends (ended Branch.dlq s)
  unfolding ended dlq_node
  dlq-Ends s h = elim (Bool-cases (is_cancel s.status)) [
    | inl c ↦ inr (inr (inr (rw (dlq_node, c) (is_cancel_lem s.status c, h))))
    | inr c ↦ inr (inr (inl (rw (dlq_node, c) (refl, h, λ e. ground arith))))
  ]

  ended-Ends :
      (b : Branch) (s : ExtractionState F)
      → s.routing_decision ≡ some (decision_of b)
      → Ends (ended b s)
  unfolding ended deliver_node review_node
  ended-Ends Branch.deliver s h = inl (refl, h)
  ended-Ends Branch.review s h = inr (inl (refl, h))
  ended-Ends Branch.dlq s h = dlq-Ends s h

  run_from-route :
      (svc : Services F) (s t : ExtractionState F) (n : Node)
      → run_from svc 2 Node.route s ≡ ok (n, t)
      → (n ≡ Node.end) × Ends t
  run_from-route svc s t n h =
      let e = ok_injective (
        sym (run_from-routed svc s ∙ run_from-branch svc (route_decision (routed s)) (routed s))
        ∙ h) in
      (
        sym (ap (λ p. p.0) e),
        rw (ap (λ p. p.1) e) at
            (ended-Ends (route_decision (routed s)) (routed s) (routing_decision-routed s)),
      )

  pub run_graph-score :
      (svc : Services F) (s : ExtractionState F)
      → run_graph svc s ≡ run_from svc 3 Node.score (before_score svc s)
  unfolding run_graph
  run_graph-score svc s = refl

  pub run_from-score :
      (svc : Services F) (s t : ExtractionState F) (n : Node)
      → run_from svc 3 Node.score s ≡ ok (n, t)
      → (u : ExtractionState F) × (score_node s ≡ ok u)
        × (run_from svc 2 Node.route (merge s u) ≡ ok (n, t))
  unfolding run_from visit follow
  run_from-score svc s t n h = elim (Outcome-cases (score_node s)) [
    | inl (u, e) ↦ (u, e, ground arith)
    | inr (m, e) ↦ absurd (ground arith)
  ]

  -- A run that ends has come to the end of the graph, and has left the document delivered with
  -- HIGH, under review with MEDIUM, rejected with LOW and a reason, or cancelled with LOW; it never
  -- leaves it in the middle or with the status `error`.
  pub run_graph-Ends :
      (svc : Services F) (s t : ExtractionState F) (n : Node)
      → run_graph svc s ≡ ok (n, t)
      → (n ≡ Node.end) × Ends t
  run_graph-Ends svc s t n h =
      let (u, e, k) =
        run_from-score svc (before_score svc s) t n (sym (run_graph-score svc s) ∙ h) in
      run_from-route svc (merge (before_score svc s) u) t n k

  -- A new process goes on from the node and the state of the last checkpoint.
  abbrev pub resume : Services F → ℕ → Run F → Run F
  resume svc b (ok (n, t)) = run_from svc b n t
  resume svc b (err message) = err message

  run_from-end :
      (svc : Services F) (b : ℕ) (s : ExtractionState F)
      → run_from svc b Node.end s ≡ ok (Node.end, s)
  unfolding run_from
  run_from-end svc zero s = refl
  run_from-end svc (suc b) s = refl

  abbrev after_visit :
      Services F → ℕ → Node → ExtractionState F → Outcome String (ExtractionState F) → Run F
  after_visit svc b n s (ok u) = run_from svc b (follow n (merge s u)) (merge s u)
  after_visit svc b n s (err message) = err message

  run_from-suc :
      (svc : Services F) (b : ℕ) (n : Node) (s : ExtractionState F)
      → n ≢ Node.end
      → run_from svc (suc b) n s ≡ after_visit svc b n s (visit svc n s)
  unfolding run_from
  run_from-suc svc b n s h = ground arith

  after_visit-resume :
      (svc : Services F) (a b : ℕ) (n : Node) (s : ExtractionState F)
      (o : Outcome String (ExtractionState F))
      → ((u : ExtractionState F)
          → run_from svc (a + b) (follow n (merge s u)) (merge s u)
            ≡ resume svc b (run_from svc a (follow n (merge s u)) (merge s u)))
      → after_visit svc (a + b) n s o ≡ resume svc b (after_visit svc a n s o)
  after_visit-resume svc a b n s (ok u) ih = ih u
  after_visit-resume svc a b n s (err message) ih = refl

  -- Going on from the checkpoint after any number of nodes gives what the whole run gives.
  pub run_from-resume :
      (svc : Services F) (a b : ℕ) (n : Node) (s : ExtractionState F)
      → run_from svc (a + b) n s ≡ resume svc b (run_from svc a n s)
  run_from-resume svc zero b n s = rw zero-add (unfold run_from in refl)
  run_from-resume svc (suc a) b n s = elim (Node-discrete n Node.end) [
    | yes e ↦ rw e (simp run_from-end)
    | no ne ↦
        rw (suc-add, run_from-suc svc (a + b) n s ne, run_from-suc svc a n s ne)
          (after_visit-resume svc a b n s (visit svc n s)
            (λ u. run_from-resume svc a b (follow n (merge s u)) (merge s u)))
  ]
