-- ===== src/Pipeline/Graph.antt =====
-- The graph of app/pipeline/graph.py. LangGraph runs one node after another and joins each update
-- to the state; the branch after `route` is chosen by `route_decision`.
use ocr_service.Prelude.{zero, suc, ℕ, String}
use ocr_service.Prelude.Outcome.{Outcome, ok, err}
use ocr_service.Float.{Float}
use ocr_service.Pipeline.State.{ExtractionState, merge}
use ocr_service.Pipeline.Nodes.{Services, parse_node, guardrail_node, extract_node}
use ocr_service.Pipeline.Terminal.{
  Branch, score_node, route_node, route_decision, deliver_node, review_node, dlq_node,
}

-- The nodes, and `END`.
pub data Node : Type 0 where
  parse guardrail extract score route deliver review dlq end : Node

abbrev pub branch_node : Branch → Node
branch_node Branch.deliver = Node.deliver
branch_node Branch.review = Node.review
branch_node Branch.dlq = Node.dlq

-- The longest way from a node to the end.
abbrev pub nodes_left : Node → ℕ
nodes_left Node.parse = 6
nodes_left Node.guardrail = 5
nodes_left Node.extract = 4
nodes_left Node.score = 3
nodes_left Node.route = 2
nodes_left Node.end = 0
nodes_left _ = 1

module _ {F : Type 0} ⦃fl : Float F⦄ where
  -- `add_node`: the update that a node returns.
  unfoldable pub visit : Services F → Node → ExtractionState F → Outcome String (ExtractionState F)
  unfolding parse_node guardrail_node extract_node score_node route_node deliver_node review_node
      dlq_node
  visit svc Node.parse s = ok (parse_node svc s)
  visit svc Node.guardrail s = ok (guardrail_node svc s)
  visit svc Node.extract s = ok (extract_node svc s)
  visit svc Node.score s = score_node s
  visit svc Node.route s = ok (route_node s)
  visit svc Node.deliver s = ok (deliver_node s)
  visit svc Node.review s = ok (review_node s)
  visit svc Node.dlq s = ok (dlq_node s)
  visit svc Node.end s = ok s

  -- `add_edge` and `add_conditional_edges`: the node that follows, on the joined state.
  unfoldable pub follow : Node → ExtractionState F → Node
  unfolding route_decision
  follow Node.parse s = Node.guardrail
  follow Node.guardrail s = Node.extract
  follow Node.extract s = Node.score
  follow Node.score s = Node.route
  follow Node.route s = branch_node (route_decision s)
  follow _ s = Node.end

  -- At most `fuel` nodes from a node on; the state and the node that is due, as checkpointed.
  unfoldable pub run_from :
      Services F → ℕ → Node → ExtractionState F → Outcome String (Node × ExtractionState F)
  run_from svc zero n s = ok (n, s)
  run_from svc (suc fuel) Node.end s = ok (Node.end, s)
  run_from svc (suc fuel) n s = elim (visit svc n s) [
    | ok u ↦ let t = merge s u in run_from svc fuel (follow n t) t
    | err message ↦ err message
  ]

  -- `graph.ainvoke`, from the start.
  unfoldable pub run_graph :
      Services F → ExtractionState F → Outcome String (Node × ExtractionState F)
  unfolding run_from visit follow
  run_graph svc s = run_from svc 6 Node.parse s
