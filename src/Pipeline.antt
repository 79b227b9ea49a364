-- ===== src/Pipeline.antt =====
-- app/pipeline: the state, the nodes and the graph, with the services that they call.
pub mod State
pub mod Parsing
pub mod Nodes
pub mod Terminal
pub mod Graph
pub mod Outcomes
pub mod Completion
pub mod Isolation
pub mod Reasons
