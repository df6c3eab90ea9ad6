-- ===== src/Graph.antt =====
-- The graph of nodes and endpoints: rmw_connextdds_common/src/common/rmw_graph.cpp.
pub mod Cache
pub mod Endpoints
pub mod Nodes
pub mod Undo
pub mod Pairs
