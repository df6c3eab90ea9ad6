-- ===== src/Context.antt =====
-- The context of a process: rmw_connextdds_common/src/common/rmw_context.cpp.
pub mod State
pub mod Nodes
pub mod Lifecycle
pub mod Startup
pub mod Lifetime
pub mod Topics
