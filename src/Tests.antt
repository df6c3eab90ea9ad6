-- ===== src/Tests.antt =====
-- The theorems of the library at concrete inputs.
pub mod Names
pub mod Qos
pub mod Endpoint
pub mod Graph
pub mod Context
pub mod WaitSet
pub mod Resource
pub mod Discovery
