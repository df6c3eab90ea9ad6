-- ===== src/WaitSet.antt =====
-- The wait set, its conditions and its protocol between threads: class RMW_Connext_WaitSet and the
-- classes of conditions, in rmw_connextdds_common/src/common/rmw_impl.cpp and
-- rmw_connextdds_common/include/rmw_connextdds/rmw_impl.hpp.
pub mod Protocol
pub mod Exclusion
pub mod Notices
pub mod Progress
pub mod Events
pub mod Handles
pub mod Conditions
pub mod Attach
pub mod Detached
pub mod Claim
pub mod Built
pub mod Loops
pub mod Attached
pub mod Refresh
pub mod Wait
pub mod WaitLaws
pub mod Outcome
pub mod Reports
