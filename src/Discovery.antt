-- ===== src/Discovery.antt =====
-- What is learned from the other participants: the samples of discovery and the thread that reads
-- them.
pub mod Samples
pub mod Thread
pub mod Delivery
pub mod Ending
pub mod Setup
pub mod Down
pub mod Teardown
pub mod Presence
