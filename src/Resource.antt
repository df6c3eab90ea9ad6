-- ===== src/Resource.antt =====
-- What publishers, subscribers, clients and services hold of DDS and of the heap, from their
-- creation to their end.
pub mod Types
pub mod Publisher
pub mod Subscriber
pub mod Service
pub mod Registry
pub mod Made
pub mod Balance
pub mod Failure
pub mod Filter
pub mod Counts
pub mod Abandoned
