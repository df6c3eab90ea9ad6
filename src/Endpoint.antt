-- ===== src/Endpoint.antt =====
-- Publishers and subscribers: identities, loans, and the request and reply protocol on them.
pub mod Identity
pub mod Sample
pub mod Loan
pub mod Queue
pub mod Delivered
pub mod Take
pub mod Exchange
pub mod Correlation
pub mod Ready
