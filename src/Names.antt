-- ===== src/Names.antt =====
-- Text as std::string has it, and the names that the program gives to DDS topics and types.
pub mod Text
pub mod Demangle
pub mod Mangle
pub mod Search
pub mod RoundTrip
pub mod Types
