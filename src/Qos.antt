-- ===== src/Qos.antt =====
-- Quality of service: the QoS helpers of rmw_connextdds_common/src/common/rmw_impl.cpp.
pub mod Policies
pub mod Convert
pub mod Laws
pub mod RoundTrip
pub mod Profiles
pub mod Services
pub mod Lookup
