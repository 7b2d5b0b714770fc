-- ===== src/L3.antt =====
-- src/netlink/nl_l3.cc: the routing entries of the switch that have several users.
pub mod State
pub mod Termination
pub mod Egress
pub mod Ecmp
pub mod Terminations
pub mod Users
pub mod Ownership
pub mod Histories
pub mod Groups
pub mod Masks
pub mod MaskBits
pub mod Routes
pub mod RoutePairs
mod Tests
