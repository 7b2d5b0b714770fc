-- ===== src/Vlan.antt =====
-- src/netlink/nl_vlan.cc and nl_vlan.h, class nl_vlan: which VLANs stand on which ports, and what
-- the switch is told of them. The children hold the state, the methods by theme, and their laws.
pub mod State
pub mod Ingress
pub mod Port
pub mod Bridge
pub mod Vrf
pub mod Member
pub mod Entries
pub mod Loops
pub mod Rollback
pub mod Frame
pub mod Refcount
pub mod History
pub mod Config
pub mod VrfMap
pub mod MemberPvid
pub mod Enabled
mod Tests
pub mod Fixtures
mod BridgeTests
