-- ===== src/Bridge.antt =====
-- src/netlink/nl_bridge.cc and nl_bridge.h, class nl_bridge: the ports of the bridge with their
-- VLANs, spanning tree states, multicast groups and learned addresses.
pub mod StpStates
pub mod State
pub mod Stp
pub mod StpGroups
pub mod StpHistory
pub mod Mdb
pub mod MdbSets
pub mod MdbDifference
pub mod Bits
pub mod BitLoop
pub mod Bitmaps
pub mod Tags
pub mod Ports
pub mod Fdb
pub mod Run
pub mod AccessPorts
pub mod Vlans
pub mod Interfaces
pub mod Updates
pub mod Keeps
pub mod NeverAborts
pub mod SafeUpdates
pub mod SafeVlans
pub mod SafeLinks
pub mod Learning
pub mod PortsKeep
pub mod SafeInterfaces
mod Tests
