-- ===== src/Vxlan.antt =====
-- src/netlink/nl_vxlan.h and nl_vxlan.cc: VXLAN tunnels on the switch.
pub mod Action
pub mod State
pub mod NextHops
pub mod Vnis
pub mod AccessPorts
pub mod Endpoints
pub mod Neighs
pub mod Messages
pub mod Yields
pub mod Counts
pub mod Consistent
pub mod Steady
pub mod NextHopsKeep
pub mod PortsKeep
pub mod EndpointsKeep
pub mod NeighsKeep
pub mod History
pub mod EndpointCalls
pub mod Progress
mod Tests
pub mod EndpointErrors
pub mod AccessPortPairs
pub mod Tenants
pub mod NextHopPairs
