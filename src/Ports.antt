-- ===== src/Ports.antt =====
-- src/netlink/port_manager.h, knet_manager.cc and tap_manager.cc: which network device stands for
-- which port of the switch. A port manager is driven from both sides: the switch creates and
-- destroys ports, the kernel reports devices that are ready or removed.
pub mod State
pub mod Knet
pub mod Tap
pub mod Bijection
pub mod Devices
pub mod Northbound
pub mod Dispatch
mod Tests
