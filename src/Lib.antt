-- ===== src/Lib.antt =====
-- basebox: the part of the switch control daemon that turns Linux network objects into calls of a
-- switch.
--
-- The daemon listens to netlink. `cnetlink` dispatches every change of a link, address, neighbour
-- or route to the component that it concerns; each component keeps maps of its own and calls the
-- switch through the abstract class `switch_interface` (src/sai.h). The modules are:
--
--   Prelude   maps, sets, integers with a sign, methods as state passing, and bit lemmas
--   Sai       the port ids of src/sai.h, the calls of a switch, and switches
--   Vlan      src/netlink/nl_vlan.cc: VLANs of ports, counted by users, VLANs of bridge ports,
--             PVIDs, VRFs, and the ports of bonds
--   Bond      src/netlink/nl_bond.cc: LAGs and their members, and the port lookup of
--             src/netlink/cnetlink.cc that builds on them
--   Ports     src/netlink/port_manager.h, knet_manager.cc and tap_manager.cc: the ports of the
--             switch as network devices; src/netlink/nbi_impl.cc, which passes on what the switch
--             tells of its ports
--   Bridge    src/netlink/nl_bridge.cc and nl_bridge.h: the ports of the bridge with their VLANs,
--             spanning tree states, multicast groups and learned addresses; it calls the methods of
--             nl_vlan in Vlan, and lists what it asks of nl_vxlan, where the arguments pass the
--             assertions there
--   Vxlan     src/netlink/nl_vxlan.cc and nl_vxlan.h: VNIs and their tenants, access ports, next hops
--             and endpoints of tunnels with their users, and the addresses behind them; it lists
--             what it asks of nl_l3 and nl_bridge
--   L3        src/netlink/nl_l3.cc: termination addresses, egress interfaces and groups of next hops,
--             with their users, and hosts and routes; the masks of src/utils/rofl-utils.h
--
-- In each of them State (or the module itself) has the class's fields as a record, and the other
-- modules have one function per method, named as in the source, with its guards and early returns
-- in the source's order. Modules whose names say what they prove follow, and the Tests.
--
-- How the code is rendered. A method takes the object's state and returns its result with the state
-- after it. A switch answers each call with a number that may depend on every call before; the
-- object's log lists the calls with their answers, the newest first, and what stands on the switch
-- is read off the log, where a call that the switch refused changes nothing. A negative errno value
-- is an integer with a sign. std::map is an association list with emplace, which keeps an
-- entry, and insert_or_assign, which does not; std::set is a list without repetition, in order where
-- the source goes through it. The result `none` of a method
-- stands for LOG(FATAL), a failed assertion or undefined behaviour, such as the overflow of a counter
-- of type int. Counters of type uint32_t wrap at 2 ^ 32, which is written out. Counts of type
-- int that are only compared with 0, those of nl_vxlan, are kept modulo 2 ^ 32 too. Loops are over
-- finite lists, and use no fuel, but for two: the loop over the bits of a word in Bridge has 32
-- rounds, one for each bit, and is none where these do not suffice; the loop in Vxlan that tries to
-- make an access port has the 50 rounds of the source.
--
-- What libnl, the kernel and the other components say is a record of functions that the methods
-- take (Cnetlink, Links, Kernel, Network): nothing is assumed of them but what a theorem states.
-- Left out are logging, locks, the reference counts of libnl objects, packets, the OpenFlow side of
-- the switch interface, and the components that this library does not name. The parts that a build
-- may leave out (HAVE_NETLINK_ROUTE_BRIDGE_VLAN_H, HAVE_NETLINK_ROUTE_MDB_H) are in.
pub mod Prelude
pub mod Sai
pub mod Vlan
pub mod Bond
pub mod Ports
pub mod Bridge
pub mod L3
pub mod Vxlan
