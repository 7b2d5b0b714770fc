-- ===== src/Bridge/State.antt =====
-- The fields of class nl_bridge, and what it asks of cnetlink, libnl and nl_vxlan.
use basebox.Prelude.{ℕ, Bool, List, ◌∷◌, Option, ℤ, Map, Method}
use basebox.Sai.{Call, SwitchInterface}
use basebox.Vlan.State.{Cnetlink, NlVlan}
use basebox.Bridge.StpStates.{BridgeStpStates}

-- rtnl_link_bridge_vlan: the PVID, and bitmaps of 128 words of 32 bits.
pub record BridgeVlan : Type 0 where
  pub pvid : ℕ
  pub vlan_bitmap : List ℕ
  pub untagged_bitmap : List ℕ

-- A forwarding entry of the kernel. `vlan` is none where libnl returns -1; an address is a number.
pub record Neigh : Type 0 where
  pub ifindex : ℕ
  pub master : ℕ
  pub vlan : Option ℕ
  pub lladdr : ℕ
  pub state : ℕ
  pub flags : ℕ

-- A link is that of `nl`; the kernel has it in two families, by the same index.
pub record Kernel : Type 1 where
  pub nl : Cnetlink
  pub get_ifindex : nl.Link → ℕ
  pub get_master : nl.Link → ℕ
  -- `get_link(ifindex, AF_UNSPEC)` and `get_link(ifindex, AF_BRIDGE)`
  pub base_link : ℕ → Option nl.Link
  pub bridge_link : ℕ → Option nl.Link
  pub get_port_id_of_ifindex : ℕ → ℕ
  -- `rtnl_link_bridge_get_port_state` (a state is below 256), `flags & RTNL_BRIDGE_LOCKED`, and the VLANs of a port
  pub port_state : nl.Link → ℕ
  pub is_locked : nl.Link → Bool
  pub port_vlan : nl.Link → Option BridgeVlan
  -- The files /sys/class/net/…/bridge/vlan_protocol and vlan_filtering, as uint32_t; none where
  -- std::stoi throws.
  pub vlan_protocol : nl.Link → Option ℕ
  pub vlan_filtering : nl.Link → Option ℕ
  -- The protocol of a VLAN link in host order.
  pub vlan_get_protocol : nl.Link → ℕ
  pub ageing_time : nl.Link → Option ℕ
  pub get_addr : nl.Link → ℕ
  pub is_vxlan : nl.Link → Bool
  pub is_bond_slave : nl.Link → Bool
  -- The ports of a bridge, by the index of the bridge.
  pub get_bridge_ports : ℕ → List nl.Link
  -- The state that the bridge VLAN cache has for a port and a VLAN.
  pub bvlan_state : ℕ → ℕ → Option ℕ
  -- `get_fdb_entries_of_port`: the entries of a port in a VLAN.
  pub fdb_entries : nl.Link → ℕ → List Neigh
  -- `vxlan->get_tunnel_id`, none if that fails.
  pub get_tunnel_id : nl.Link → Option ℕ
  -- What the kernel answers to the request to add or to delete an entry.
  pub send_add_request : Neigh → ℤ
  pub send_delete_request : Neigh → ℤ
  -- libnl: whether two entries have the same key, whether an entry passes a filter by interface,
  -- master and VLAN, and whether a cache takes an entry.
  pub same_key : Neigh → Neigh → Bool
  pub passes : ℕ → ℕ → ℕ → Neigh → Bool
  pub cache_add : Neigh → ℤ

-- What nl_bridge asks nl_vxlan to do; which of the two links there are, it takes as it comes.
pub data VxlanCall (L : Type 0) : Type 0 where
  create_access_port : L → ℕ → ℕ → ℕ → Bool → VxlanCall L
  delete_access_port : L → ℕ → ℕ → VxlanCall L
  add_l2_neigh : Neigh → Option L → L → VxlanCall L

-- `bridge` is none for the null pointer. The log of calls is that of `vlan`; the calls of nl_vxlan, and
-- the interfaces and VLANs of which the kernel was asked to flush the entries, are listed newest first.
pub record NlBridge (L : Type 0) : Type 0 where
  pub bridge : Option L
  pub stp : BridgeStpStates
  pub vxlan_dom_bitmap : List ℕ
  pub vxlan_domain : Map ℕ ℕ
  pub l2_cache : List Neigh
  pub vlan : NlVlan
  pub vxlan_calls : List (VxlanCall L)
  pub flushed : List (ℕ × ℕ)

-- `sw->c`
abbrev pub call : {L : Type 0} → SwitchInterface → Call → Method (NlBridge L) ℤ
call swi c s =
    let rv = swi.answer s.vlan.log c in
    (rv, record s { vlan = record s.vlan { log = (c, rv) ∷ s.vlan.log } })

-- A method of nl_vlan.
abbrev pub on_vlan : {L A : Type 0} → Method NlVlan A → Method (NlBridge L) A
on_vlan m s = let (a, v) = m s.vlan in (a, record s { vlan = v })

-- A method of the spanning tree states.
abbrev pub on_stp : {L A : Type 0} → Method BridgeStpStates A → Method (NlBridge L) A
on_stp m s = let (a, t) = m s.stp in (a, record s { stp = t })
