-- ===== src/Bridge/Tags.antt =====
-- The outer VLAN and the tag protocol of the ports of the bridge.
use basebox.Prelude.{
  ℕ, ◌%◌, ◌^◌, Bool, not, ◌&&◌, ◌||◌, List, [], ◌∷◌, Option, none, some, ℤ, pos, is_neg, einval,
  ltb, ◌==◌, if◌then◌else◌, Method, ◌>>=◌, ◌>>◌, pure, for_each,
}
use basebox.Sai.{Call, SwitchInterface, get_port_type, port_type_lag}
use basebox.Bridge.State.{Kernel, NlBridge, call}
use basebox.Bridge.Run.{Run, ignore, for_all}

-- ETH_P_8021Q and ETH_P_8021AD
abbrev pub eth_p_8021q : ℕ
eth_p_8021q = 0x8100

abbrev pub eth_p_8021ad : ℕ
eth_p_8021ad = 0x88a8

module _ (k : Kernel) where
  open k use {nl, vlan_protocol, vlan_get_protocol}

  -- As uint16_t; none where the file of the bridge holds no number.
  unfoldable pub bridge_proto_of : nl.Link → Option ℕ
  bridge_proto_of bridge = elim (vlan_protocol bridge) [
    | none ↦ none
    | some proto ↦ some (proto % 2 ^ 16)
  ]

  -- `link_proto`, 0 for a link that is not of type "vlan", and 802.1Q where libnl has none.
  unfoldable pub link_proto_of : nl.Link → ℕ
  link_proto_of link =
      if nl.is_vlan link
      then (if vlan_get_protocol link == 0 then eth_p_8021q else vlan_get_protocol link)
      else 0

  unfoldable pub outer_vid_of : nl.Link → ℕ
  outer_vid_of link = if nl.is_vlan link then nl.vlan_get_id link else 0

  -- The members of a bond, or the port itself.
  unfoldable pub ports_of : ℕ → List ℕ
  ports_of port_id =
      if get_port_type port_id == port_type_lag
      then nl.get_bond_members_by_port_id port_id
      else port_id ∷ []

  module _ (swi : SwitchInterface) where
    -- One round of the loop over the ports, begun with the `rv` given.
    unfoldable pub stack_port : ℕ → Bool → ℤ → ℕ → Method (NlBridge nl.Link) ℤ
    stack_port outer_vid is_ad rv port = do
      rv' ←
          if ltb 0 outer_vid
          then call swi (Call.ingress_port_stacked_vlan_enable port outer_vid)
          else pure rv
      if is_neg rv'
          then pure rv'
          else if is_ad
          then call swi (Call.set_egress_tpid port)
          else pure rv'

    unfoldable pub stack_ports : ℕ → Bool → ℤ → List ℕ → Method (NlBridge nl.Link) ℤ
    stack_ports outer_vid is_ad rv [] s = (rv, s)
    stack_ports outer_vid is_ad rv (port ∷ ports) s =
        let r = stack_port outer_vid is_ad rv port s in
        let rest = stack_ports outer_vid is_ad r.0 ports r.1 in if is_neg r.0 then r else rest

    unfoldable pub unstack_port : ℕ → Bool → ℕ → Method (NlBridge nl.Link) (Unit {0})
    unstack_port outer_vid is_ad port = do
      if ltb 0 outer_vid
          then call swi (Call.ingress_port_stacked_vlan_disable port outer_vid)
          else pure (pos 0)
      if is_ad then call swi (Call.delete_egress_tpid port) else pure (pos 0)
      pure tt

    -- Nothing is done for 802.1Q alone; an inner tag of a bridge with 802.1AD is refused.
    unfoldable pub stack_vlans : ℕ → nl.Link → ℕ → Method (NlBridge nl.Link) ℤ
    stack_vlans bridge_proto link port_id =
        let link_proto = link_proto_of link in
        if bridge_proto == eth_p_8021q && (link_proto == 0)
        then pure (pos 0)
        else if bridge_proto == eth_p_8021ad && not (link_proto == 0)
        then pure einval
        else stack_ports (outer_vid_of link)
            (bridge_proto == eth_p_8021ad || (link_proto == eth_p_8021ad)) (pos 0)
            (ports_of port_id)

    -- None where the exception is not caught.
    unfoldable pub set_vlan_proto :
        nl.Link → nl.Link → ℕ → NlBridge nl.Link → Option (ℤ × NlBridge nl.Link)
    set_vlan_proto bridge link port_id s = elim (bridge_proto_of bridge) [
      | none ↦ none
      | some bridge_proto ↦ some (stack_vlans bridge_proto link port_id s)
    ]

    unfoldable pub unstack_vlans : ℕ → nl.Link → ℕ → Method (NlBridge nl.Link) ℤ
    unstack_vlans bridge_proto link port_id =
        let link_proto = link_proto_of link in
        if bridge_proto == eth_p_8021q && (link_proto == 0)
        then pure (pos 0)
        else if bridge_proto == eth_p_8021ad && not (link_proto == 0)
        then pure (pos 0)
        else for_each
            (unstack_port (outer_vid_of link)
              (bridge_proto == eth_p_8021ad || (link_proto == eth_p_8021ad)))
            (ports_of port_id)
          >> pure (pos 0)

    unfoldable pub delete_vlan_proto :
        nl.Link → nl.Link → ℕ → NlBridge nl.Link → Option (ℤ × NlBridge nl.Link)
    delete_vlan_proto bridge link port_id s = elim (bridge_proto_of bridge) [
      | none ↦ none
      | some bridge_proto ↦ some (unstack_vlans bridge_proto link port_id s)
    ]

    -- None where there is no bridge, too.
    unfoldable pub clear_tpid_entries : Run (NlBridge nl.Link)
    clear_tpid_entries s = elim s.bridge [
      | none ↦ none
      | some bridge ↦
          for_all (λ iface. ignore (delete_vlan_proto bridge iface (nl.get_port_id iface)))
            (k.get_bridge_ports (k.get_ifindex bridge)) s
    ]
