-- ===== src/Vlan/Member.antt =====
-- A port that joins or leaves a bond takes over or gives up the VLANs of the bond.
use basebox.Prelude.{
  ℕ, Bool, not, ◌&&◌, none, some, ℤ, pos, einval, find, nat_key, ltb, ◌==◌, if◌then◌else◌, Method,
  ◌>>=◌, ◌>>◌, pure, gets, for_each,
}
use basebox.Sai.{Call, SwitchInterface}
use basebox.Vlan.State.{Cnetlink, NlVlan, call, get_vrf_id}
use basebox.Vlan.Port.{vids_of_port, enable_vlan, disable_vlan}

-- The PVID of a port, 0 for none.
unfoldable pub pvid_of : ℕ → NlVlan → ℕ
pvid_of port_id s = elim (find port_id s.port_pvid) [ none ↦ 0 | some pvid ↦ pvid ]

module _ (nl : Cnetlink) (swi : SwitchInterface) where
  open nl use {Link, get_port_id, has_master, is_bridge_port, port_untagged_vid}

  -- The second ingress call passes the number `pvid` for a bool.
  unfoldable pub attach_bridge_vlan : ℕ → ℕ → ℕ × (ℕ × Bool) → Method NlVlan ℤ
  attach_bridge_vlan port_id pvid (vid, (outer_vid, tagged)) = do
    vrf_id ← gets (get_vrf_id vid)
    call swi (Call.egress_bridge_port_vlan_add port_id vid (not tagged))
    call swi (Call.ingress_port_vlan_add port_id vid (vid == pvid) vrf_id)
    if ltb 0 outer_vid
        then (do
          call swi (Call.egress_port_push_vlan_add port_id vid outer_vid)
          call swi (Call.ingress_port_pop_vlan_add port_id outer_vid vid vrf_id))
        else call swi (Call.ingress_port_vlan_add port_id vid (not (pvid == 0)) vrf_id)

  unfoldable pub detach_bridge_vlan : ℕ → ℕ → ℕ × (ℕ × Bool) → Method NlVlan ℤ
  detach_bridge_vlan port_id pvid (vid, (outer_vid, tagged)) = do
    vrf_id ← gets (get_vrf_id vid)
    call swi (Call.egress_bridge_port_vlan_remove port_id vid)
    if ltb 0 outer_vid
        then (do
          call swi (Call.ingress_port_pop_vlan_remove port_id outer_vid vid vrf_id)
          call swi (Call.egress_port_push_vlan_remove port_id vid outer_vid))
        else call swi (Call.ingress_port_vlan_remove port_id vid (not (pvid == 0)) vrf_id)

  -- `body` for each VLAN that the bond has as a bridge port, with the PVID of the bond.
  unfoldable pub for_bridge_vlans : (ℕ → ℕ × (ℕ × Bool) → Method NlVlan ℤ) → ℕ → Method NlVlan ℤ
  for_bridge_vlans body bond_id s = elim (find bond_id s.bridge_vlan) [
    | none ↦ (pos 0, s)
    | some vlans ↦ (for_each (body (pvid_of bond_id s)) vlans >> pure (pos 0)) s
  ]

  unfoldable pub bond_member_attached : Link → Link → Method NlVlan ℤ
  bond_member_attached bond member =
      let bond_id = get_port_id bond in
      let port_id = get_port_id member in
      if bond_id == 0
      then pure einval
      else if port_id == 0
      then pure einval
      else if has_master bond && is_bridge_port bond
      then for_bridge_vlans (attach_bridge_vlan port_id) bond_id
      else do
        vids ← gets (λ s. vids_of_port bond_id s.port_vlan)
        for_each
            (λ vid s.
              enable_vlan nl swi port_id vid (not (vid == port_untagged_vid)) (get_vrf_id vid s) s)
            vids
        pure (pos 0)

  unfoldable pub bond_member_detached : Link → Link → Method NlVlan ℤ
  bond_member_detached bond member =
      let bond_id = get_port_id bond in
      let port_id = get_port_id member in
      if bond_id == 0
      then pure einval
      else if port_id == 0
      then pure einval
      else if has_master bond && is_bridge_port bond
      then for_bridge_vlans (detach_bridge_vlan port_id) bond_id
      else do
        vids ← gets (λ s. vids_of_port bond_id s.port_vlan)
        for_each
            (λ vid s.
              disable_vlan nl swi port_id vid (not (vid == port_untagged_vid)) (get_vrf_id vid s) s)
            vids
        pure (pos 0)
