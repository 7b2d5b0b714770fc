-- ===== src/Bridge/AccessPorts.antt =====
-- The bridge ports of a VLAN that becomes, or stops being, that of a tunnel.
use basebox.Prelude.{
  ℕ, Bool, true, false, not, ◌&&◌, List, ◌∷◌, Option, none, some, ℤ, pos, einval, find, emplace,
  nat_key, ◌==◌, if◌then◌else◌, Method, ◌>>◌, pure, for_each,
}
use basebox.Sai.{Call, SwitchInterface}
use basebox.Vlan.Bridge.{add_bridge_vlan}
use basebox.Bridge.State.{Neigh, Kernel, NlBridge, VxlanCall, call, on_vlan}
use basebox.Bridge.Bits.{is_vid_set}
use basebox.Bridge.Fdb.{add_neigh_to_fdb}
use basebox.Bridge.Run.{Run, ◌>=>◌, run, done, for_all}

-- What the assertions on the arguments let pass: a port and a VLAN that are not 0, and a link.
unfoldable pub is_accepted : {L : Type 0} → VxlanCall L → Bool
is_accepted (VxlanCall.create_access_port link tunnel_id pport_no vid untagged) =
    not (pport_no == 0) && not (vid == 0)
is_accepted (VxlanCall.delete_access_port link pport_no vid) = true
is_accepted (VxlanCall.add_l2_neigh n none br_link) = false
is_accepted (VxlanCall.add_l2_neigh n (some link) br_link) = true

-- What is asked of nl_vxlan, none where an assertion on the arguments aborts.
unfoldable pub ask_vxlan : {L : Type 0} → VxlanCall L → Run (NlBridge L)
ask_vxlan c s = if is_accepted c then some (record s { vxlan_calls = c ∷ s.vxlan_calls }) else none

module _ (k : Kernel) (swi : SwitchInterface) (bridge : k.nl.Link) where
  open k use {nl, get_ifindex, get_master, base_link, get_port_id_of_ifindex, get_addr, port_vlan}

  -- The address of the bridge itself is passed over.
  unfoldable pub for_neighs :
      (Neigh → Method (NlBridge nl.Link) (Unit {0}))
      → List Neigh
      → Method (NlBridge nl.Link) (Unit {0})
  for_neighs body = for_each (λ n. if get_addr bridge == n.lladdr then pure tt else body n)

  unfoldable pub make_access_port : nl.Link → nl.Link → ℕ → ℕ → ℕ → Bool → Run (NlBridge nl.Link)
  make_access_port br_link br_port vid tunnel_id pport_no untagged =
      run (call swi (Call.l2_addr_remove_all_in_vlan pport_no vid))
      >=> run (call swi (Call.l2_multicast_group_leave_all_in_vlan pport_no vid))
      >=> ask_vxlan (VxlanCall.create_access_port br_port tunnel_id pport_no vid untagged)
      >=> for_all
          (λ n.
            if get_addr bridge == n.lladdr
            then done
            else ask_vxlan (VxlanCall.add_l2_neigh n (base_link (get_ifindex br_port)) br_link))
          (k.fdb_entries br_port vid)

  -- The port is in the VLAN of the bridge again.
  unfoldable pub rejoin_bridge : nl.Link → ℕ → ℕ → ℕ → Bool → Method (NlBridge nl.Link) ℤ
  rejoin_bridge br_port vid pvid pport_no untagged = do
    on_vlan (add_bridge_vlan nl swi br_port vid (pvid == vid) (not untagged))
    for_neighs (λ n. add_neigh_to_fdb k swi n false) (k.fdb_entries br_port vid)
    call swi (Call.l2_multicast_group_rejoin_all_in_vlan pport_no vid)

  unfoldable pub make_bridge_port : nl.Link → ℕ → ℕ → ℕ → Bool → Run (NlBridge nl.Link)
  make_bridge_port br_port vid pvid pport_no untagged =
      ask_vxlan (VxlanCall.delete_access_port br_port pport_no vid)
      >=> run (rejoin_bridge br_port vid pvid pport_no untagged)

  -- The tunnel itself, a port that is not in the VLAN, and one that is unknown, are passed over.
  unfoldable pub update_access_port :
      nl.Link → nl.Link → ℕ → ℕ → Bool → nl.Link → Run (NlBridge nl.Link)
  update_access_port vxlan_link br_link vid tunnel_id to_add br_port =
      let pport_no = get_port_id_of_ifindex (get_ifindex br_port) in
      if get_ifindex vxlan_link == get_ifindex br_port then done else elim (port_vlan br_port) [
        | none ↦ done
        | some vlans ↦ elim (is_vid_set vid vlans.vlan_bitmap) [
          | none ↦ λ s. none
          | some is_member ↦
              if not is_member then done else elim (is_vid_set vid vlans.untagged_bitmap) [
                | none ↦ λ s. none
                | some untagged ↦
                    if pport_no == 0
                    then done
                    else if to_add
                    then make_access_port br_link br_port vid tunnel_id pport_no untagged
                    else make_bridge_port br_port vid vlans.pvid pport_no untagged
              ]
        ]
      ]

  unfoldable pub update_access_ports :
      nl.Link → nl.Link → ℕ → ℕ → Bool → List nl.Link → Run (NlBridge nl.Link)
  update_access_ports vxlan_link br_link vid tunnel_id to_add =
      for_all (update_access_port vxlan_link br_link vid tunnel_id to_add)

  -- The overload that nl_vxlan calls, for the PVID of the port; none where the source reads a null
  -- pointer. A VLAN that has a tunnel is left as it is.
  unfoldable pub update_access_ports_of_pvid :
      Option nl.Link → Option nl.Link → ℕ → Bool → NlBridge nl.Link → Option (ℤ × NlBridge nl.Link)
  update_access_ports_of_pvid none br_link tunnel_id to_add s = some (einval, s)
  update_access_ports_of_pvid (some vxlan_link) none tunnel_id to_add s = some (einval, s)
  update_access_ports_of_pvid (some vxlan_link) (some br_link) tunnel_id to_add s =
      elim (port_vlan br_link) [
        | none ↦ none
        | some vlans ↦ elim (find vlans.pvid s.vxlan_domain) [
          | some _ ↦ some (pos 0, s)
          | none ↦
              elim (update_access_ports vxlan_link br_link vlans.pvid tunnel_id to_add
                (k.get_bridge_ports (get_master br_link)) s) [
                  | none ↦ none
                  | some t ↦ some (
                    pos 0,
                    record t { vxlan_domain = emplace vlans.pvid tunnel_id t.vxlan_domain },
                  )
                ]
        ]
      ]
