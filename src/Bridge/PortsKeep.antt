-- ===== src/Bridge/PortsKeep.antt =====
-- What is done for the ports themselves leaves the tunnels of the VLANs as they are.
use basebox.Prelude.{ℕ, ◌≡◌, ◌∙◌, refl, Bool, List, [], ◌∷◌, ℤ, pos, ◌==◌, ◌||◌, arith}
use basebox.Sai.{SwitchInterface}
use basebox.Bridge.State.{Kernel, NlBridge}
use basebox.Bridge.StpStates.{add_global_state, get_min_states}
use basebox.Bridge.Stp.{set_port_vlan_stp_state, set_port_vlan_stp_states, set_port_stp_state}
use basebox.Bridge.Tags.{
  eth_p_8021ad, link_proto_of, outer_vid_of, ports_of, stack_port, stack_ports, unstack_port,
  stack_vlans, unstack_vlans,
}
use basebox.Bridge.Ports.{lock_port, set_port_locked}
use basebox.Bridge.Keeps.{tunnels, for_each-tunnels, set_port_vlan_stp_state-tunnels}

module _ (k : Kernel) (swi : SwitchInterface) where
  open k use {nl}

  pub set_port_stp_state-tunnels :
      (port_id state : ℕ) (s : NlBridge nl.Link)
      → tunnels (set_port_stp_state k swi port_id state s).1 ≡ tunnels s
  unfolding set_port_stp_state set_port_vlan_stp_states tunnels
  set_port_stp_state-tunnels port_id state s =
      let entered : NlBridge nl.Link = record s { stp = add_global_state port_id state s.stp } in
      set_port_vlan_stp_state-tunnels k swi port_id 0 state _
      ∙ for_each-tunnels (λ e. set_port_vlan_stp_state k swi port_id e.0 e.1)
          (λ e t. set_port_vlan_stp_state-tunnels k swi port_id e.0 e.1 t)
          (get_min_states port_id entered.stp) entered

  pub set_port_locked-tunnels :
      (link : nl.Link) (locked : Bool) (s : NlBridge nl.Link)
      → tunnels (set_port_locked k swi link locked s).1 ≡ tunnels s
  unfolding set_port_locked lock_port tunnels
  set_port_locked-tunnels link locked s =
      let told =
        for_each-tunnels (lock_port k swi locked) (λ port t. ground arith)
          (ports_of k (nl.get_port_id link)) s in
      ground (arith, told)

  stack_ports-tunnels :
      (outer_vid : ℕ) (is_ad : Bool) (rv : ℤ) (ports : List ℕ) (s : NlBridge nl.Link)
      → tunnels (stack_ports k swi outer_vid is_ad rv ports s).1 ≡ tunnels s
  unfolding stack_ports stack_port tunnels
  stack_ports-tunnels outer_vid is_ad rv [] s = refl
  stack_ports-tunnels outer_vid is_ad rv (port ∷ ports) s =
      let r = stack_port k swi outer_vid is_ad rv port s in
      ground (arith, stack_ports-tunnels outer_vid is_ad r.0 ports r.1)

  pub stack_vlans-tunnels :
      (bridge_proto : ℕ) (link : nl.Link) (port_id : ℕ) (s : NlBridge nl.Link)
      → tunnels (stack_vlans k swi bridge_proto link port_id s).1 ≡ tunnels s
  unfolding stack_vlans tunnels
  stack_vlans-tunnels bridge_proto link port_id s = ground (
    arith,
    stack_ports-tunnels (outer_vid_of k link)
        (bridge_proto == eth_p_8021ad || (link_proto_of k link == eth_p_8021ad)) (pos 0)
        (ports_of k port_id) s,
  )

  pub unstack_vlans-tunnels :
      (bridge_proto : ℕ) (link : nl.Link) (port_id : ℕ) (s : NlBridge nl.Link)
      → tunnels (unstack_vlans k swi bridge_proto link port_id s).1 ≡ tunnels s
  unfolding unstack_vlans unstack_port tunnels
  unstack_vlans-tunnels bridge_proto link port_id s =
      let is_ad = bridge_proto == eth_p_8021ad || (link_proto_of k link == eth_p_8021ad) in
      ground (
        arith,
        for_each-tunnels (unstack_port k swi (outer_vid_of k link) is_ad) (λ port t. ground arith)
            (ports_of k port_id) s,
      )
