-- ===== src/Bridge/Updates.antt =====
-- update_vlans: which VLANs are compared, and the PVID before and after.
use basebox.Prelude.{
  ℕ, ◌-◌, ◌^◌, Bool, true, false, not, ◌&&◌, [], Option, none, some, is_neg, nat_key, ◌==◌,
  if◌then◌else◌,
}
use basebox.Sai.{SwitchInterface}
use basebox.Vlan.State.{is_vid_valid}
use basebox.Vlan.Ingress.{add_ingress_pvid, remove_ingress_pvid}
use basebox.Bridge.State.{BridgeVlan, Kernel, NlBridge, on_vlan}
use basebox.Bridge.Bits.{bitmap_len}
use basebox.Bridge.Run.{Run, ◌>=>◌, run, done, for_all}
use basebox.Bridge.Vlans.{indices, empty_br_vlan, br_vlan_equal, Change, word_at}

unfoldable pub pvid_changed : BridgeVlan → BridgeVlan → ℕ → Bool
pvid_changed old new pvid = not (new.pvid == old.pvid) && is_vid_valid pvid

unfoldable pub or_empty : Option BridgeVlan → BridgeVlan
unfolding empty_br_vlan
or_empty none = empty_br_vlan
or_empty (some vlans) = vlans

module _ (k : Kernel) (swi : SwitchInterface) (bridge : k.nl.Link) where
  open k use {nl, get_ifindex, get_master}

  unfoldable pub change_words : Change nl.Link → BridgeVlan → BridgeVlan → Run (NlBridge nl.Link)
  change_words c old new =
      for_all (word_at k swi bridge c old new) (indices bitmap_len 0)
      >=> (if pvid_changed old new new.pvid
          then run (on_vlan (add_ingress_pvid nl swi c.link new.pvid))
          else done)

  -- The loops are left out where the old PVID cannot be removed.
  unfoldable pub change_vlans : Change nl.Link → BridgeVlan → BridgeVlan → Run (NlBridge nl.Link)
  change_vlans c old new s =
      if pvid_changed old new old.pvid
      then (let (rv, t) = on_vlan (remove_ingress_pvid nl swi c.link old.pvid) s in
          if is_neg rv then some t else change_words c old new t)
      else change_words c old new s

  -- A tunnel link without a known id has the id -1.
  unfoldable pub compare_vlans :
      nl.Link → nl.Link → Bool → Bool → BridgeVlan → BridgeVlan → Run (NlBridge nl.Link)
  compare_vlans link br_link is_added is_removed old new =
      if br_vlan_equal old new
      then done
      else if k.is_vxlan link
      then change_vlans
          (record {
            link = link;
            br_link = br_link;
            is_added = is_added;
            is_removed = is_removed;
            pport_no = 0;
            tunnel_id = elim (k.get_tunnel_id link) [ none ↦ 2 ^ 32 - 1 | some id ↦ id ];
            bridge_ports = k.get_bridge_ports (get_master link);
          })
          old new
      else if nl.get_port_id link == 0
      then done
      else change_vlans
          (record {
            link = link;
            br_link = br_link;
            is_added = is_added;
            is_removed = is_removed;
            pport_no = nl.get_port_id link;
            tunnel_id = 2 ^ 32 - 1;
            bridge_ports = [];
          })
          old new

  -- A member of a bond takes the VLANs of the bond; none where the bond is no bridge port.
  unfoldable pub update_link :
      nl.Link → Bool → Bool → Option BridgeVlan → Option BridgeVlan → Run (NlBridge nl.Link)
  update_link br_link is_added is_removed old new = elim (k.base_link (get_ifindex br_link)) [
    | none ↦ done
    | some link ↦
        if k.is_bond_slave link
        then elim (k.bridge_link (get_master link)) [
          | none ↦ λ s. none
          | some l ↦
              compare_vlans link br_link is_added is_removed (or_empty none)
                (or_empty (k.port_vlan l))
        ]
        else compare_vlans link br_link is_added is_removed (or_empty old) (or_empty new)
  ]

  -- The empty VLANs stand for those of no link; none without a link.
  unfoldable pub update_vlans : Option nl.Link → Option nl.Link → Run (NlBridge nl.Link)
  update_vlans none none s = none
  update_vlans none (some new_link) s =
      update_link new_link true false none (k.port_vlan new_link) s
  update_vlans (some old_link) none s =
      update_link old_link false true (k.port_vlan old_link) none s
  update_vlans (some old_link) (some new_link) s =
      update_link new_link false false (k.port_vlan old_link) (k.port_vlan new_link) s
