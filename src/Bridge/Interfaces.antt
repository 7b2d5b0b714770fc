-- ===== src/Bridge/Interfaces.antt =====
-- The bridge, and the links that become, are and stop being its ports.
use basebox.Prelude.{ℕ, Option, false, not, ◌&&◌, ◌||◌, none, some, ltb, ◌==◌, if◌then◌else◌}
use basebox.Sai.{SwitchInterface}
use basebox.Bridge.StpStates.{br_state_forwarding}
use basebox.Bridge.State.{Kernel, NlBridge}
use basebox.Bridge.Stp.{set_port_stp_state}
use basebox.Bridge.Tags.{set_vlan_proto, delete_vlan_proto}
use basebox.Bridge.Ports.{set_port_locked}
use basebox.Bridge.Fdb.{port_of, set_ageing_time}
use basebox.Bridge.Run.{Run, ◌>=>◌, run, ignore, done}
use basebox.Bridge.Updates.{update_vlans}

module _ (k : Kernel) (swi : SwitchInterface) where
  open k use {nl, get_ifindex, get_master, base_link, port_state, is_locked}

  -- None for a bridge that does not filter VLANs, where the source aborts, or whose file cannot be read.
  unfoldable pub set_bridge_interface : nl.Link → Run (NlBridge nl.Link)
  set_bridge_interface bridge s =
      let t = record s { bridge = some bridge } in
      elim (k.vlan_filtering bridge) [
        | none ↦ none
        | some filtering ↦ if filtering == 0 then none else elim (k.ageing_time bridge) [
          | none ↦ some t
          | some ageing_time ↦ run (set_ageing_time k swi ageing_time) t
        ]
      ]

  -- None without a base link, where a null pointer is read.
  unfoldable pub tag_base : nl.Link → ℕ → Option nl.Link → Run (NlBridge nl.Link)
  tag_base bridge port_id none s = none
  tag_base bridge port_id (some base) s = ignore (set_vlan_proto k swi bridge base port_id) s

  unfoldable pub add_port : nl.Link → nl.Link → Run (NlBridge nl.Link)
  add_port bridge link =
      let port_id = port_of k swi (get_ifindex link) in
      (if ltb 0 port_id then run (set_port_stp_state k swi port_id (port_state link)) else done)
      >=> run (set_port_locked k swi link (is_locked link))
      >=> update_vlans k swi bridge none (some link)
      >=> tag_base bridge port_id (base_link (get_ifindex link))

  unfoldable pub add_interface : nl.Link → Run (NlBridge nl.Link)
  add_interface link s = elim s.bridge [
    | none ↦ some s
    | some bridge ↦
        if not (get_ifindex bridge == get_master link) then some s else add_port bridge link s
  ]

  -- After a change of the state, nothing else is looked at.
  unfoldable pub update_port : nl.Link → nl.Link → nl.Link → Run (NlBridge nl.Link)
  update_port bridge old_link new_link =
      let port_id = nl.get_port_id new_link in
      if not (port_state old_link == port_state new_link)
      then (if ltb 0 port_id
          then run (set_port_stp_state k swi port_id (port_state new_link))
          else done)
      else (update_vlans k swi bridge (some old_link) (some new_link)
          >=> (if is_locked old_link && not (is_locked new_link)
                || (not (is_locked old_link) && is_locked new_link)
              then run (set_port_locked k swi new_link (is_locked new_link))
              else done))

  unfoldable pub update_interface : nl.Link → nl.Link → Run (NlBridge nl.Link)
  update_interface old_link new_link s = elim s.bridge [
    | none ↦ some s
    | some bridge ↦
        if not (get_ifindex bridge == get_master new_link)
        then some s
        else update_port bridge old_link new_link s
  ]

  unfoldable pub clear_base : nl.Link → Option nl.Link → Run (NlBridge nl.Link)
  clear_base bridge none = done
  clear_base bridge (some base) =
      if ltb 0 (nl.get_port_id base)
      then (ignore (delete_vlan_proto k swi bridge base (nl.get_port_id base))
          >=> run (set_port_stp_state k swi (nl.get_port_id base) br_state_forwarding))
      else done

  unfoldable pub delete_port : nl.Link → nl.Link → Run (NlBridge nl.Link)
  delete_port bridge link =
      update_vlans k swi bridge (some link) none
      >=> clear_base bridge (base_link (get_ifindex link))
      >=> run (set_port_locked k swi link false)

  unfoldable pub delete_interface : nl.Link → Run (NlBridge nl.Link)
  delete_interface link s = elim s.bridge [
    | none ↦ some s
    | some bridge ↦
        if not (get_ifindex bridge == get_master link) then some s else delete_port bridge link s
  ]
