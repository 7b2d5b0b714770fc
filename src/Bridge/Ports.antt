-- ===== src/Bridge/Ports.antt =====
-- The ports of the bridge: locking, and the members of a bond.
use basebox.Prelude.{
  ℕ, Bool, false, not, Option, none, some, ℤ, pos, einval, ◌==◌, if◌then◌else◌, Method, ◌>>=◌, ◌>>◌,
  pure, gets, for_each,
}
use basebox.Sai.{Call, SwitchInterface, LearningMode}
use basebox.Bridge.StpStates.{br_state_forwarding, get_min_states}
use basebox.Bridge.State.{Kernel, NlBridge, call}
use basebox.Bridge.Stp.{set_port_vlan_stp_state, set_port_vlan_stp_states, set_port_stp_state}
use basebox.Bridge.Tags.{ports_of, set_vlan_proto, delete_vlan_proto}

module _ (k : Kernel) (swi : SwitchInterface) where
  open k use {nl, get_ifindex, get_master, bridge_link, port_state, is_locked}

  unfoldable pub lock_port : Bool → ℕ → Method (NlBridge nl.Link) ℤ
  lock_port locked port =
      if locked
      then (call swi (Call.port_set_learn port LearningMode.fdb_notification)
          >> call swi (Call.port_set_move_learn port LearningMode.drop))
      else (call swi (Call.port_set_learn port LearningMode.fdb_log_notification)
          >> call swi (Call.port_set_move_learn port LearningMode.fdb_log_notification))

  unfoldable pub set_port_locked : nl.Link → Bool → Method (NlBridge nl.Link) (Unit {0})
  set_port_locked link locked =
      let port_id = nl.get_port_id link in
      if port_id == 0 then pure tt else for_each (lock_port locked) (ports_of k port_id)

  unfoldable pub take_over_states :
      nl.Link → nl.Link → nl.Link → Method (NlBridge nl.Link) (Unit {0})
  take_over_states br_link bond member = do
    let port_id = nl.get_port_id member
    pv_states ← gets (λ s. get_min_states (nl.get_port_id bond) s.stp)
    set_port_vlan_stp_states k swi port_id pv_states
    set_port_vlan_stp_state k swi port_id 0 (port_state br_link)
    set_port_locked member (is_locked br_link)

  -- None where the file of the bridge cannot be read as a number.
  unfoldable pub attach_member :
      nl.Link → nl.Link → nl.Link → nl.Link → NlBridge nl.Link → Option (ℤ × NlBridge nl.Link)
  attach_member bridge br_link bond member s =
      let (_, t) = take_over_states br_link bond member s in
      elim (set_vlan_proto k swi bridge bond (nl.get_port_id member) t) [
        | none ↦ none
        | some (_, u) ↦ some (pos 0, u)
      ]

  unfoldable pub give_up_states : nl.Link → nl.Link → Method (NlBridge nl.Link) (Unit {0})
  give_up_states bond member = do
    let port_id = nl.get_port_id member
    set_port_stp_state k swi port_id br_state_forwarding
    pv_states ← gets (λ s. get_min_states (nl.get_port_id bond) s.stp)
    for_each (λ e. set_port_vlan_stp_state k swi port_id e.0 br_state_forwarding) pv_states
    set_port_vlan_stp_state k swi port_id 0 br_state_forwarding
    set_port_locked member false

  unfoldable pub detach_member :
      nl.Link → nl.Link → nl.Link → NlBridge nl.Link → Option (ℤ × NlBridge nl.Link)
  detach_member bridge bond member s =
      let (_, t) = give_up_states bond member s in
      elim (delete_vlan_proto k swi bridge bond (nl.get_port_id member) t) [
        | none ↦ none
        | some (_, u) ↦ some (pos 0, u)
      ]

  -- None where there is no bridge, too.
  unfoldable pub bond_member_attached :
      nl.Link → nl.Link → NlBridge nl.Link → Option (ℤ × NlBridge nl.Link)
  bond_member_attached bond member s = elim s.bridge [
    | none ↦ none
    | some bridge ↦
        if not (get_master bond == get_ifindex bridge)
        then some (pos 0, s)
        else elim (bridge_link (get_ifindex bond)) [
          | none ↦ some (einval, s)
          | some br_link ↦ attach_member bridge br_link bond member s
        ]
  ]

  unfoldable pub bond_member_detached :
      nl.Link → nl.Link → NlBridge nl.Link → Option (ℤ × NlBridge nl.Link)
  bond_member_detached bond member s = elim s.bridge [
    | none ↦ none
    | some bridge ↦
        if not (get_master bond == get_ifindex bridge)
        then some (pos 0, s)
        else elim (bridge_link (get_ifindex bond)) [
          | none ↦ some (einval, s)
          | some br_link ↦ detach_member bridge bond member s
        ]
  ]
