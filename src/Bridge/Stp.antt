-- ===== src/Bridge/Stp.antt =====
-- The spanning tree states of ports, in the maps and on the switch.
use basebox.Prelude.{
  ℕ, Bool, ◌&&◌, List, [], ◌∷◌, Option, none, some, ℤ, pos, is_neg, is_zero, Map, ltb, ◌==◌,
  if◌then◌else◌, Method, ◌>>=◌, ◌>>◌, pure, gets, modify, for_each,
}
use basebox.Sai.{Call, SwitchInterface, get_port_type, port_type_lag}
use basebox.Bridge.StpStates.{
  br_state_forwarding, u8, add_pvlan_state, del_pvlan_state, add_global_state, get_min_states,
  get_min_state,
}
use basebox.Bridge.State.{Kernel, NlBridge, call, on_stp}

-- `for (x : xs) { err2 = body(x); if (err2 < 0) err = err2; }`
unfoldable pub last_error : {S A : Type 0} → (A → Method S ℤ) → ℤ → List A → Method S ℤ
last_error body err [] s = (err, s)
last_error body err (x ∷ xs) s =
    let (err2, t) = body x s in last_error body (if is_neg err2 then err2 else err) xs t

module _ (k : Kernel) (swi : SwitchInterface) where
  open k use {nl, get_port_id_of_ifindex, get_ifindex}

  unfoldable pub set_port_vlan_stp_state : ℕ → ℕ → ℕ → Method (NlBridge nl.Link) ℤ
  set_port_vlan_stp_state port_id vid state =
      if get_port_type port_id == port_type_lag
      then last_error (λ mem. call swi (Call.ofdpa_stg_state_port_set mem vid state)) (pos 0)
          (nl.get_bond_members_by_port_id port_id)
      else call swi (Call.ofdpa_stg_state_port_set port_id vid state)

  -- The states of a port in its VLANs, on the port given.
  unfoldable pub set_port_vlan_stp_states : ℕ → Map ℕ ℕ → Method (NlBridge nl.Link) (Unit {0})
  set_port_vlan_stp_states port_id = for_each (λ e. set_port_vlan_stp_state port_id e.0 e.1)

  unfoldable pub set_port_stp_state : ℕ → ℕ → Method (NlBridge nl.Link) (Unit {0})
  set_port_stp_state port_id stp_state = do
    modify (λ s. record s { stp = add_global_state port_id stp_state s.stp })
    pv_states ← gets (λ s. get_min_states port_id s.stp)
    set_port_vlan_stp_states port_id pv_states
    set_port_vlan_stp_state port_id 0 stp_state
    pure tt

  -- With the state of the port, unless the switch refuses a group for a VLAN that is new.
  unfoldable pub set_min_state : ℕ → ℕ → Method (NlBridge nl.Link) ℤ
  set_min_state port_id vid = do
    g_stp_state ← gets (λ s. get_min_state port_id vid s.stp)
    set_port_vlan_stp_state port_id vid (u8 g_stp_state)

  unfoldable pub add_port_vlan_stp_state : ℕ → ℕ → ℕ → Method (NlBridge nl.Link) ℤ
  add_port_vlan_stp_state port_id vid stp_state = do
    new_group ← on_stp (add_pvlan_state port_id vid stp_state)
    if new_group
        then (do
          err ← call swi (Call.ofdpa_stg_create vid)
          if is_neg err
              then on_stp (del_pvlan_state port_id vid) >> pure err
              else set_min_state port_id vid)
        else set_min_state port_id vid

  unfoldable pub del_port_vlan_stp_state : ℕ → ℕ → Method (NlBridge nl.Link) ℤ
  del_port_vlan_stp_state port_id vid = do
    err ← set_port_vlan_stp_state port_id vid br_state_forwarding
    last_member ← on_stp (del_pvlan_state port_id vid)
    if last_member
        then (do
          err2 ← call swi (Call.ofdpa_stg_destroy vid)
          pure (if is_neg err2 && is_zero err then err2 else err))
        else pure err

  -- `is_bridge_interface`, where there is a bridge.
  unfoldable pub is_bridge_interface : ℕ → NlBridge nl.Link → Option Bool
  is_bridge_interface ifindex s = elim s.bridge [
    | none ↦ none
    | some bridge ↦ some (ifindex == get_ifindex bridge)
  ]

  -- A message about a port in a VLAN; none where the assertion of a bridge fails.
  unfoldable pub set_pvlan_stp : ℕ → ℕ → ℕ → NlBridge nl.Link → Option (ℤ × NlBridge nl.Link)
  set_pvlan_stp ifindex vlan_id stp_state s = elim (is_bridge_interface ifindex s) [
    | none ↦ none
    | some itself ↦ some (
        if itself
        then (pos 0, s)
        else if ltb 0 (get_port_id_of_ifindex ifindex)
        then add_port_vlan_stp_state (get_port_id_of_ifindex ifindex) vlan_id stp_state s
        else (pos 0, s))
  ]

  unfoldable pub drop_pvlan_stp : ℕ → ℕ → NlBridge nl.Link → Option (ℤ × NlBridge nl.Link)
  drop_pvlan_stp ifindex vlan_id s = elim (is_bridge_interface ifindex s) [
    | none ↦ none
    | some itself ↦ some (
        if itself
        then (pos 0, s)
        else if ltb 0 (get_port_id_of_ifindex ifindex)
        then del_port_vlan_stp_state (get_port_id_of_ifindex ifindex) vlan_id s
        else (pos 0, s))
  ]
