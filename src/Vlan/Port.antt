-- ===== src/Vlan/Port.antt =====
-- The VLANs that ports need outside a bridge, counted by their users in `port_vlan`.
use basebox.Prelude.{
  ℕ, ◌+◌, ◌-◌, ◌%◌, ◌^◌, Bool, false, not, List, [], ◌∷◌, none, some, ℤ, pos, is_neg, einval, Map,
  find, emplace, insert_or_assign, erase, nat_key, pair_key, ltb, ◌==◌, if◌then◌else◌, Method,
  ◌>>=◌, ◌>>◌, pure, gets, modify, for_each, until_error,
}
use basebox.Sai.{Call, SwitchInterface}
use basebox.Vlan.State.{Cnetlink, NlVlan, call, is_vid_valid, get_vrf_id}
use basebox.Vlan.Ingress.{members, add_ingress_vlan, remove_ingress_vlan}

-- The VLANs of one port, in the order of the map.
unfoldable pub vids_of_port : ℕ → Map (ℕ × ℕ) ℕ → List ℕ
vids_of_port port_id [] = []
vids_of_port port_id (((port, vid), _) ∷ m) =
    if port == port_id then vid ∷ vids_of_port port_id m else vids_of_port port_id m

module _ (nl : Cnetlink) (swi : SwitchInterface) where
  open nl use {Link, get_port_id, is_bridge_interface, port_untagged_vid}

  -- The egress entries of the members of a bond, and what is taken back if one fails.
  unfoldable pub enable_egress_members : ℕ → ℕ → Bool → ℕ → ℤ → Method NlVlan ℤ
  enable_egress_members port_id vid tagged vrf_id rv = do
    rv' ←
        until_error (λ mem. call swi (Call.egress_port_vlan_add mem vid (not tagged) false)) rv
          (members nl swi port_id)
    if is_neg rv'
        then (do
          for_each (λ mem. call swi (Call.egress_port_vlan_remove mem vid)) (members nl swi port_id)
          call swi (Call.egress_port_vlan_remove port_id vid)
          remove_ingress_vlan nl swi port_id vid tagged vrf_id
          pure rv')
        else pure rv'

  unfoldable pub enable_vlan : ℕ → ℕ → Bool → ℕ → Method NlVlan ℤ
  enable_vlan port_id vid tagged vrf_id = do
    rv ← add_ingress_vlan nl swi port_id vid tagged vrf_id
    if is_neg rv then pure rv else do
      rv' ← call swi (Call.egress_port_vlan_add port_id vid (not tagged) false)
      if is_neg rv'
          then remove_ingress_vlan nl swi port_id vid tagged vrf_id >> pure rv'
          else enable_egress_members port_id vid tagged vrf_id rv'

  unfoldable pub disable_vlan : ℕ → ℕ → Bool → ℕ → Method NlVlan ℤ
  disable_vlan port_id vid tagged vrf_id = do
    rv ← remove_ingress_vlan nl swi port_id vid tagged vrf_id
    if is_neg rv then pure rv else do
      rv' ← call swi (Call.l2_addr_remove_all_in_vlan port_id vid)
      if is_neg rv' then pure rv' else do
        for_each (λ mem. call swi (Call.egress_port_vlan_remove mem vid)) (members nl swi port_id)
        call swi (Call.egress_port_vlan_remove port_id vid)

  -- The first user of a VLAN on a port enables it; a bridge looks after its own ports.
  unfoldable pub add_first_user : Link → ℕ → ℕ → Bool → ℕ → Method NlVlan ℤ
  add_first_user link port_id vid tagged vrf_id =
      if is_bridge_interface link then pure (pos 0) else do
        rv ← enable_vlan port_id vid tagged vrf_id
        if is_neg rv then pure rv else do
          modify (λ t. record t { port_vlan = emplace (port_id, vid) 1 t.port_vlan })
          pure rv

  unfoldable pub add_vlan : Link → ℕ → Bool → Method NlVlan ℤ
  add_vlan link vid tagged s =
      let port_id = get_port_id link in
      if not (is_vid_valid vid)
      then (einval, s)
      else if port_id == 0
      then (einval, s)
      else elim (find (port_id, vid) s.port_vlan) [
        | some n ↦ (
          pos 0,
          record s { port_vlan = insert_or_assign (port_id, vid) ((n + 1) % 2 ^ 32) s.port_vlan },
        )
        | none ↦ add_first_user link port_id vid tagged (get_vrf_id vid s) s
      ]

  -- The last user has gone: its entry is erased before the switch is told.
  unfoldable pub remove_last_user : Link → ℕ → ℕ → Bool → ℕ → Method NlVlan ℤ
  remove_last_user link port_id vid tagged vrf_id = do
    modify (λ t. record t { port_vlan = erase (port_id, vid) t.port_vlan })
    if is_bridge_interface link then pure (pos 0) else disable_vlan port_id vid tagged vrf_id

  -- `--refcount` on uint32_t
  unfoldable pub remove_vlan : Link → ℕ → Bool → Method NlVlan ℤ
  remove_vlan link vid tagged s =
      let port_id = get_port_id link in
      if not (is_vid_valid vid)
      then (einval, s)
      else if port_id == 0
      then (einval, s)
      else elim (find (port_id, vid) s.port_vlan) [
        | none ↦ (einval, s)
        | some n ↦
            let left = (n + 2 ^ 32 - 1) % 2 ^ 32 in
            if ltb 0 left
            then (pos 0, record s { port_vlan = insert_or_assign (port_id, vid) left s.port_vlan })
            else remove_last_user link port_id vid tagged (get_vrf_id vid s) s
      ]

  unfoldable pub enable_vlans : Link → Method NlVlan ℤ
  enable_vlans link =
      let port_id = get_port_id link in
      if port_id == 0 then pure einval else do
        vids ← gets (λ s. vids_of_port port_id s.port_vlan)
        for_each
            (λ vid s. enable_vlan port_id vid (not (vid == port_untagged_vid)) (get_vrf_id vid s) s)
            vids
        pure (pos 0)

  unfoldable pub disable_vlans : Link → Method NlVlan ℤ
  disable_vlans link =
      let port_id = get_port_id link in
      if port_id == 0 then pure einval else do
        vids ← gets (λ s. vids_of_port port_id s.port_vlan)
        for_each
            (λ vid s.
              disable_vlan port_id vid (not (vid == port_untagged_vid)) (get_vrf_id vid s) s)
            vids
        pure (pos 0)
