-- ===== src/Vlan/Bridge.antt =====
-- The VLANs of bridge ports, kept in `bridge_vlan`, and the PVIDs, kept in `port_pvid`.
use basebox.Prelude.{
  ℕ, Bool, true, not, List, [], ◌∷◌, none, some, ℤ, pos, is_neg, einval, Map, find, emplace,
  insert_or_assign, erase, nat_key, add, ltb, ◌==◌, if◌then◌else◌, Method, ◌>>=◌, ◌>>◌, pure, gets,
  modify, for_each, until_error,
}
use basebox.Sai.{Call, SwitchInterface}
use basebox.Vlan.State.{Cnetlink, NlVlan, call, is_vid_valid, get_vrf_id}
use basebox.Vlan.Ingress.{members}

-- The entry of a VLAN is made where there is none.
unfoldable pub record_vlan : ℕ → ℕ → ℕ → Bool → NlVlan → NlVlan
record_vlan port_id vid outer_vid tagged s = elim (find port_id s.bridge_vlan) [
  | none ↦ record s {
    bridge_vlan = emplace port_id ((vid, (outer_vid, tagged)) ∷ []) s.bridge_vlan;
  }
  | some vlans ↦ record s {
    bridge_vlan =
        insert_or_assign port_id
          (elim (find vid vlans) [ none ↦ emplace vid (outer_vid, tagged) vlans | some _ ↦ vlans ])
          s.bridge_vlan;
  }
]

-- The first PVID of a port stays.
unfoldable pub record_pvid : ℕ → ℕ → Bool → NlVlan → NlVlan
record_pvid port_id vid pvid s = elim (find port_id s.port_pvid) [
  | some _ ↦ s
  | none ↦ if pvid then record s { port_pvid = emplace port_id vid s.port_pvid } else s
]

-- A port with no VLAN left has no entry.
unfoldable pub erase_or_drop :
    ℕ → Map ℕ (ℕ × Bool) → Map ℕ (Map ℕ (ℕ × Bool)) → Map ℕ (Map ℕ (ℕ × Bool))
erase_or_drop port_id [] m = erase port_id m
erase_or_drop port_id (e ∷ left) m = insert_or_assign port_id (e ∷ left) m

unfoldable pub forget_vlan : ℕ → ℕ → NlVlan → NlVlan
unfolding erase_or_drop
forget_vlan port_id vid s = elim (find port_id s.bridge_vlan) [
  | none ↦ s
  | some vlans ↦ record s { bridge_vlan = erase_or_drop port_id (erase vid vlans) s.bridge_vlan }
]

-- The entry goes whatever VLAN it names: a mismatch is only logged.
unfoldable pub forget_pvid : ℕ → Bool → NlVlan → NlVlan
forget_pvid port_id pvid s = elim (find port_id s.port_pvid) [
  | none ↦ s
  | some _ ↦ if pvid then record s { port_pvid = erase port_id s.port_pvid } else s
]

module _ (nl : Cnetlink) (swi : SwitchInterface) where
  open nl use {Link, get_port_id, is_vlan, vlan_get_id}

  -- The VLAN of a link of type "vlan", 0 for any other.
  unfoldable pub outer_vid_of : Link → ℕ
  outer_vid_of link = if is_vlan link then vlan_get_id link else 0

  -- The port and, for a bond, its members.
  unfoldable pub all_ports : ℕ → List ℕ
  all_ports port_id = add port_id (members nl swi port_id)

  unfoldable pub program_bridge_port : ℕ → ℕ → Bool → Bool → ℕ → ℕ → Method NlVlan ℤ
  program_bridge_port vid outer_vid pvid tagged vrf_id port = do
    rv ← call swi (Call.egress_bridge_port_vlan_add port vid (not tagged))
    if is_neg rv
        then pure rv
        else if ltb 0 outer_vid
        then (do
          rv' ← call swi (Call.egress_port_push_vlan_add port vid outer_vid)
          if is_neg rv'
              then pure rv'
              else call swi (Call.ingress_port_pop_vlan_add port outer_vid vid vrf_id))
        else call swi (Call.ingress_port_vlan_add port vid pvid vrf_id)

  unfoldable pub clear_bridge_port : ℕ → ℕ → Bool → ℕ → ℕ → Method NlVlan ℤ
  clear_bridge_port vid outer_vid pvid vrf_id port = do
    call swi (Call.egress_bridge_port_vlan_remove port vid)
    if ltb 0 outer_vid
        then (do
          call swi (Call.ingress_port_pop_vlan_remove port outer_vid vid vrf_id)
          call swi (Call.egress_port_push_vlan_remove port vid outer_vid))
        else call swi (Call.ingress_port_vlan_remove port vid pvid vrf_id)

  unfoldable pub remove_bridge_vlan : Link → ℕ → Bool → Bool → Method NlVlan (Unit {0})
  remove_bridge_vlan link vid pvid tagged =
      let port_id = get_port_id link in
      if not (is_vid_valid vid) then pure tt else if port_id == 0 then pure tt else do
        vrf_id ← gets (get_vrf_id vid)
        modify (forget_vlan port_id vid)
        modify (forget_pvid port_id pvid)
        for_each (clear_bridge_port vid (outer_vid_of link) pvid vrf_id) (all_ports port_id)

  unfoldable pub add_bridge_vlan : Link → ℕ → Bool → Bool → Method NlVlan ℤ
  add_bridge_vlan link vid pvid tagged =
      let port_id = get_port_id link in
      if not (is_vid_valid vid) then pure einval else if port_id == 0 then pure einval else do
        vrf_id ← gets (get_vrf_id vid)
        modify (record_vlan port_id vid (outer_vid_of link) tagged)
        modify (record_pvid port_id vid pvid)
        rv ←
            until_error (program_bridge_port vid (outer_vid_of link) pvid tagged vrf_id) (pos 0)
              (all_ports port_id)
        if is_neg rv then remove_bridge_vlan link vid pvid tagged >> pure rv else pure rv

  -- The map holds whether the VLAN is tagged; the switch is told whether it is untagged.
  unfoldable pub update_egress_bridge_vlan : Link → ℕ → Bool → Method NlVlan ℤ
  update_egress_bridge_vlan link vid untagged s =
      let port_id = get_port_id link in
      if not (is_vid_valid vid)
      then (einval, s)
      else if port_id == 0
      then (einval, s)
      else elim (find port_id s.bridge_vlan) [
        | none ↦ (einval, s)
        | some vlans ↦ elim (find vid vlans) [
          | none ↦ (einval, s)
          | some (outer, _) ↦
              until_error (λ port. call swi (Call.egress_port_vlan_add port vid untagged true))
                (pos 0) (all_ports port_id)
                (record s {
                  bridge_vlan =
                      insert_or_assign port_id (insert_or_assign vid (outer, not untagged) vlans)
                        s.bridge_vlan;
                })
        ]
      ]
