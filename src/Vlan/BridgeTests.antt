-- ===== src/Vlan/BridgeTests.antt =====
-- The theorems on bridge ports, VRFs and bonds at concrete inputs.
use basebox.Prelude.{
  ◌≡◌, refl, true, false, [], ◌∷◌, none, some, arith, find, nat_key, pair_key, insert_or_assign,
  emplace, until_error, add,
}
use basebox.Sai.{get_port_type}
use basebox.Vlan.State.{is_vid_valid, get_vrf_id, get_vid}
use basebox.Vlan.Entries.{Entry, installed}
use basebox.Vlan.Ingress.{members}
use basebox.Vlan.Bridge.{
  record_vlan, record_pvid, outer_vid_of, all_ports, program_bridge_port, add_bridge_vlan,
  remove_bridge_vlan,
}
use basebox.Vlan.Vrf.{vrf_attach}
use basebox.Vlan.Member.{bond_member_attached}
use basebox.Vlan.Config.{
  config, config-add_bridge_vlan, add_bridge_vlan_undone, config-remove_bridge_vlan,
}
use basebox.Vlan.VrfMap.{vrf_attach_stuck}
use basebox.Vlan.MemberPvid.{has_plain, bond_member_attached_pvid}
use basebox.Vlan.Fixtures.{bond, net, willing, refusing, configured, bonded, under_zero}

config-add_bridge_vlan_example :
    config 3 7 (add_bridge_vlan net willing 3 7 false true configured).1 ≡ some (0, true)
unfolding find add_bridge_vlan record_vlan record_pvid program_bridge_port all_ports members
    get_port_type outer_vid_of is_vid_valid until_error add insert_or_assign emplace
config-add_bridge_vlan_example =
    config-add_bridge_vlan net willing 3 7 false true refl (omega arith) configured 3 7 refl

-- The bond's PVID, VLAN 6, is lost when VLAN 7 cannot be added as the PVID.
add_bridge_vlan_undone_example :
    let t = (add_bridge_vlan net refusing bond 7 true true bonded).1 in
    (config bond 7 t ≡ none) × (find bond t.port_pvid ≡ none)
unfolding find add_bridge_vlan record_vlan record_pvid program_bridge_port all_ports members
    get_port_type outer_vid_of is_vid_valid until_error add insert_or_assign emplace
add_bridge_vlan_undone_example =
    add_bridge_vlan_undone net refusing bond 7 true true refl (omega arith) bonded bond 7 refl

config-remove_bridge_vlan_example :
    config 3 5 (remove_bridge_vlan net willing 3 5 false true configured).1 ≡ none
unfolding is_vid_valid
config-remove_bridge_vlan_example =
    config-remove_bridge_vlan net willing 3 5 false true refl (omega arith) configured 3 5

vrf_attach_stuck_example : get_vrf_id 1 (vrf_attach net willing 3 3 under_zero).1 ≡ 0
unfolding find get_vid
vrf_attach_stuck_example = vrf_attach_stuck net willing 3 3 under_zero (λ e. omega (arith, e)) refl

bond_member_attached_pvid_example :
    installed (Entry.ingress 1 5 true 0) (bond_member_attached net willing bond 1 bonded).1.log
    ≡ true
unfolding find has_plain get_vrf_id
bond_member_attached_pvid_example =
    bond_member_attached_pvid net willing (λ l c. refl) bond 1 5 6
      ((5, (0, true)) ∷ (6, (0, false)) ∷ []) bonded (omega arith) (omega arith) refl refl refl refl
      (omega arith) refl
