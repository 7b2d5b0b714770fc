-- ===== src/Sai.antt =====
-- src/sai.h: the port numbers of class nbi, and class switch_interface as a device that is sent
-- calls and answers each with a result.
use Prim.Native.Nat.{bit_or, bit_and}
use basebox.Prelude.{ℕ, ◌+◌, ◌*◌, ◌/◌, ◌%◌, ◌^◌, ◌<◌, ◌≡◌, Bool, List, ℤ, arith}
use basebox.Prelude.Bits.{bit_or-shifted, bit_and-ones}

-- enum port_type
abbrev pub port_type_physical : ℕ
port_type_physical = 0

abbrev pub port_type_vxlan : ℕ
port_type_vxlan = 1

abbrev pub port_type_lag : ℕ
port_type_lag = 2

-- `(uint32_t)port_num | type << 16`
unfoldable pub combine_port_type : ℕ → ℕ → ℕ
combine_port_type port_num type = bit_or port_num (type * 2 ^ 16)

unfoldable pub get_port_type : ℕ → ℕ
get_port_type port_id = port_id / 2 ^ 16

-- The result type is uint16_t.
unfoldable pub get_port_num : ℕ → ℕ
get_port_num port_id = bit_and port_id 0xffffffff % 2 ^ 16

-- Addresses of the two families are numbers; a mask of the second is its bytes.
pub data Ip : Type 0 where
  in4 in6 : ℕ → Ip

pub data Mask : Type 0 where
  mask4 : ℕ → Mask
  mask6 : List ℕ → Mask

-- enum sai_bridge_port_fdb_learning_t
pub data LearningMode : Type 0 where
  drop disable hw cpu_trap cpu_log fdb_notification fdb_log_notification : LearningMode

-- The requests that the modelled parts make, under the names of switch_interface.
pub data Call : Type 0 where
  ingress_port_vlan_add ingress_port_vlan_remove : ℕ → ℕ → Bool → ℕ → Call
  ingress_port_pvid_add ingress_port_pvid_remove : ℕ → ℕ → Call
  egress_port_vlan_add : ℕ → ℕ → Bool → Bool → Call
  egress_port_vlan_remove : ℕ → ℕ → Call
  egress_bridge_port_vlan_add : ℕ → ℕ → Bool → Call
  egress_bridge_port_vlan_remove : ℕ → ℕ → Call
  egress_port_push_vlan_add egress_port_push_vlan_remove : ℕ → ℕ → ℕ → Call
  ingress_port_pop_vlan_add ingress_port_pop_vlan_remove : ℕ → ℕ → ℕ → ℕ → Call
  l2_addr_remove_all_in_vlan : ℕ → ℕ → Call
  l2_set_idle_timeout : ℕ → Call
  l2_addr_add : ℕ → ℕ → ℕ → Bool → Bool → Bool → Call
  l2_addr_remove : ℕ → ℕ → ℕ → Call
  l2_multicast_group_join l2_multicast_group_leave : ℕ → ℕ → ℕ → Call
  l2_multicast_group_rejoin_all_in_vlan l2_multicast_group_leave_all_in_vlan : ℕ → ℕ → Call
  lag_create lag_remove : ℕ → Call
  lag_add_member lag_remove_member : ℕ → ℕ → Call
  lag_set_member_active : ℕ → ℕ → Bool → Call
  lag_set_mode : ℕ → ℕ → Call
  ingress_port_stacked_vlan_enable ingress_port_stacked_vlan_disable : ℕ → ℕ → Call
  set_egress_tpid delete_egress_tpid : ℕ → Call
  port_set_learn port_set_move_learn : ℕ → LearningMode → Call
  ofdpa_stg_create ofdpa_stg_destroy : ℕ → Call
  ofdpa_stg_state_port_set : ℕ → ℕ → ℕ → Call
  port_knet_create port_knet_delete : ℕ → Call
  l3_termination_add l3_termination_add_v6 l3_termination_remove l3_termination_remove_v6 :
      ℕ → ℕ → ℕ → Call
  l3_egress_create : ℕ → ℕ → ℕ → ℕ → Call
  l3_egress_remove : ℕ → Call
  l3_unicast_host_add : Ip → ℕ → Bool → Bool → ℕ → Call
  l3_unicast_route_add : Ip → Mask → ℕ → Bool → Bool → ℕ → Call
  l3_unicast_host_remove : Ip → ℕ → Call
  l3_unicast_route_remove : Ip → Mask → ℕ → Call
  -- The group is created with no interface in it.
  l3_ecmp_add : Call
  l3_ecmp_remove : ℕ → Call
  add_l2_overlay_flood del_l2_overlay_flood : ℕ → ℕ → Call
  l2_overlay_addr_add : ℕ → ℕ → ℕ → Bool → Call
  l2_overlay_addr_remove : ℕ → ℕ → ℕ → Call
  overlay_tunnel_add overlay_tunnel_remove : ℕ → Call
  tunnel_tenant_create : ℕ → ℕ → Call
  tunnel_tenant_delete : ℕ → Call
  tunnel_next_hop_create : ℕ → ℕ → ℕ → ℕ → ℕ → Call
  tunnel_next_hop_delete : ℕ → Call
  -- The names of ports are left out.
  tunnel_access_port_create : ℕ → ℕ → ℕ → Bool → Call
  tunnel_enpoint_create : ℕ → ℕ → ℕ → ℕ → ℕ → ℕ → ℕ → ℕ → Bool → Call
  tunnel_port_delete : ℕ → Call
  tunnel_port_tenant_add tunnel_port_tenant_remove : ℕ → ℕ → Call

-- The calls made so far with their results, the newest first.
abbrev pub Log : Type 0
Log = List (Call × ℤ)

-- A switch: its answer to a call may depend on all that was asked before, and so may the id that
-- a call which creates something hands out.
pub record SwitchInterface : Type 0 where
  pub answer : Log → Call → ℤ
  pub created_id : Log → Call → ℕ

-- A port number of 16 bits and a port type of 16 bits are read back from the port id that
-- combines them.
pub port_id_fields :
    (port_num type : ℕ)
    → port_num < 2 ^ 16
    → type < 2 ^ 16
    → (get_port_type (combine_port_type port_num type) ≡ type)
      × (get_port_num (combine_port_type port_num type) ≡ port_num)
unfolding combine_port_type get_port_type get_port_num
port_id_fields port_num type n t =
    rw (bit_or-shifted 16 port_num type n, bit_and-ones 32 (port_num + type * 2 ^ 16) (omega arith))
      (omega arith)
