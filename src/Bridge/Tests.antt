-- ===== src/Bridge/Tests.antt =====
-- The theorems about nl_bridge at concrete inputs. A link is its port's number; 9 is the bridge, and
-- 8 a tunnel.
use mathlib.Core.Path.{subst}
use basebox.Prelude.{
  All, ℕ, zero, suc, ◌/◌, ◌%◌, ◌+◌, ◌*◌, ◌<◌, ◌≤◌, ◌≡◌, ◌⊎◌, refl, true, false, [], ◌∷◌, none, some,
  pos, arith, find, nat_key, ◌==◌, List,
}
use basebox.Sai.{get_port_type}
use basebox.Vlan.Fixtures.{net, willing, empty}
use basebox.Bridge.StpStates.{add_pvlan_state, get_pvlan_state}
use basebox.Bridge.State.{BridgeVlan, Neigh, Kernel, NlBridge}
use basebox.Bridge.Stp.{add_port_vlan_stp_state, set_min_state, set_port_vlan_stp_state}
use basebox.Bridge.StpGroups.{IsGrouped, stands, lag_shares_state}
use basebox.Bridge.StpHistory.{
  Event, told, serve_all, serve_all-IsGrouped, told-add_port_vlan_stp_state,
}
use basebox.Bridge.Mdb.{GroupAddr, MdbObject, Membership, mdb_update, bridge_index}
use basebox.Bridge.MdbDifference.{
  tellings, is_member, is_address_of, is_entry_of, has_entry, lists, mdb_update_lem,
}
use basebox.Bridge.Bits.{loop_bits, get_elem?, is_vid_set, is_bit_set, shr}
use basebox.Bridge.BitLoop.{set_bits, loop_bits_lem}
use basebox.Bridge.Fdb.{port_of, search, take_out, key_entry, new_ageing_time, add_neigh_to_fdb}
use basebox.Bridge.Learning.{new_ageing_time_lem, add_neigh_to_fdb_again}
use basebox.Bridge.Run.{for_all}
use basebox.Bridge.Keeps.{tunnels}
use basebox.Bridge.Vlans.{zeros}
use basebox.Bridge.NeverAborts.{IsDomain}
use basebox.Bridge.SafeUpdates.{IsBitmap, IsBridgeVlan}
use basebox.Bridge.SafeVlans.{get_elem?-zeros}
use basebox.Bridge.SafeLinks.{Update, IsKernel}
use basebox.Bridge.SafeInterfaces.{handle, IsKnown, handle_never_aborts}

-- VLAN 1, untagged, on every port.
abbrev words : List ℕ
words = 2 ∷ zeros 127

abbrev vlans : BridgeVlan
vlans = record { pvid = 1; vlan_bitmap = words; untagged_bitmap = words }

abbrev behind_port : Neigh
behind_port = record { ifindex = 3; master = 9; vlan = some 1; lladdr = 40; state = 2; flags = 0 }

abbrev kernel : Kernel
kernel = record {
  nl = net;
  get_ifindex = λ l. l;
  get_master = λ l. 9;
  base_link = λ i. some i;
  bridge_link = λ i. some i;
  get_port_id_of_ifindex = λ i. i;
  port_state = λ l. 3;
  is_locked = λ l. false;
  port_vlan = λ l. some vlans;
  vlan_protocol = λ l. some 0x8100;
  vlan_filtering = λ l. some 1;
  vlan_get_protocol = λ l. 0;
  ageing_time = λ l. none;
  get_addr = λ l. 0xffff;
  is_vxlan = λ l. l == 8;
  is_bond_slave = λ l. false;
  get_bridge_ports = λ i. 3 ∷ 8 ∷ [];
  bvlan_state = λ i vid. none;
  fdb_entries = λ l vid. behind_port ∷ [];
  get_tunnel_id = λ l. some 77;
  send_add_request = λ n. pos 0;
  send_delete_request = λ n. pos 0;
  same_key = λ m n. m.lladdr == n.lladdr;
  passes = λ ifindex master vid n. n.ifindex == ifindex;
  cache_add = λ n. pos 0;
}

abbrev start : NlBridge ℕ
start = record {
  bridge = some 9;
  stp = record { gl_states = []; pv_states = [] };
  vxlan_dom_bitmap = zeros 128;
  vxlan_domain = [];
  l2_cache = [];
  vlan = empty;
  vxlan_calls = [];
  flushed = [];
}

words-IsBitmap : IsBitmap words
unfolding IsBitmap get_elem?
words-IsBitmap zero h = (2, (refl, omega arith))
words-IsBitmap (suc i) h = (0, (get_elem?-zeros 127 i (omega arith), omega arith))

same_vlans : (v : BridgeVlan) → some vlans ≡ some v → IsBridgeVlan v
unfolding IsBridgeVlan is_vid_set is_bit_set get_elem? shr
same_vlans v e =
    let same : vlans ≡ v = ground (arith, e) in
    subst IsBridgeVlan same (words-IsBitmap, (words-IsBitmap, refl))

kernel-IsKernel : IsKernel kernel
kernel-IsKernel = record {
  bitmaps = λ link v e. same_vlans v e;
  bases = λ link v e. (link, refl);
  protocols = λ link. (0x8100, refl);
  bonds = λ link e. absurd (ground (arith, e));
}

zero_bits : (i : ℕ) → shr 0 i % 2 == 1 ≡ false
unfolding shr
zero_bits zero = refl
zero_bits (suc i) = zero_bits i

start-IsDomain : IsDomain (tunnels start)
unfolding IsDomain tunnels is_vid_set is_bit_set shr
start-IsDomain v below = (
  false,
  (
    ground (arith, get_elem?-zeros 128 (v / 32) (omega arith), zero_bits (v % 32)),
    λ e. absurd (ground (arith, e)),
  ),
)

-- Port 3 and the tunnel become bridge ports, the port is looked at again, and the tunnel goes.
abbrev updates : List (Update ℕ)
updates = Update.added 3 ∷ Update.added 8 ∷ Update.changed 3 3 ∷ Update.removed 8 ∷ []

updates-IsKnown : All (IsKnown kernel) updates
unfolding IsKnown
updates-IsKnown = ((3, refl), ((8, refl), (tt, (tt, tt))))

handle_never_aborts_example :
    (t : NlBridge ℕ) × ((for_all (handle kernel willing) updates start ≡ some t)
      × IsDomain (tunnels t))
handle_never_aborts_example =
    handle_never_aborts kernel willing kernel-IsKernel updates start updates-IsKnown start-IsDomain

-- The group 33:33:00:00:00:16 on port 3 in VLAN 5.
abbrev group : Membership
group = (3, (5, 0x333300000016))

abbrev database : MdbObject
database = record {
  ifindex = 9;
  entries =
      record { port_ifindex = 3; vid = 5; addr = GroupAddr.ipv6 false 0x16; buf = 0 }
      ∷ record { port_ifindex = 9; vid = 5; addr = GroupAddr.ipv6 false 0x17; buf = 0 }
      ∷ [];
}

mdb_update_lem_example :
    let t = (mdb_update kernel willing none (some database) start).1 in
    (tellings group t.vlan.log ≡ 1) × (is_member group t.vlan.log ≡ true)
unfolding tellings is_member lists has_entry is_entry_of is_address_of bridge_index
mdb_update_lem_example = mdb_update_lem kernel willing none (some database) start group refl

start-IsGrouped : IsGrouped start
unfolding stands find
start-IsGrouped vid = refl

serve_all-IsGrouped_example : IsGrouped (
    serve_all kernel willing
      (Event.vlan_state 3 5 4 ∷ Event.port_state 3 1 ∷ Event.vlan_left 3 5 ∷ [])
      start)
serve_all-IsGrouped_example =
    serve_all-IsGrouped kernel willing
      (Event.vlan_state 3 5 4 ∷ Event.port_state 3 1 ∷ Event.vlan_left 3 5 ∷ []) start
      (λ l vid. refl) start-IsGrouped

abbrev listening : NlBridge ℕ
listening = record start { stp = record { gl_states = (3, 1) ∷ []; pv_states = [] } }

told-add_port_vlan_stp_state_example :
    told 3 5 (add_port_vlan_stp_state kernel willing 3 5 3 listening).1.vlan.log ≡ some 1
unfolding find get_port_type add_port_vlan_stp_state add_pvlan_state set_min_state
    set_port_vlan_stp_state
told-add_port_vlan_stp_state_example =
    told-add_port_vlan_stp_state kernel willing 3 5 3 listening refl (omega arith)
      (λ own e. ground arith) refl

lag_shares_state_example :
    get_pvlan_state 1 5 (add_pvlan_state 0x20001 5 4 (record { gl_states = []; pv_states = [] })).1
    ≡ pos 4
lag_shares_state_example =
    lag_shares_state 1 5 4 (record { gl_states = []; pv_states = [] }) (omega arith)

loop_bits_lem_example : loop_bits 0x80000005 ≡ some (1 ∷ 3 ∷ 32 ∷ [])
unfolding set_bits
loop_bits_lem_example = loop_bits_lem 0x80000005 (omega arith)

-- 300.49 seconds.
abbrev ageing_time : ℕ
ageing_time = 30049

new_ageing_time_lem_example :
    let seconds = new_ageing_time ageing_time in
    ((seconds == 0) ≡ (ageing_time == 0))
    × ((seconds ≤ 65535)
        × (((ageing_time ≡ 0) × (seconds ≡ 0))
            ⊎ (((0 < ageing_time) × (ageing_time < 50) × (seconds ≡ 1))
                ⊎ (((6553550 ≤ ageing_time) × (seconds ≡ 65535))
                    ⊎ ((50 ≤ ageing_time)
                        × (ageing_time < 6553550)
                        × (seconds * 100 ≤ ageing_time + 50)
                        × (ageing_time + 50 < seconds * 100 + 100))))))
new_ageing_time_lem_example = new_ageing_time_lem ageing_time (omega arith)

-- The address is known on port 4, and moves to port 3.
abbrev station : Neigh
station = record { ifindex = 3; master = 9; vlan = some 5; lladdr = 0x42; state = 2; flags = 0 }

abbrev moved : NlBridge ℕ
moved = record start { l2_cache = record station { ifindex = 4; flags = 20 } ∷ [] }

add_neigh_to_fdb_again_example :
    let t = (add_neigh_to_fdb kernel willing station false moved).1 in
    (add_neigh_to_fdb kernel willing station true t).1 ≡ t
unfolding port_of search take_out key_entry
add_neigh_to_fdb_again_example =
    add_neigh_to_fdb_again kernel willing station 5 moved false true refl refl refl refl refl refl
      refl
