-- ===== src/Bridge/StpStates.antt =====
-- struct bridge_stp_states of src/netlink/nl_bridge.h: the spanning tree state of a port, and of a
-- port in a VLAN.
use basebox.Prelude.{
  ℕ, ◌-◌, ◌%◌, ◌^◌, Bool, true, false, ◌||◌, [], ◌∷◌, none, some, ℤ, pos, negsuc, einval, Map, find,
  insert_or_assign, emplace, erase, nat_key, ltb, ◌==◌, if◌then◌else◌,
}

-- BR_STATE_DISABLED, BR_STATE_LISTENING and BR_STATE_LEARNING are 0, 1 and 2.
abbrev pub br_state_forwarding : ℕ
br_state_forwarding = 3

abbrev pub br_state_blocking : ℕ
br_state_blocking = 4

pub record BridgeStpStates : Type 0 where
  pub gl_states : Map ℕ ℕ
  pub pv_states : Map ℕ (Map ℕ ℕ)

-- The keys of the inner maps are of type uint16_t, those of `gl_states` of type int.
abbrev pub u16 : ℕ → ℕ
u16 n = n % 2 ^ 16

-- The conversion of an int to uint8_t.
abbrev pub u8 : ℤ → ℕ
u8 (pos n) = n % 2 ^ 8
u8 (negsuc n) = 2 ^ 8 - 1 - n % 2 ^ 8

-- True if the VLAN is new.
unfoldable pub add_pvlan_state : ℕ → ℕ → ℕ → BridgeStpStates → Bool × BridgeStpStates
add_pvlan_state port_id vlan_id state s = elim (find vlan_id s.pv_states) [
  | none ↦
      (true, record s { pv_states = emplace vlan_id (emplace (u16 port_id) state []) s.pv_states })
  | some ports ↦ (
    false,
    record s {
      pv_states = insert_or_assign vlan_id (insert_or_assign (u16 port_id) state ports) s.pv_states;
    },
  )
]

unfoldable pub erase_or_drop : ℕ → Map ℕ ℕ → BridgeStpStates → Bool × BridgeStpStates
erase_or_drop vlan_id [] s = (true, record s { pv_states = erase vlan_id s.pv_states })
erase_or_drop vlan_id (e ∷ left) s =
    (false, record s { pv_states = insert_or_assign vlan_id (e ∷ left) s.pv_states })

-- True if the VLAN has no port left.
unfoldable pub del_pvlan_state : ℕ → ℕ → BridgeStpStates → Bool × BridgeStpStates
unfolding erase_or_drop
del_pvlan_state port_id vlan_id s = elim (find vlan_id s.pv_states) [
  | none ↦ (false, s)
  | some ports ↦ erase_or_drop vlan_id (erase (u16 port_id) ports) s
]

unfoldable pub add_global_state : ℕ → ℕ → BridgeStpStates → BridgeStpStates
add_global_state port_id state s = record s {
  gl_states = insert_or_assign port_id state s.gl_states;
}

unfoldable pub get_global_state : ℕ → BridgeStpStates → ℤ
get_global_state port_id s = elim (find port_id s.gl_states) [
  | none ↦ einval
  | some state ↦ pos state
]

unfoldable pub get_pvlan_state : ℕ → ℕ → BridgeStpStates → ℤ
get_pvlan_state port_id vid s = elim (find vid s.pv_states) [
  | none ↦ einval
  | some ports ↦ elim (find (u16 port_id) ports) [ none ↦ einval | some state ↦ pos state ]
]

unfoldable pub get_effective_state : ℕ → ℕ → ℕ
get_effective_state g_state pv_state =
    if g_state == br_state_blocking || pv_state == br_state_blocking
    then br_state_blocking
    else if ltb pv_state g_state
    then pv_state
    else g_state

-- A port without a state of its own has -EINVAL, which is converted to uint8_t.
unfoldable pub min_states_of : ℕ → ℕ → Map ℕ (Map ℕ ℕ) → Map ℕ ℕ → Map ℕ ℕ
min_states_of port_id g_state [] ret = ret
min_states_of port_id g_state ((vid, ports) ∷ m) ret = elim (find (u16 port_id) ports) [
  | none ↦ min_states_of port_id g_state m ret
  | some state ↦
      min_states_of port_id g_state m (emplace vid (get_effective_state g_state state) ret)
]

unfoldable pub get_min_states : ℕ → BridgeStpStates → Map ℕ ℕ
unfolding min_states_of
get_min_states port_id s = min_states_of port_id (u8 (get_global_state port_id s)) s.pv_states []

unfoldable pub get_min_state : ℕ → ℕ → BridgeStpStates → ℤ
get_min_state port_id vid s = elim (get_pvlan_state port_id vid s) [
  | negsuc n ↦ get_global_state port_id s
  | pos pv_state ↦ pos (get_effective_state (u8 (get_global_state port_id s)) pv_state)
]
