-- ===== src/Bridge/StpHistory.antt =====
-- Histories of spanning tree messages, and what the switch is told of a port in a VLAN.
use basebox.Prelude.{
  ℕ, ◌≤◌, ◌≡◌, inl, inr, false, ◌&&◌, ◌||◌, List, [], ◌∷◌, Option, none, some, pos, is_neg, arith,
  nat_key, find, ltb, Option-cases, ◌==◌, if◌then◌else◌,
}
use basebox.Sai.{Call, Log, SwitchInterface, get_port_type, port_type_lag}
use basebox.Bridge.StpStates.{
  u8, add_pvlan_state, get_global_state, get_min_state, get_effective_state,
}
use basebox.Bridge.State.{Kernel, NlBridge}
use basebox.Bridge.Stp.{
  set_port_vlan_stp_state, set_min_state, set_port_stp_state, add_port_vlan_stp_state,
  del_port_vlan_stp_state,
}
use basebox.Bridge.StpGroups.{
  IsObliging, IsGrouped, get_pvlan_state-add_pvlan_state, set_port_stp_state-IsGrouped,
  add_port_vlan_stp_state-IsGrouped, del_port_vlan_stp_state-IsGrouped,
}

-- A port changes its state, has a state in a VLAN, or leaves a VLAN.
pub data Event : Type 0 where
  port_state : ℕ → ℕ → Event
  vlan_state : ℕ → ℕ → ℕ → Event
  vlan_left : ℕ → ℕ → Event

-- The last state that the switch was told for a port in a VLAN.
unfoldable pub told : ℕ → ℕ → Log → Option ℕ
told port vid [] = none
told port vid ((Call.ofdpa_stg_state_port_set p v state, rv) ∷ l) =
    if p == port && v == vid then some state else told port vid l
told port vid (_ ∷ l) = told port vid l

module _ (k : Kernel) (swi : SwitchInterface) where
  open k use {nl}

  unfoldable pub serve : Event → NlBridge nl.Link → NlBridge nl.Link
  serve (port_state port_id state) s = (set_port_stp_state k swi port_id state s).1
  serve (vlan_state port_id vid state) s = (add_port_vlan_stp_state k swi port_id vid state s).1
  serve (vlan_left port_id vid) s = (del_port_vlan_stp_state k swi port_id vid s).1

  unfoldable pub serve_all : List Event → NlBridge nl.Link → NlBridge nl.Link
  serve_all [] s = s
  serve_all (e ∷ es) s = serve_all es (serve e s)

  serve-IsGrouped :
      (e : Event) (s : NlBridge nl.Link) → IsObliging swi → IsGrouped s → IsGrouped (serve e s)
  unfolding serve
  serve-IsGrouped (port_state port_id state) s obliging =
      set_port_stp_state-IsGrouped k swi port_id state s
  serve-IsGrouped (vlan_state port_id vid state) s obliging =
      add_port_vlan_stp_state-IsGrouped k swi port_id vid state s
  serve-IsGrouped (vlan_left port_id vid) s obliging =
      del_port_vlan_stp_state-IsGrouped k swi port_id vid s obliging

  -- If a spanning tree group stands on the switch for exactly the VLANs that have states, then so it
  -- is after any history of spanning tree messages on a switch that accepts it whenever a group is
  -- destroyed, whatever it answers to all other calls.
  pub serve_all-IsGrouped :
      (es : List Event) (s : NlBridge nl.Link)
      → IsObliging swi
      → IsGrouped s
      → IsGrouped (serve_all es s)
  unfolding serve_all
  serve_all-IsGrouped [] s obliging h = h
  serve_all-IsGrouped (e ∷ es) s obliging h =
      serve_all-IsGrouped es (serve e s) obliging (serve-IsGrouped e s obliging h)

  get_min_state-add_pvlan_state :
      (port_id vid state : ℕ) (s : NlBridge nl.Link)
      → get_min_state port_id vid (add_pvlan_state port_id vid state s.stp).1
        ≡ pos (get_effective_state (u8 (get_global_state port_id s.stp)) state)
  unfolding get_min_state get_global_state add_pvlan_state
  get_min_state-add_pvlan_state port_id vid state s =
      ground (arith, get_pvlan_state-add_pvlan_state port_id vid state port_id vid s.stp)

  -- If add_port_vlan_stp_state succeeds for a port that is no bond, with states of at most 4, the
  -- switch has last been told for the port in the VLAN: the state that it is given there, if the port
  -- has none of its own; 4, blocking, if either of the two is that; and else the lesser of the two.
  pub told-add_port_vlan_stp_state :
      (port_id vid state : ℕ) (s : NlBridge nl.Link)
      → (get_port_type port_id == port_type_lag) ≡ false
      → state ≤ 4
      → ((own : ℕ) → find port_id s.stp.gl_states ≡ some own → own ≤ 4)
      → is_neg (add_port_vlan_stp_state k swi port_id vid state s).0 ≡ false
      → told port_id vid (add_port_vlan_stp_state k swi port_id vid state s).1.vlan.log
        ≡ some (elim (find port_id s.stp.gl_states) [
          | none ↦ state
          | some own ↦ if own == 4 || state == 4 then 4 else if ltb own state then own else state
        ])
  unfolding add_port_vlan_stp_state set_min_state set_port_vlan_stp_state told get_effective_state
      get_global_state
  told-add_port_vlan_stp_state port_id vid state s single small own_small ok =
      elim (Option-cases (find port_id s.stp.gl_states)) [
        | inl unset ↦ ground (arith, get_min_state-add_pvlan_state port_id vid state s)
        | inr (own, set) ↦
            ground (arith, own_small own set, get_min_state-add_pvlan_state port_id vid state s)
      ]
