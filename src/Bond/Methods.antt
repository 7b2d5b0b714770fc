-- ===== src/Bond/Methods.antt =====
-- The methods of nl_bond that change LAGs and their members.
use basebox.Prelude.{
  ℕ, Bool, true, not, [], ◌∷◌, Option, none, some, ℤ, pos, is_neg, einval, enodev, find, emplace,
  insert_or_assign, erase, nat_key, add, ◌==◌, if◌then◌else◌,
}
use basebox.Sai.{Call, SwitchInterface}
use basebox.Bond.State.{Links, Notice, NlBond, Outcome, call, get_port_id}

-- `clear`
unfoldable pub clear : {L : Type 0} → NlBond L → NlBond L
clear s = record s { ifi2lag = []; lag_members = [] }

-- `state == 0` for a state that stays 0 where libnl cannot tell.
unfoldable pub is_active : Option ℕ → Bool
is_active none = true
is_active (some state) = state == 0

-- A port joins the set of its LAG, which is made where there is none.
unfoldable pub join : {L : Type 0} → ℕ → ℕ → NlBond L → NlBond L
join lag_id port_id s = elim (find lag_id s.lag_members) [
  | none ↦ record s { lag_members = emplace lag_id (add port_id []) s.lag_members }
  | some members ↦ record s {
    lag_members = insert_or_assign lag_id (add port_id members) s.lag_members;
  }
]

module _ (links : Links) (swi : SwitchInterface) where
  open links use {
    Link, get_ifindex, get_master, find_link, find_bridge_port, bond_get_mode, bond_slave_get_state,
  }

  -- A bond that is a bridge port already is announced once more.
  unfoldable pub announce : Link → NlBond Link → NlBond Link
  announce bond s = if get_master bond == 0 then s else elim (find_bridge_port (get_ifindex bond)) [
    | none ↦ s
    | some br_link ↦ record s { notices = Notice.link_created br_link ∷ s.notices }
  ]

  -- A LAG of the switch is entered for the bond; if the bond has one, the new one is given back.
  unfoldable pub enter_lag : Link → ℕ → NlBond Link → ℤ × NlBond Link
  enter_lag bond lag_id s = elim (find (get_ifindex bond) s.ifi2lag) [
    | none ↦ (pos lag_id, record s { ifi2lag = emplace (get_ifindex bond) lag_id s.ifi2lag })
    | some old ↦ (pos old, if lag_id == old then s else (call swi (Call.lag_remove lag_id) s).1)
  ]

  -- An unknown mode is read although it was never set.
  unfoldable pub add_lag : Link → NlBond Link → Outcome Link
  add_lag bond s = elim (bond_get_mode bond) [
    | none ↦ none
    | some mode ↦
        let lag_id = swi.created_id s.log (Call.lag_create mode) in
        let (rv, t) = call swi (Call.lag_create mode) s in
        let (rv', u) = enter_lag bond lag_id t in
        if is_neg rv then some (rv, t) else some (rv', announce bond u)
  ]

  unfoldable pub remove_lag : Link → NlBond Link → Outcome Link
  remove_lag bond s = elim (find (get_ifindex bond) s.ifi2lag) [
    | none ↦ some (enodev, s)
    | some lag_id ↦
        let (rv, t) = call swi (Call.lag_remove lag_id) s in
        if is_neg rv
        then some (rv, t)
        else some (pos 0, record t { ifi2lag = erase (get_ifindex bond) t.ifi2lag })
  ]

  -- The member on the switch, once it stands in the set.
  unfoldable pub program_member : Link → ℕ → ℕ → NlBond Link → ℤ × NlBond Link
  program_member link lag_id port_id s =
      let (rv, t) = call swi (Call.lag_add_member lag_id port_id) s in
      let (rv', u) =
        call swi (Call.lag_set_member_active lag_id port_id (is_active (bond_slave_get_state link)))
          t in
      if is_neg rv then (einval, t) else if is_neg rv' then (einval, u) else (rv', u)

  -- With a LAG made by this very call, the iterator that is read next is past the end.
  unfoldable pub add_member_of_new_lag : Link → NlBond Link → ℤ → Outcome Link
  add_member_of_new_lag link s rv =
      if is_neg rv
      then some (rv, s)
      else if get_port_id links link s == 0
      then some (einval, s)
      else none

  unfoldable pub add_lag_member : Link → Link → NlBond Link → Outcome Link
  add_lag_member bond link s = elim (find (get_ifindex bond) s.ifi2lag) [
    | none ↦ elim (add_lag bond s) [ none ↦ none | some (rv, t) ↦ add_member_of_new_lag link t rv ]
    | some lag_id ↦
        let port_id = get_port_id links link s in
        if port_id == 0
        then some (einval, s)
        else some (program_member link lag_id port_id (join lag_id port_id s))
  ]

  -- The overload that is given the bond.
  unfoldable pub remove_lag_member : Link → Link → NlBond Link → Outcome Link
  remove_lag_member bond link s = elim (find (get_ifindex bond) s.ifi2lag) [
    | none ↦ none
    | some lag_id ↦
        let port_id = get_port_id links link s in
        if port_id == 0 then some (einval, s) else elim (find lag_id s.lag_members) [
          | none ↦ some (einval, s)
          | some _ ↦
              let (rv, t) = call swi (Call.lag_remove_member lag_id port_id) s in
              some (rv, record t { lag_members = erase lag_id t.lag_members })
        ]
  ]

  -- The overload that looks the bond up; no master is a null pointer.
  unfoldable pub remove_lag_member_of_link : Link → NlBond Link → Outcome Link
  remove_lag_member_of_link link s = elim (find_link (get_master link)) [
    | none ↦ none
    | some master ↦ remove_lag_member master link s
  ]

  unfoldable pub update_lag : Link → Link → NlBond Link → Outcome Link
  update_lag old_link new_link s =
      let lag_id = get_port_id links new_link s in
      if lag_id == 0 then some (pos 0, s) else elim (bond_get_mode old_link) [
        | none ↦ none
        | some o_mode ↦ elim (bond_get_mode new_link) [
          | none ↦ none
          | some n_mode ↦
              if o_mode == n_mode
              then some (pos 0, s)
              else some (pos 0, (call swi (Call.lag_set_mode lag_id n_mode) s).1)
        ]
      ]

  -- Masters are compared by their interface index.
  unfoldable pub update_lag_member : Link → Link → NlBond Link → Outcome Link
  update_lag_member old_slave new_slave s = elim (find_link (get_master new_slave)) [
    | none ↦ some (einval, s)
    | some new_master ↦
        if not (get_master old_slave == get_master new_slave)
        then some (einval, s)
        else elim (bond_slave_get_state new_slave) [
          | none ↦ some (einval, s)
          | some new_state ↦ some (
            pos 0,
            (call swi
                (Call.lag_set_member_active (get_port_id links new_master s)
                  (get_port_id links new_slave s) (new_state == 0))
                s).1,
          )
        ]
  ]
