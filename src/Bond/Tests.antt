-- ===== src/Bond/Tests.antt =====
-- The theorems about nl_bond at concrete inputs. Links are interface indices: 10 is a bond, 1 to 3
-- are ports.
use basebox.Prelude.{
  ℕ, ◌≡◌, refl, true, false, [], ◌∷◌, none, some, pos, arith, find, emplace, insert_or_assign,
  erase, nat_key, ltb, if◌then◌else◌, contains, add,
}
use basebox.Sai.{Call, SwitchInterface}
use basebox.Bond.State.{
  Links, NlBond, get_lag_id, get_members_by_port_id, get_port_id, get_port_id_of_ifindex,
}
use basebox.Bond.Methods.{
  join, announce, enter_lag, add_lag, add_lag_member, program_member, is_active, remove_lag_member,
}
use basebox.Bond.Lags.{add_lag-get_lag_id}
use basebox.Bond.Members.{add_lag_member-members, remove_lag_member_empties}

abbrev links : Links
links = record {
  Link = ℕ;
  get_ifindex = λ l. l;
  is_vlan = λ l. false;
  get_link_of = λ l. 0;
  get_master = λ l. 0;
  find_link = λ i. none;
  find_bridge_port = λ i. none;
  bond_get_mode = λ l. some 1;
  bond_slave_get_state = λ l. some 0;
  registered_port = λ i. if ltb i 10 then i else 0;
}

-- Every call succeeds, and each LAG gets the id 0x20001.
abbrev swi : SwitchInterface
swi = record { answer = λ l c. pos 0; created_id = λ l c. 0x20001 }

abbrev empty : NlBond ℕ
empty = record { ifi2lag = []; lag_members = []; notices = []; log = [] }

-- Bond 10 stands for a LAG with the members 1 and 2.
abbrev two_members : NlBond ℕ
two_members = record empty {
  ifi2lag = (10, 0x20001) ∷ [];
  lag_members = (0x20001, 1 ∷ 2 ∷ []) ∷ [];
}

abbrev after_add_lag : NlBond ℕ
after_add_lag = record empty { ifi2lag = (10, 0x20001) ∷ []; log = (Call.lag_create 1, pos 0) ∷ [] }

add_lag-get_lag_id_example :
    (pos 0x20001 ≡ pos (get_lag_id links 10 after_add_lag))
    × (find 10 after_add_lag.ifi2lag ≡ some 0x20001)
unfolding add_lag enter_lag announce find emplace insert_or_assign
add_lag-get_lag_id_example =
    add_lag-get_lag_id links swi 10 empty after_add_lag 1 (pos 0x20001) 10 refl refl refl

abbrev after_remove_lag : NlBond ℕ
after_remove_lag = record two_members { ifi2lag = []; log = (Call.lag_remove 0x20001, pos 0) ∷ [] }

abbrev three_members : NlBond ℕ
three_members = record two_members {
  lag_members = (0x20001, 1 ∷ 2 ∷ 3 ∷ []) ∷ [];
  log =
      (Call.lag_set_member_active 0x20001 3 true, pos 0)
      ∷ (Call.lag_add_member 0x20001 3, pos 0)
      ∷ [];
}

add_lag_member-members_example :
    contains 3 (get_members_by_port_id links 0x20001 three_members) ≡ true
unfolding add_lag_member program_member join is_active get_port_id get_port_id_of_ifindex find add
    insert_or_assign
add_lag_member-members_example =
    add_lag_member-members links swi 10 3 two_members three_members (pos 0) 0x20001 0x20001 3 refl
      (omega arith) refl

abbrev after_remove_member : NlBond ℕ
after_remove_member = record two_members {
  lag_members = [];
  log = (Call.lag_remove_member 0x20001 1, pos 0) ∷ [];
}

-- Member 2 is lost with member 1.
remove_lag_member_empties_example : get_members_by_port_id links 0x20001 after_remove_member ≡ []
unfolding remove_lag_member get_port_id get_port_id_of_ifindex find erase
remove_lag_member_empties_example =
    remove_lag_member_empties links swi 10 1 two_members after_remove_member (pos 0) 0x20001 0x20001
      refl (omega arith) refl
