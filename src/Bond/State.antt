-- ===== src/Bond/State.antt =====
-- The fields of class nl_bond, what it asks of cnetlink and libnl, and its readers; the lookup of
-- port ids in src/netlink/cnetlink.cc rests on them.
use basebox.Prelude.{
  ℕ, Bool, List, [], ◌∷◌, Option, none, some, ℤ, Map, find, nat_key, ltb, ◌==◌, if◌then◌else◌,
}
use basebox.Sai.{Call, Log, SwitchInterface}

-- What libnl and the port manager say. A link is a handle; interface indices are positive, and 0
-- stands for no interface.
pub record Links : Type 1 where
  pub Link : Type 0
  pub get_ifindex : Link → ℕ
  pub is_vlan : Link → Bool
  pub get_link_of : Link → ℕ
  pub get_master : Link → ℕ
  pub find_link : ℕ → Option Link
  -- The link as a bridge port, `nl->get_link(ifindex, AF_BRIDGE)`.
  pub find_bridge_port : ℕ → Option Link
  -- The mode of a bond and the state of a member; none if libnl cannot tell.
  pub bond_get_mode : Link → Option ℕ
  pub bond_slave_get_state : Link → Option ℕ
  -- `port_man->get_port_id`
  pub registered_port : ℕ → ℕ

-- What nl_bond asks cnetlink to do.
pub data Notice (L : Type 0) : Type 0 where
  link_created : L → Notice L

pub record NlBond (L : Type 0) : Type 0 where
  pub ifi2lag : Map ℕ ℕ
  pub lag_members : Map ℕ (List ℕ)
  pub notices : List (Notice L)
  pub log : Log

-- The result of a method and the object after it; none where the source aborts or its behaviour is
-- undefined.
abbrev pub Outcome : Type 0 → Type 0
Outcome L = Option (ℤ × NlBond L)

abbrev pub call : {L : Type 0} → SwitchInterface → Call → NlBond L → ℤ × NlBond L
call swi c s = let rv = swi.answer s.log c in (rv, record s { log = (c, rv) ∷ s.log })

module _ (links : Links) where
  open links use {Link, get_ifindex, is_vlan, get_link_of, registered_port}

  -- The overload by interface index.
  unfoldable pub get_lag_id : ℕ → NlBond Link → ℕ
  get_lag_id ifindex s = elim (find ifindex s.ifi2lag) [ none ↦ 0 | some lag_id ↦ lag_id ]

  unfoldable pub get_members_by_port_id : ℕ → NlBond Link → List ℕ
  get_members_by_port_id port_id s = elim (find port_id s.lag_members) [
    | none ↦ []
    | some members ↦ members
  ]

  unfoldable pub get_members : Link → NlBond Link → List ℕ
  get_members bond s = elim (find (get_ifindex bond) s.ifi2lag) [
    | none ↦ []
    | some lag_id ↦ elim (find lag_id s.lag_members) [ none ↦ [] | some members ↦ members ]
  ]

  -- cnetlink::get_port_id by interface index
  unfoldable pub get_port_id_of_ifindex : ℕ → NlBond Link → ℕ
  get_port_id_of_ifindex ifindex s =
      if ifindex == 0
      then 0
      else if ltb 0 (registered_port ifindex)
      then registered_port ifindex
      else get_lag_id ifindex s

  -- cnetlink::get_port_id by link
  unfoldable pub get_port_id : Link → NlBond Link → ℕ
  get_port_id link s =
      get_port_id_of_ifindex (if is_vlan link then get_link_of link else get_ifindex link) s
