-- ===== src/Vlan/State.antt =====
-- The fields of class nl_vlan, what it asks of class cnetlink, and its simple readers
-- (src/netlink/nl_vlan.h; get_vid and get_vrf_id of src/netlink/nl_vlan.cc).
use basebox.Prelude.{
  ℕ, Bool, true, false, not, ◌&&◌, ◌||◌, List, ◌∷◌, none, some, ℤ, Map, find, nat_key, ltb, ◌==◌,
  if◌then◌else◌, Method,
}
use basebox.Sai.{Call, Log, SwitchInterface}

-- What nl_vlan reads through its `cnetlink *nl`, libnl and the flag `port_untagged_vid`. A link is a
-- handle (`rtnl_link *`); a set of ports is listed in increasing order.
pub record Cnetlink : Type 1 where
  pub Link : Type 0
  pub get_port_id : Link → ℕ
  pub is_bridge_interface : Link → Bool
  pub get_bond_members_by_port_id : ℕ → List ℕ
  pub get_vrf_table_id : Link → ℕ
  -- The ports of the devices that the forwarding entries of a VLAN name, 0 for an unknown one.
  pub search_fdb : ℕ → List ℕ
  pub is_bridge : Link → Bool
  pub is_vlan : Link → Bool
  pub vlan_get_id : Link → ℕ
  -- The link has a master, and the kernel lists the link as a bridge port.
  pub has_master : Link → Bool
  pub is_bridge_port : Link → Bool
  pub port_untagged_vid : ℕ

-- `bridge_vlan` maps a port and a VLAN to the outer VLAN, 0 for none, and whether it is tagged.
pub record NlVlan : Type 0 where
  pub port_vlan : Map (ℕ × ℕ) ℕ
  pub vlan_vrf : Map ℕ ℕ
  pub bridge_vlan : Map ℕ (Map ℕ (ℕ × Bool))
  pub port_pvid : Map ℕ ℕ
  pub log : Log

-- `swi->c`
abbrev pub call : SwitchInterface → Call → Method NlVlan ℤ
call swi c s = let rv = swi.answer s.log c in (rv, record s { log = (c, rv) ∷ s.log })

abbrev pub vid_low : ℕ
vid_low = 1

abbrev pub vid_high : ℕ
vid_high = 0xfff

unfoldable pub is_vid_valid : ℕ → Bool
is_vid_valid vid = if ltb vid vid_low || ltb vid_high vid then false else true

unfoldable pub get_vrf_id : ℕ → NlVlan → ℕ
get_vrf_id vid s = elim (find vid s.vlan_vrf) [ none ↦ 0 | some vrf ↦ vrf ]

unfoldable pub get_vid : (nl : Cnetlink) → nl.Link → ℕ
get_vid nl link =
    if not (nl.is_bridge_interface link) && (nl.get_port_id link == 0)
    then 0
    else if nl.is_bridge link
    then nl.port_untagged_vid
    else if nl.is_vlan link
    then nl.vlan_get_id link
    else nl.port_untagged_vid
