-- ===== src/Vlan/Fixtures.antt =====
-- Concrete worlds for the tests. A link is its port's number; bond 0x20001 has the ports 1 and 2 as
-- members.
use basebox.Prelude.{
  ℕ, true, false, [], ◌∷◌, ℤ, pos, einval, ◌==◌, if◌then◌else◌, nat_key, pair_key,
}
use basebox.Sai.{Call, SwitchInterface}
use basebox.Vlan.State.{Cnetlink, NlVlan}

abbrev pub bond : ℕ
bond = 0x20001

abbrev pub net : Cnetlink
net = record {
  Link = ℕ;
  get_port_id = λ l. l;
  is_bridge_interface = λ l. false;
  get_bond_members_by_port_id = λ p. 1 ∷ 2 ∷ [];
  get_vrf_table_id = λ l. 10;
  search_fdb = λ vid. 1 ∷ [];
  is_bridge = λ l. false;
  is_vlan = λ l. false;
  vlan_get_id = λ l. 0;
  has_master = λ l. true;
  is_bridge_port = λ l. true;
  port_untagged_vid = 1;
}

-- A switch that does all, and one that refuses each egress entry of port 2.
abbrev pub willing : SwitchInterface
willing = record { answer = λ l c. pos 0; created_id = λ l c. 0 }

abbrev pub refuses : Call → ℤ
refuses (Call.egress_port_vlan_add p v u update) = if p == 2 then einval else pos 0
refuses (Call.egress_bridge_port_vlan_add p v u) = if p == 2 then einval else pos 0
refuses _ = pos 0

abbrev pub refusing : SwitchInterface
refusing = record { answer = λ l c. refuses c; created_id = λ l c. 0 }

abbrev pub empty : NlVlan
empty = record { port_vlan = []; vlan_vrf = []; bridge_vlan = []; port_pvid = []; log = [] }

-- Port 9 has VLAN 7 already.
abbrev pub before : NlVlan
before = record empty { log = (Call.egress_port_vlan_add 9 7 true false, pos 0) ∷ [] }

-- Two users of VLAN 5 on port 3.
abbrev pub shared : NlVlan
shared = record empty { port_vlan = ((3, 5), 2) ∷ [] }

-- Port 3 has VLAN 5, and VLAN 6 as its PVID.
abbrev pub configured : NlVlan
configured = record empty {
  bridge_vlan = (3, (5, (0, true)) ∷ (6, (0, false)) ∷ []) ∷ [];
  port_pvid = (3, 6) ∷ [];
}

-- The bond likewise.
abbrev pub bonded : NlVlan
bonded = record empty {
  bridge_vlan = (bond, (5, (0, true)) ∷ (6, (0, false)) ∷ []) ∷ [];
  port_pvid = (bond, 6) ∷ [];
}

-- VLAN 1 recorded under VRF 0, and in VRF 4.
abbrev pub under_zero : NlVlan
under_zero = record empty { vlan_vrf = (1, 0) ∷ [] }

abbrev pub in_vrf : NlVlan
in_vrf = record empty { vlan_vrf = (1, 4) ∷ [] }
