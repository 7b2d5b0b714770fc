-- ===== src/Vlan/MemberPvid.antt =====
-- What a port that joins a bond is told of the VLANs of the bond.
use basebox.Prelude.{
  ℕ, ◌≡◌, ◌≢◌, refl, inl, inr, ◌⊎◌, Bool, true, false, not, ◌||◌, ◌&&◌, [], ◌∷◌, some, is_neg,
  arith, Map, find, nat_key, ◌==◌, for_each,
}
use basebox.Sai.{SwitchInterface, Call}
use basebox.Vlan.State.{Cnetlink, NlVlan, get_vrf_id, call}
use basebox.Vlan.Entries.{Entry, installed}
use basebox.Vlan.Frame.{Keeps}
use basebox.Vlan.Member.{pvid_of, attach_bridge_vlan, for_bridge_vlans, bond_member_attached}

-- The VLAN stands among the entries, with no outer VLAN.
unfoldable pub has_plain : ℕ → Map ℕ (ℕ × Bool) → Bool
has_plain vid [] = false
has_plain vid ((v, (outer, tagged)) ∷ m) = v == vid && outer == 0 || has_plain vid m

module _ (nl : Cnetlink) (swi : SwitchInterface)
    (willing : (l : _) (c : Call) → is_neg (swi.answer l c) ≡ false)
    (port_id pvid vid vrf_id : ℕ) where
  attach_bridge_vlan-Keeps :
      (entry : ℕ × (ℕ × Bool)) (s : NlVlan)
      → Keeps s (attach_bridge_vlan nl swi port_id pvid entry s).1
  unfolding attach_bridge_vlan
  attach_bridge_vlan-Keeps (v, (outer, tagged)) s = ground arith

  attach_bridge_vlan_mono :
      (e : Entry) (entry : ℕ × (ℕ × Bool)) (s : NlVlan)
      → installed e s.log ≡ true
      → installed e (attach_bridge_vlan nl swi port_id pvid entry s).1.log ≡ true
  unfolding attach_bridge_vlan installed
  attach_bridge_vlan_mono (Entry.ingress p v u r) (w, (outer, tagged)) s h = ground arith
  attach_bridge_vlan_mono (Entry.egress p v) (w, (outer, tagged)) s h = ground arith

  -- The last call for a VLAN with no outer VLAN.
  attach_plain :
      (w outer : ℕ) (tagged : Bool) (s : NlVlan)
      → pvid ≢ 0
      → get_vrf_id vid s ≡ vrf_id
      → w == vid && outer == 0 ≡ true
      → installed
          (Entry.ingress port_id vid true vrf_id)
          (attach_bridge_vlan nl swi port_id pvid (w, (outer, tagged)) s).1.log
        ≡ true
  unfolding attach_bridge_vlan installed get_vrf_id
  attach_plain w outer tagged s p v h =
      let first = call swi (Call.egress_bridge_port_vlan_add port_id w (not tagged)) s in
      let second =
        call swi (Call.ingress_port_vlan_add port_id w (w == pvid) (get_vrf_id w s)) first.1 in
      ground (
        arith,
        willing second.1.log
            (Call.ingress_port_vlan_add port_id w (not (pvid == 0)) (get_vrf_id w s)),
      )

  kept :
      (w outer : ℕ) (tagged : Bool) (s : NlVlan)
      → get_vrf_id vid s ≡ vrf_id
      → get_vrf_id vid (attach_bridge_vlan nl swi port_id pvid (w, (outer, tagged)) s).1 ≡ vrf_id
  unfolding get_vrf_id
  kept w outer tagged s v = ground (arith, attach_bridge_vlan-Keeps (w, (outer, tagged)) s)

  attach_all :
      (m : Map ℕ (ℕ × Bool)) (s : NlVlan)
      → pvid ≢ 0
      → get_vrf_id vid s ≡ vrf_id
      → (has_plain vid m ≡ true) ⊎ (installed (Entry.ingress port_id vid true vrf_id) s.log ≡ true)
      → installed
          (Entry.ingress port_id vid true vrf_id)
          (for_each (attach_bridge_vlan nl swi port_id pvid) m s).1.log
        ≡ true
  unfolding for_each has_plain
  attach_all [] s p v (inl h) = cc
  attach_all [] s p v (inr h) = h
  attach_all ((w, (outer, tagged)) ∷ m) s p v h =
      let t = (attach_bridge_vlan nl swi port_id pvid (w, (outer, tagged)) s).1 in
      ground (
        arith,
        attach_plain w outer tagged s,
        attach_bridge_vlan_mono (Entry.ingress port_id vid true vrf_id) (w, (outer, tagged)) s,
        attach_all m t p (kept w outer tagged s v),
      )

-- Once a bridged bond has a PVID, a port that joins it gets each plain VLAN of the bond as its
-- PVID, the other VLANs included, on a switch that does what it is told.
pub bond_member_attached_pvid :
    (nl : Cnetlink) (swi : SwitchInterface)
    (willing : (l : _) (c : Call) → is_neg (swi.answer l c) ≡ false) (bond member : nl.Link)
    (vid pvid : ℕ) (vlans : Map ℕ (ℕ × Bool)) (s : NlVlan)
    → nl.get_port_id bond ≢ 0
    → nl.get_port_id member ≢ 0
    → nl.has_master bond ≡ true
    → nl.is_bridge_port bond ≡ true
    → find (nl.get_port_id bond) s.bridge_vlan ≡ some vlans
    → find (nl.get_port_id bond) s.port_pvid ≡ some pvid
    → pvid ≢ 0
    → has_plain vid vlans ≡ true
    → installed
        (Entry.ingress (nl.get_port_id member) vid true (get_vrf_id vid s))
        (bond_member_attached nl swi bond member s).1.log
      ≡ true
unfolding bond_member_attached for_bridge_vlans pvid_of
bond_member_attached_pvid nl swi willing bond member vid pvid vlans s b m master port found
      configured p h =
    ground (
      arith,
      attach_all nl swi willing (nl.get_port_id member) pvid vid (get_vrf_id vid s) vlans s p refl
          (inl h),
    )
