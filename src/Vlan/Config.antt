-- ===== src/Vlan/Config.antt =====
-- What add_bridge_vlan and remove_bridge_vlan do to `bridge_vlan` and `port_pvid`.
use basebox.Prelude.{
  ℕ, ◌≡◌, ◌≢◌, inl, inr, Bool, true, false, ◌&&◌, [], ◌∷◌, Option, none, some, ℤ, pos, is_neg,
  arith, Map, find, emplace, erase, nat_key, find-insert_or_assign, find-erase, find-emplace, ◌==◌,
  if◌then◌else◌, Option-cases, until_error,
}
use basebox.Sai.{SwitchInterface}
use basebox.Vlan.State.{Cnetlink, NlVlan, is_vid_valid, get_vrf_id}
use basebox.Vlan.Frame.{
  Keeps, for_each-Keeps, until_error-Keeps, program_bridge_port-Keeps, clear_bridge_port-Keeps,
}
use basebox.Vlan.Bridge.{
  record_vlan, record_pvid, erase_or_drop, forget_vlan, forget_pvid, outer_vid_of, all_ports,
  program_bridge_port, clear_bridge_port, add_bridge_vlan, remove_bridge_vlan,
}

-- The outer VLAN and the tagging of a VLAN on a port.
abbrev pub config : ℕ → ℕ → NlVlan → Option (ℕ × Bool)
config port vid s = elim (find port s.bridge_vlan) [ none ↦ none | some vlans ↦ find vid vlans ]

config-record_vlan :
    (port_id vid outer_vid : ℕ) (tagged : Bool) (s : NlVlan) (port other : ℕ)
    → config port other (record_vlan port_id vid outer_vid tagged s) ≡ (
        if port == port_id && other == vid
        then elim (config port other s) [ none ↦ some (outer_vid, tagged) | some c ↦ some c ]
        else config port other s)
unfolding record_vlan find
config-record_vlan port_id vid outer_vid tagged s port other =
    elim (Option-cases (find port_id s.bridge_vlan)) [
      | inl e ↦
          ground (arith, find-emplace port_id port ((vid, (outer_vid, tagged)) ∷ []) s.bridge_vlan)
      | inr (vlans, e) ↦ ground (
        arith,
        find-insert_or_assign port_id port
            (elim (find vid vlans) [
              | none ↦ emplace vid (outer_vid, tagged) vlans
              | some _ ↦ vlans
            ])
            s.bridge_vlan,
        find-emplace vid other (outer_vid, tagged) vlans,
      )
    ]

config-erase_or_drop :
    (port_id port other : ℕ) (left : Map ℕ (ℕ × Bool)) (m : Map ℕ (Map ℕ (ℕ × Bool)))
    → (elim (find port (erase_or_drop port_id left m)) [
      | none ↦ none
      | some vlans ↦ find other vlans
    ])
      ≡ (if port == port_id
          then find other left
          else elim (find port m) [ none ↦ none | some vlans ↦ find other vlans ])
unfolding erase_or_drop find
config-erase_or_drop port_id port other [] m = ground (arith, find-erase port_id port m)
config-erase_or_drop port_id port other (e ∷ left) m =
    ground (arith, find-insert_or_assign port_id port (e ∷ left) m)

config-forget_vlan :
    (port_id vid : ℕ) (s : NlVlan) (port other : ℕ)
    → config port other (forget_vlan port_id vid s)
      ≡ (if port == port_id && other == vid then none else config port other s)
unfolding forget_vlan
config-forget_vlan port_id vid s port other = elim (Option-cases (find port_id s.bridge_vlan)) [
  | inl e ↦ ground arith
  | inr (vlans, e) ↦ ground (
    arith,
    config-erase_or_drop port_id port other (erase vid vlans) s.bridge_vlan,
    find-erase vid other vlans,
  )
]

module _ (nl : Cnetlink) (swi : SwitchInterface) (link : nl.Link) (vid : ℕ) (pvid tagged : Bool)
    (valid : is_vid_valid vid ≡ true) (known : nl.get_port_id link ≢ 0) where
  -- The two maps after a removal, before the switch is told.
  forgotten : NlVlan → NlVlan
  forgotten s = forget_pvid (nl.get_port_id link) pvid (forget_vlan (nl.get_port_id link) vid s)

  -- The two maps after an addition, before the switch is told.
  recorded : NlVlan → NlVlan
  recorded s =
      record_pvid (nl.get_port_id link) vid pvid
        (record_vlan (nl.get_port_id link) vid (outer_vid_of nl swi link) tagged s)

  programmed : NlVlan → ℤ × NlVlan
  programmed s =
      until_error
        (program_bridge_port nl swi vid (outer_vid_of nl swi link) pvid tagged (get_vrf_id vid s))
        (pos 0) (all_ports nl swi (nl.get_port_id link)) (recorded s)

  remove_bridge_vlan-Keeps :
      (s : NlVlan) → Keeps (forgotten s) (remove_bridge_vlan nl swi link vid pvid tagged s).1
  unfolding remove_bridge_vlan forgotten
  remove_bridge_vlan-Keeps s = ground (
    arith,
    for_each-Keeps (clear_bridge_port nl swi vid (outer_vid_of nl swi link) pvid (get_vrf_id vid s))
        (all_ports nl swi (nl.get_port_id link)) (forgotten s)
        (clear_bridge_port-Keeps nl swi vid (outer_vid_of nl swi link) pvid (get_vrf_id vid s)),
  )

  programmed-Keeps : (s : NlVlan) → Keeps (recorded s) (programmed s).1
  unfolding programmed
  programmed-Keeps s =
      until_error-Keeps
        (program_bridge_port nl swi vid (outer_vid_of nl swi link) pvid tagged (get_vrf_id vid s))
        (pos 0) (all_ports nl swi (nl.get_port_id link)) (recorded s)
        (program_bridge_port-Keeps nl swi vid (outer_vid_of nl swi link) pvid tagged
          (get_vrf_id vid s))

  -- A removal of a valid VLAN takes it off a known port, whatever it was, and leaves all other VLANs as they are.
  pub config-remove_bridge_vlan :
      (s : NlVlan) (port other : ℕ)
      → config port other (remove_bridge_vlan nl swi link vid pvid tagged s).1
        ≡ (if port == nl.get_port_id link && other == vid then none else config port other s)
  unfolding forgotten forget_pvid
  config-remove_bridge_vlan s port other =
      ground (
        arith,
        remove_bridge_vlan-Keeps s,
        config-forget_vlan (nl.get_port_id link) vid s port other,
      )

  -- A removal of a valid VLAN from a known port, with `pvid`, takes the PVID of the port away,
  -- whichever VLAN that was; no other PVID goes.
  pvid-remove_bridge_vlan :
      (s : NlVlan) (port : ℕ)
      → find port (remove_bridge_vlan nl swi link vid pvid tagged s).1.port_pvid
        ≡ (if pvid && port == nl.get_port_id link then none else find port s.port_pvid)
  unfolding forgotten forget_pvid forget_vlan
  pvid-remove_bridge_vlan s port =
      ground (arith, remove_bridge_vlan-Keeps s, find-erase (nl.get_port_id link) port s.port_pvid)

  add_bridge_vlan_ok :
      (s : NlVlan)
      → is_neg (add_bridge_vlan nl swi link vid pvid tagged s).0 ≡ false
      → add_bridge_vlan nl swi link vid pvid tagged s ≡ programmed s
  unfolding add_bridge_vlan programmed recorded
  add_bridge_vlan_ok s ok = ground arith

  add_bridge_vlan_failed :
      (s : NlVlan)
      → is_neg (add_bridge_vlan nl swi link vid pvid tagged s).0 ≡ true
      → (add_bridge_vlan nl swi link vid pvid tagged s).1
        ≡ (remove_bridge_vlan nl swi link vid pvid tagged (programmed s).1).1
  unfolding add_bridge_vlan programmed recorded
  add_bridge_vlan_failed s failed = ground arith

  -- A successful addition of a valid VLAN to a known port records the VLAN with its outer VLAN and its tagging unless the port has
  -- it already, and leaves all other VLANs as they are.
  pub config-add_bridge_vlan :
      (s : NlVlan) (port other : ℕ)
      → is_neg (add_bridge_vlan nl swi link vid pvid tagged s).0 ≡ false
      → config port other (add_bridge_vlan nl swi link vid pvid tagged s).1 ≡ (
          if port == nl.get_port_id link && other == vid
          then elim (config port other s) [
            | none ↦ some (outer_vid_of nl swi link, tagged)
            | some c ↦ some c
          ]
          else config port other s)
  unfolding recorded record_pvid
  config-add_bridge_vlan s port other ok = ground (
    arith,
    add_bridge_vlan_ok s ok,
    programmed-Keeps s,
    config-record_vlan (nl.get_port_id link) vid (outer_vid_of nl swi link) tagged s port other,
  )

  -- A failed addition of a valid VLAN leaves a known port without the VLAN in `bridge_vlan` and, if it
  -- was to be the PVID, without any PVID; the other VLANs in `bridge_vlan` and the other PVIDs, of every
  -- port, are as before.
  pub add_bridge_vlan_undone :
      (s : NlVlan) (port other : ℕ)
      → is_neg (add_bridge_vlan nl swi link vid pvid tagged s).0 ≡ true
      → let t = (add_bridge_vlan nl swi link vid pvid tagged s).1 in
        (config port other t
          ≡ (if port == nl.get_port_id link && other == vid then none else config port other s))
        × (find port t.port_pvid
            ≡ (if pvid && port == nl.get_port_id link then none else find port s.port_pvid))
  unfolding recorded record_pvid record_vlan
  add_bridge_vlan_undone s port other failed =
      let undone = (programmed s).1 in
      (
        ground (
          arith,
          add_bridge_vlan_failed s failed,
          config-remove_bridge_vlan undone port other,
          programmed-Keeps s,
          config-record_vlan (nl.get_port_id link) vid (outer_vid_of nl swi link) tagged s port
              other,
        ),
        ground (
          arith,
          add_bridge_vlan_failed s failed,
          pvid-remove_bridge_vlan undone port,
          programmed-Keeps s,
          find-emplace (nl.get_port_id link) port vid s.port_pvid,
        ),
      )
