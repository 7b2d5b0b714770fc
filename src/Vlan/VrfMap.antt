-- ===== src/Vlan/VrfMap.antt =====
-- The map from VLANs to VRFs under vrf_attach and vrf_detach.
use basebox.Prelude.{
  ℕ, ◌≡◌, ◌≢◌, inl, inr, true, some, arith, find, nat_key, find-erase, find-emplace, ◌==◌,
  if◌then◌else◌, Option-cases, for_each,
}
use basebox.Sai.{SwitchInterface}
use basebox.Vlan.State.{Cnetlink, NlVlan, get_vrf_id, get_vid}
use basebox.Vlan.Frame.{Keeps, for_each-Keeps, add_ingress_vlan-Keeps, remove_ingress_vlan-Keeps}
use basebox.Vlan.Ingress.{add_ingress_vlan, remove_ingress_vlan}
use basebox.Vlan.Vrf.{attached_vrf, record_vrf, vrf_attach, vrf_detach}

module _ (nl : Cnetlink) (swi : SwitchInterface) where
  -- Both loops over the forwarding entries leave the maps alone.
  moved : ℕ → ℕ → ℕ → NlVlan → NlVlan
  moved vid from to s =
      let cleared =
        for_each (λ port. remove_ingress_vlan nl swi port vid true from) (nl.search_fdb vid) s in
      (for_each (λ port. add_ingress_vlan nl swi port vid true to) (nl.search_fdb vid) cleared.1).1

  moved-Keeps : (vid from to : ℕ) (s : NlVlan) → Keeps s (moved vid from to s)
  unfolding moved
  moved-Keeps vid from to s =
      let cleared =
        for_each (λ port. remove_ingress_vlan nl swi port vid true from) (nl.search_fdb vid) s in
      ground (
        arith,
        for_each-Keeps (λ port. remove_ingress_vlan nl swi port vid true from) (nl.search_fdb vid) s
            (λ port t. remove_ingress_vlan-Keeps nl swi port vid true from t),
        for_each-Keeps (λ port. add_ingress_vlan nl swi port vid true to) (nl.search_fdb vid)
            cleared.1 (λ port t. add_ingress_vlan-Keeps nl swi port vid true to t),
      )

  module _ (old_link new_link : nl.Link) (s : NlVlan) (named : get_vid nl new_link ≢ 0) where
    -- Unless the VLAN of a link is recorded under VRF 0, attaching it gives it the VRF that it has or, if it
    -- has none, that of the link's master; other VLANs keep theirs.
    get_vrf_id-vrf_attach :
        (other : ℕ)
        → find (get_vid nl new_link) s.vlan_vrf ≢ some 0
        → get_vrf_id other (vrf_attach nl swi old_link new_link s).1 ≡ (
            if other == get_vid nl new_link
            then attached_vrf nl swi (get_vid nl new_link) new_link s
            else get_vrf_id other s)
    unfolding vrf_attach record_vrf get_vrf_id attached_vrf moved
    get_vrf_id-vrf_attach other h =
        let vid = get_vid nl new_link in
        ground (
          arith,
          moved-Keeps vid 0 (attached_vrf nl swi vid new_link s) (record_vrf nl swi vid new_link s),
          find-emplace vid other (nl.get_vrf_table_id new_link) s.vlan_vrf,
        )

    -- A VLAN that was once recorded under VRF 0 stays there, whatever VRF its link joins.
    pub vrf_attach_stuck :
        find (get_vid nl new_link) s.vlan_vrf ≡ some 0
        → get_vrf_id (get_vid nl new_link) (vrf_attach nl swi old_link new_link s).1 ≡ 0
    unfolding vrf_attach record_vrf get_vrf_id attached_vrf moved
    vrf_attach_stuck e =
        let vid = get_vid nl new_link in
        ground (
          arith,
          moved-Keeps vid 0 (attached_vrf nl swi vid new_link s) (record_vrf nl swi vid new_link s),
          find-emplace vid vid (nl.get_vrf_table_id new_link) s.vlan_vrf,
        )

    -- Detaching takes the VLAN out of its VRF, and no other.
    get_vrf_id-vrf_detach :
        (other : ℕ)
        → get_vrf_id other (vrf_detach nl swi old_link new_link s).1
          ≡ (if other == get_vid nl new_link then 0 else get_vrf_id other s)
    unfolding vrf_detach get_vrf_id moved
    get_vrf_id-vrf_detach other = elim (Option-cases (find (get_vid nl new_link) s.vlan_vrf)) [
      | inl e ↦ ground arith
      | inr (vrf, e) ↦ ground (
        arith,
        moved-Keeps (get_vid nl new_link) vrf 0 s,
        find-erase (get_vid nl new_link) other s.vlan_vrf,
      )
    ]
