-- ===== src/Vlan/Vrf.antt =====
-- VLANs in VRFs: `vlan_vrf`, and the ingress entries that carry the VRF.
use basebox.Prelude.{
  ℕ, true, none, some, find, emplace, erase, nat_key, ◌==◌, if◌then◌else◌, Method, ◌>>◌, modify,
  for_each,
}
use basebox.Sai.{SwitchInterface}
use basebox.Vlan.State.{Cnetlink, NlVlan, get_vrf_id, get_vid}
use basebox.Vlan.Ingress.{add_ingress_vlan, remove_ingress_vlan}

module _ (nl : Cnetlink) (swi : SwitchInterface) where
  open nl use {Link, get_vrf_table_id, search_fdb}

  -- The VRF that the VLAN gets. A table that is not found, 0, is recorded too.
  unfoldable pub attached_vrf : ℕ → Link → NlVlan → ℕ
  attached_vrf vid new_link s =
      if get_vrf_id vid s == 0 then get_vrf_table_id new_link else get_vrf_id vid s

  unfoldable pub record_vrf : ℕ → Link → NlVlan → NlVlan
  record_vrf vid new_link s =
      if get_vrf_id vid s == 0
      then record s { vlan_vrf = emplace vid (get_vrf_table_id new_link) s.vlan_vrf }
      else s

  -- `old_link` is not read.
  unfoldable pub vrf_attach : Link → Link → Method NlVlan (Unit {0})
  vrf_attach old_link new_link s =
      let vid = get_vid nl new_link in
      let vrf = attached_vrf vid new_link s in
      if vid == 0
      then (tt, s)
      else (do
        modify (record_vrf vid new_link)
        for_each (λ port. remove_ingress_vlan nl swi port vid true 0) (search_fdb vid)
        for_each (λ port. add_ingress_vlan nl swi port vid true vrf) (search_fdb vid))
          s

  unfoldable pub vrf_detach : Link → Link → Method NlVlan (Unit {0})
  vrf_detach old_link new_link s =
      let vid = get_vid nl new_link in
      if vid == 0 then (tt, s) else elim (find vid s.vlan_vrf) [
        | none ↦ (tt, s)
        | some vrf ↦
            (do
              for_each (λ port. remove_ingress_vlan nl swi port vid true vrf) (search_fdb vid)
              for_each (λ port. add_ingress_vlan nl swi port vid true 0) (search_fdb vid)
              modify (λ t. record t { vlan_vrf = erase vid t.vlan_vrf }))
              s
      ]
