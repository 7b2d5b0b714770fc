-- ===== src/Vxlan/Vnis.antt =====
-- The tenants on the switch, one for each VNI.
use basebox.Prelude.{
  ℕ, Option, none, some, ℤ, pos, is_neg, einval, find, emplace, erase, nat_key, if◌then◌else◌,
}
use basebox.Sai.{Call, SwitchInterface}
use basebox.Vxlan.Action.{Action, ◌>>=◌, ◌>>◌, pure, gets, modify}
use basebox.Vxlan.State.{Network, NlVxlan, call, up}

module _ {L A : Type 0} where
  -- None for -EINVAL.
  unfoldable pub get_tunnel_id : ℕ → NlVxlan L A → Option ℕ
  get_tunnel_id vni s = find vni s.vni2tunnel

  unfoldable pub enter_vni : ℕ → ℕ → NlVxlan L A → NlVxlan L A
  enter_vni vni tunnel_id s = record s {
    vni2tunnel = emplace vni tunnel_id s.vni2tunnel;
    tunnel_id_cnt = up s.tunnel_id_cnt;
  }

  unfoldable pub drop_vni : ℕ → NlVxlan L A → NlVxlan L A
  drop_vni vni s = record s { vni2tunnel = erase vni s.vni2tunnel }

module _ {L A : Type 0} (net : Network L A) (swi : SwitchInterface) where
  open net use {is_vxlan, vxlan_id}

  -- The VNI and the tunnel of a link, none for -EINVAL.
  unfoldable pub get_tunnel_id_of_link : L → NlVxlan L A → Option (ℕ × ℕ)
  get_tunnel_id_of_link vxlan_link s = elim (vxlan_id vxlan_link) [
    | none ↦ none
    | some vni ↦ elim (get_tunnel_id vni s) [ none ↦ none | some tunnel_id ↦ some (vni, tunnel_id) ]
  ]

  -- A tenant is created for the VNI, and its tunnel enabled; else the tenant is deleted again.
  unfoldable pub create_tenant : ℕ → Action (NlVxlan L A) ℤ
  create_tenant vni = do
    tunnel_id ← gets (λ s. s.tunnel_id_cnt)
    rv ← call swi (Call.tunnel_tenant_create tunnel_id vni)
    if is_neg rv then pure einval else (do
      added ← call swi (Call.overlay_tunnel_add tunnel_id)
      if is_neg added
          then (do call swi (Call.tunnel_tenant_delete tunnel_id); pure einval)
          else (do modify (enter_vni vni tunnel_id); pure added))

  -- For a link without a VNI, `vni` stays 0.
  unfoldable pub create_vni : L → Action (NlVxlan L A) ℤ
  create_vni link =
      if is_vxlan link
      then elim (vxlan_id link) [
        | none ↦ create_tenant 0
        | some vni ↦ do
          known ← gets (get_tunnel_id vni)
          elim known [ some _ ↦ pure (pos 0) | none ↦ create_tenant vni ]
      ]
      else pure einval

  -- An error of overlay_tunnel_remove is only logged.
  unfoldable pub delete_tenant : ℕ → ℕ → Action (NlVxlan L A) ℤ
  delete_tenant vni tunnel_id = do
    call swi (Call.overlay_tunnel_remove tunnel_id)
    rv ← call swi (Call.tunnel_tenant_delete tunnel_id)
    if is_neg rv then pure rv else (do modify (drop_vni vni); pure (pos 0))

  unfoldable pub remove_vni : L → Action (NlVxlan L A) ℤ
  remove_vni link = elim (vxlan_id link) [
    | none ↦ pure einval
    | some vni ↦ do
      known ← gets (get_tunnel_id vni)
      elim known [ none ↦ pure einval | some tunnel_id ↦ delete_tenant vni tunnel_id ]
  ]
