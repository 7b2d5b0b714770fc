-- ===== src/Vxlan/AccessPorts.antt =====
-- The access ports of tunnels: a VLAN of a port, as a port of a tenant.
use basebox.Prelude.{
  ℕ, zero, suc, Bool, true, false, not, ◌&&◌, ◌||◌, Option, none, some, ℤ, pos, is_neg, einval,
  find, emplace, erase, nat_key, pair_key, ◌==◌, if◌then◌else◌,
}
use basebox.Sai.{Call, SwitchInterface}
use basebox.Vxlan.Action.{Action, ◌>>=◌, ◌>>◌, pure, abort, gets, modify}
use basebox.Vxlan.State.{AccessTunnelPort, Network, NlVxlan, call, up}

abbrev pub invalid : AccessTunnelPort
invalid = record { lport_id = 0; tunnel_id = 0 }

module _ {L A : Type 0} where
  unfoldable pub lookup_access_port : ℕ → ℕ → NlVxlan L A → AccessTunnelPort
  lookup_access_port pport vlan s = elim (find (pport, vlan) s.access_port_ids) [
    | none ↦ invalid
    | some port ↦ port
  ]

  -- `get_access_tunnel_port`, which asserts that neither number is 0.
  unfoldable pub get_access_tunnel_port : ℕ → ℕ → Action (NlVxlan L A) AccessTunnelPort
  get_access_tunnel_port pport vlan =
      if pport == 0 || vlan == 0 then abort else gets (lookup_access_port pport vlan)

  unfoldable pub enter_access_port : ℕ → ℕ → ℕ → NlVxlan L A → NlVxlan L A
  enter_access_port pport vlan tunnel_id s = record s {
    access_port_ids =
        emplace (pport, vlan) (record { lport_id = s.port_id_cnt; tunnel_id = tunnel_id })
          s.access_port_ids;
    port_id_cnt = up s.port_id_cnt;
  }

  unfoldable pub drop_access_port : ℕ → ℕ → NlVxlan L A → NlVxlan L A
  drop_access_port pport vlan s = record s {
    access_port_ids = erase (pport, vlan) s.access_port_ids;
  }

-- The broadcast address.
abbrev pub any_address : ℕ
any_address = 0xffffffffffff

module _ {L A : Type 0} (net : Network L A) (swi : SwitchInterface) where
  open net use {is_bridge, unicast_flood}

  -- `nl_bridge::is_port_flooding`, which asserts that the link is one in AF_BRIDGE.
  unfoldable pub is_port_flooding : Option L → Action (NlVxlan L A) Bool
  is_port_flooding none = abort
  is_port_flooding (some br_link) =
      if is_bridge br_link then pure (unicast_flood br_link) else abort

  unfoldable pub enable_flooding : ℕ → ℕ → Action (NlVxlan L A) ℤ
  enable_flooding tunnel_id lport_id = do
    rv ← call swi (Call.add_l2_overlay_flood tunnel_id lport_id)
    pure (if is_neg rv then einval else rv)

  unfoldable pub disable_flooding : ℕ → ℕ → Action (NlVxlan L A) ℤ
  disable_flooding tunnel_id lport_id = do
    rv ← call swi (Call.del_l2_overlay_flood tunnel_id lport_id)
    pure (if is_neg rv then einval else rv)

  -- A call that is made again while it fails, so often at most.
  unfoldable pub retry : ℕ → Call → Action (NlVxlan L A) ℤ
  retry zero c = call swi c
  retry (suc n) c = do rv ← call swi c; if is_neg rv then retry n c else pure rv

  unfoldable pub wipe : AccessTunnelPort → Action (NlVxlan L A) ℤ
  wipe port = call swi (Call.l2_overlay_addr_remove port.tunnel_id port.lport_id any_address)

  -- An access port leaves the switch: what the switch answers is not looked at.
  unfoldable pub remove_access_port : L → AccessTunnelPort → Bool → Action (NlVxlan L A) ℤ
  remove_access_port br_link port wipe_l2_addresses = do
    if wipe_l2_addresses then wipe port else pure (pos 0)
    flooding ← is_port_flooding (some br_link)
    if flooding then disable_flooding port.tunnel_id port.lport_id else pure (pos 0)
    call swi (Call.tunnel_port_tenant_remove port.lport_id port.tunnel_id)
    call swi (Call.tunnel_port_delete port.lport_id)

  unfoldable pub delete_access_port : L → ℕ → ℕ → Bool → Action (NlVxlan L A) ℤ
  delete_access_port br_link pport_no vid wipe_l2_addresses = do
    known ← gets (λ s. find (pport_no, vid) s.access_port_ids)
    elim known [
      | none ↦ pure (pos 0)
      | some port ↦ do
        remove_access_port br_link port wipe_l2_addresses
        modify (drop_access_port pport_no vid)
        pure (pos 0)
    ]

  -- The port is flooded to, where the bridge does; else it is taken from its tenant again.
  unfoldable pub flood_access_port : L → ℕ → ℕ → ℕ → ℕ → Bool → Action (NlVxlan L A) ℤ
  flood_access_port br_link tunnel_id lport_id pport_no vid false = pure (pos 0)
  flood_access_port br_link tunnel_id lport_id pport_no vid true = do
    rv ← enable_flooding tunnel_id lport_id
    if is_neg rv
        then (do
          disable_flooding tunnel_id lport_id
          call swi (Call.tunnel_port_tenant_remove lport_id tunnel_id)
          delete_access_port br_link pport_no vid false
          pure rv)
        else pure rv

  -- The port that the switch has made joins its tenant.
  unfoldable pub join_tenant : L → ℕ → ℕ → ℕ → ℕ → Action (NlVxlan L A) ℤ
  join_tenant br_link tunnel_id lport_id pport_no vid = do
    rv ← call swi (Call.tunnel_port_tenant_add lport_id tunnel_id)
    if is_neg rv then (do delete_access_port br_link pport_no vid false; pure rv) else (do
      flooding ← is_port_flooding (some br_link)
      flood_access_port br_link tunnel_id lport_id pport_no vid flooding)

  -- The result and `*lport`; the call that makes the port is tried 50 times.
  unfoldable pub make_access_port : L → ℕ → ℕ → ℕ → Bool → Action (NlVxlan L A) (ℤ × Option ℕ)
  make_access_port br_link tunnel_id pport_no vid untagged = do
    call swi (Call.egress_bridge_port_vlan_remove pport_no vid)
    call swi (Call.ingress_port_vlan_remove pport_no vid untagged 0)
    lport_id ← gets (λ s. s.port_id_cnt)
    rv ← retry 49 (Call.tunnel_access_port_create lport_id pport_no vid untagged)
    if is_neg rv then pure (rv, none) else (do
      joined ← join_tenant br_link tunnel_id lport_id pport_no vid
      if is_neg joined
          then pure (joined, none)
          else (do modify (enter_access_port pport_no vid tunnel_id); pure (pos 0, some lport_id)))

  unfoldable pub create_access_port : L → ℕ → ℕ → ℕ → Bool → Action (NlVxlan L A) (ℤ × Option ℕ)
  create_access_port br_link tunnel_id pport_no vid untagged = do
    port ← get_access_tunnel_port pport_no vid
    if not (port.lport_id == 0 && port.tunnel_id == 0)
        then pure (einval, none)
        else make_access_port br_link tunnel_id pport_no vid untagged
