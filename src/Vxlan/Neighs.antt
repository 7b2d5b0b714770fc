-- ===== src/Vxlan/Neighs.antt =====
-- The link layer addresses behind tunnels, and the messages that nl_vxlan is told of.
use basebox.Prelude.{
  ℕ, Bool, true, false, Option, none, some, ℤ, pos, is_neg, einval, ◌&&◌, ◌==◌, if◌then◌else◌,
}
use basebox.Sai.{Call, SwitchInterface}
use basebox.Vxlan.Action.{Action, ◌>>=◌, ◌>>◌, pure, abort, gets, modify}
use basebox.Vxlan.State.{
  EndpointPort, EndpointTunnelPort, Neigh, Network, Notice, NlVxlan, call, notify,
}
use basebox.Vxlan.Vnis.{get_tunnel_id_of_link}
use basebox.Vxlan.AccessPorts.{get_access_tunnel_port, is_port_flooding, enable_flooding}
use basebox.Vxlan.Endpoints.{
  vni_users, one_more, one_less, assign_endpoint, endpoint_of, lookup_endpoint, release_endpoint,
  delete_endpoint_port, add_l2_neigh_to_tunnel, create_endpoint_to,
}

module _ {L A : Type 0} (net : Network L A) (swi : SwitchInterface) where
  open net use {is_inet, is_zero, same_addr, vxlan_local, vxlan_group, vxlan_port}

  -- The remote address of a link, which has its endpoint already.
  unfoldable pub is_redundant : L → A → Bool
  is_redundant link remote = elim (vxlan_group link) [
    | none ↦ false
    | some group ↦ same_addr (some group) (some remote)
  ]

  -- One more use of an endpoint, which joins the tenant.
  unfoldable pub flood_if : Option L → ℕ → ℕ → ℤ → Action (NlVxlan L A) ℤ
  flood_if br_link tunnel_id lport rv = do
    flooding ← is_port_flooding net swi br_link
    if flooding then enable_flooding net swi tunnel_id lport else pure rv

  unfoldable pub share_endpoint :
      Option L → EndpointPort → EndpointTunnelPort → ℕ → ℕ → Action (NlVxlan L A) ℤ
  share_endpoint br_link ep e vni tunnel_id = do
    rv ← call swi (Call.tunnel_port_tenant_add e.lport_id tunnel_id)
    modify (assign_endpoint ep (one_more vni e))
    if is_neg rv then pure rv else flood_if br_link tunnel_id e.lport_id rv

  unfoldable pub tell_bridge : L → Option L → ℕ → ℤ → Action (NlVxlan L A) ℤ
  tell_bridge link br_link tunnel_id rv = do
    notify (Notice.update_access_ports link br_link tunnel_id true)
    pure rv

  unfoldable pub new_endpoint : L → Option L → A → ℕ → Action (NlVxlan L A) ℤ
  new_endpoint link br_link remote tunnel_id = do
    rv ← create_endpoint_to net swi link br_link remote
    tell_bridge link br_link tunnel_id rv

  -- The zero address stands for the endpoint itself. If one that is shared fails, the bridge is
  -- not told.
  unfoldable pub add_endpoint :
      L → Option L → A → A → ℕ → ℕ → Option EndpointTunnelPort → Action (NlVxlan L A) ℤ
  add_endpoint link br_link local remote vni tunnel_id none =
      new_endpoint link br_link remote tunnel_id
  add_endpoint link br_link local remote vni tunnel_id (some e) =
      if e.lport_id == 0 then new_endpoint link br_link remote tunnel_id else do
        rv ← share_endpoint br_link (endpoint_of net swi link local remote) e vni tunnel_id
        if is_neg rv then pure rv else tell_bridge link br_link tunnel_id rv

  -- An address behind an endpoint that is known.
  unfoldable pub add_behind :
      Neigh A → EndpointPort → ℕ → ℕ → Option EndpointTunnelPort → Action (NlVxlan L A) ℤ
  add_behind neigh ep vni tunnel_id none = pure einval
  add_behind neigh ep vni tunnel_id (some e) = do
    rv ← add_l2_neigh_to_tunnel net swi neigh e.lport_id tunnel_id
    if is_neg rv then pure rv else (do modify (assign_endpoint ep (one_more vni e)); pure rv)

  -- The entry is one for an endpoint or behind one, and the endpoint is looked up.
  unfoldable pub add_remote : Neigh A → L → Option L → A → A → Action (NlVxlan L A) ℤ
  add_remote neigh link br_link local remote = do
    tunnel ← gets (get_tunnel_id_of_link net swi link)
    elim tunnel [
      | none ↦ pure einval
      | some (vni, tunnel_id) ↦ do
        known ← lookup_endpoint net swi link local remote
        if is_zero neigh.lladdr
            then add_endpoint link br_link local remote vni tunnel_id known
            else add_behind neigh (endpoint_of net swi link local remote) vni tunnel_id known
    ]

  unfoldable pub add_on_vxlan : Neigh A → L → Option L → Action (NlVxlan L A) ℤ
  add_on_vxlan neigh link br_link = elim (vxlan_local link) [
    | none ↦ pure einval
    | some local ↦ elim neigh.dst [
      | none ↦ pure einval
      | some remote ↦
          if is_zero neigh.lladdr && is_redundant link remote
          then pure (pos 0)
          else add_remote neigh link br_link local remote
    ]
  ]

  unfoldable pub add_on_access_port : Neigh A → L → Action (NlVxlan L A) ℤ
  add_on_access_port neigh link =
      let pport = net.get_port_id_of_ifindex (net.get_ifindex link) in
      if pport == 0 then pure einval else do
        port ← get_access_tunnel_port pport neigh.vlan
        add_l2_neigh_to_tunnel net swi neigh port.lport_id port.tunnel_id

  -- The address of the link itself is ignored.
  unfoldable pub add_l2_neigh : Neigh A → L → Option L → Action (NlVxlan L A) ℤ
  add_l2_neigh neigh link br_link =
      if same_addr neigh.lladdr (net.get_addr link)
      then pure (pos 0)
      else if net.is_lt_vxlan link
      then add_on_vxlan neigh link br_link
      else add_on_access_port neigh link

  unfoldable pub delete_l2_neigh_of_tunnel : ℕ → Option A → Action (NlVxlan L A) ℤ
  delete_l2_neigh_of_tunnel tunnel_id neigh_mac =
      if tunnel_id == 0
      then pure einval
      else do call swi (Call.l2_overlay_addr_remove tunnel_id 0 (net.mac neigh_mac)); pure (pos 0)

  unfoldable pub delete_l2_neigh_access : L → ℕ → Option A → Action (NlVxlan L A) ℤ
  delete_l2_neigh_access link vlan neigh_mac =
      let pport = net.get_port_id_of_ifindex (net.get_ifindex link) in
      if pport == 0 then pure einval else do
        port ← get_access_tunnel_port pport vlan
        delete_l2_neigh_of_tunnel port.tunnel_id neigh_mac

  unfoldable pub release_behind : EndpointPort → EndpointTunnelPort → Action (NlVxlan L A) ℤ
  release_behind ep e = do release_endpoint net swi ep e (pos 0); pure (pos 0)

  -- An error of the tenant ends it; else the result is 0, also where the next hop is unknown.
  unfoldable pub leave_behind :
      EndpointPort → ℕ → ℕ → Option EndpointTunnelPort → Action (NlVxlan L A) ℤ
  leave_behind ep vni tunnel_id none = pure einval
  leave_behind ep vni tunnel_id (some e) = do
    modify (assign_endpoint ep (one_less vni e))
    if vni_users vni (one_less vni e).refcnt_vni == 0
        then (do
          rv ← call swi (Call.tunnel_port_tenant_remove e.lport_id tunnel_id)
          if is_neg rv then pure rv else release_behind ep (one_less vni e))
        else release_behind ep (one_less vni e)

  unfoldable pub delete_l2_neigh_endpoint : L → A → A → Option A → Action (NlVxlan L A) ℤ
  delete_l2_neigh_endpoint vxlan_link local remote neigh_mac = do
    tunnel ← gets (get_tunnel_id_of_link net swi vxlan_link)
    elim tunnel [
      | none ↦ pure einval
      | some (vni, tunnel_id) ↦ do
        rv ← delete_l2_neigh_of_tunnel tunnel_id neigh_mac
        if is_neg rv then pure einval else (do
          known ← lookup_endpoint net swi vxlan_link local remote
          leave_behind (endpoint_of net swi vxlan_link local remote) vni tunnel_id known)
    ]

  unfoldable pub delete_remote : Neigh A → L → A → A → Action (NlVxlan L A) ℤ
  delete_remote neigh link local dst =
      if is_zero neigh.lladdr
      then if is_redundant link dst
        then pure (pos 0)
        else delete_endpoint_port net swi link local dst
      else delete_l2_neigh_endpoint link local dst neigh.lladdr

  unfoldable pub delete_on_vxlan : Neigh A → L → Action (NlVxlan L A) ℤ
  delete_on_vxlan neigh link = elim (vxlan_local link) [
    | none ↦ pure einval
    | some local ↦
        if is_inet local
        then elim neigh.dst [
          | none ↦ pure einval
          | some dst ↦ do delete_remote neigh link local dst; pure (pos 0)
        ]
        else pure einval
  ]

  -- A VXLAN link without a port is fatal here.
  unfoldable pub delete_l2_neigh : Neigh A → L → Action (NlVxlan L A) ℤ
  delete_l2_neigh neigh link =
      if net.is_lt_vxlan link
      then elim (vxlan_port link) [ none ↦ abort | some _ ↦ delete_on_vxlan neigh link ]
      else do delete_l2_neigh_access link neigh.vlan neigh.lladdr; pure (pos 0)
