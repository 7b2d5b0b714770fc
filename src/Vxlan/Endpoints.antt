-- ===== src/Vxlan/Endpoints.antt =====
-- The endpoints of tunnels, with a count for each VNI and one for all.
use Prim.Native.Nat.{bit_and}
use basebox.Prelude.{
  ℕ, Bool, true, false, not, Option, none, some, ℤ, pos, is_neg, is_zero, negsuc, einval,
  eopnotsupp, Map, List, [], ◌∷◌, find, emplace, insert_or_assign, erase, nat_key, pair_key, ◌||◌,
  ◌==◌, if◌then◌else◌,
}
use basebox.Sai.{Call, SwitchInterface}
use basebox.Vxlan.Action.{Action, ◌>>=◌, ◌>>◌, pure, abort, gets, modify, last_result}
use basebox.Vxlan.State.{
  EndpointPort, EndpointTunnelPort, Neigh, Network, Notice, NlVxlan, call, notify, up, down,
}
use basebox.Vxlan.NextHops.{create_next_hop, delete_next_hop}
use basebox.Vxlan.Vnis.{get_tunnel_id_of_link}
use basebox.Vxlan.AccessPorts.{is_port_flooding, enable_flooding, disable_flooding}

-- `refcnt_vni[vni]`
unfoldable pub vni_users : ℕ → Map ℕ ℕ → ℕ
vni_users vni counts = elim (find vni counts) [ none ↦ 0 | some n ↦ n ]

-- `refcnt++; refcnt_vni[vni]++`, and both with `--`.
unfoldable pub one_more : ℕ → EndpointTunnelPort → EndpointTunnelPort
one_more vni e = record e {
  refcnt = up e.refcnt;
  refcnt_vni = insert_or_assign vni (up (vni_users vni e.refcnt_vni)) e.refcnt_vni;
}

unfoldable pub one_less : ℕ → EndpointTunnelPort → EndpointTunnelPort
one_less vni e = record e {
  refcnt = down e.refcnt;
  refcnt_vni = insert_or_assign vni (down (vni_users vni e.refcnt_vni)) e.refcnt_vni;
}

abbrev pub vxlan_port_default : ℕ
vxlan_port_default = 4789

unfoldable pub or_default : Option ℕ → ℕ
or_default none = vxlan_port_default
or_default (some port) = port

unfoldable pub ttl_or_default : ℕ → ℕ
ttl_or_default ttl = if ttl == 0 then 45 else ttl

module _ {L A : Type 0} where
  unfoldable pub assign_endpoint : EndpointPort → EndpointTunnelPort → NlVxlan L A → NlVxlan L A
  assign_endpoint ep e s = record s { endpoint_id = insert_or_assign ep e s.endpoint_id }

  unfoldable pub enter_endpoint : EndpointPort → ℕ → ℕ → NlVxlan L A → NlVxlan L A
  enter_endpoint ep nh_id vni s = record s {
    endpoint_id =
        emplace ep
          (record {
            refcnt = 1;
            lport_id = s.port_id_cnt;
            nh_id = nh_id;
            refcnt_vni = (vni, 1) ∷ [];
          })
          s.endpoint_id;
    port_id_cnt = up s.port_id_cnt;
  }

  unfoldable pub drop_endpoint : EndpointPort → NlVxlan L A → NlVxlan L A
  drop_endpoint ep s = record s { endpoint_id = erase ep s.endpoint_id }

module _ {L A : Type 0} (net : Network L A) (swi : SwitchInterface) where
  open net use {is_vxlan, is_inet, vxlan_id, vxlan_local, vxlan_group, vxlan_port}

  unfoldable pub endpoint_of : L → A → A → EndpointPort
  endpoint_of vxlan_link local remote =
      (net.ipv4 local, (net.ipv4 remote, or_default (vxlan_port vxlan_link)))

  -- `lookup_endpoint`, for a link with a VNI; else that is fatal.
  unfoldable pub lookup_endpoint : L → A → A → Action (NlVxlan L A) (Option EndpointTunnelPort)
  lookup_endpoint vxlan_link local remote = elim (vxlan_id vxlan_link) [
    | none ↦ abort
    | some _ ↦ gets (λ s. find (endpoint_of vxlan_link local remote) s.endpoint_id)
  ]

  -- The create_endpoint that makes the port of the endpoint, with `*lport_id`.
  unfoldable pub make_endpoint :
      EndpointPort → ℕ → ℕ → ℕ → Option EndpointTunnelPort → Action (NlVxlan L A) (ℤ × ℕ)
  make_endpoint ep ttl nh_id vni (some e) = do
    modify (assign_endpoint ep (one_more vni e))
    pure (pos 0, e.lport_id)
  make_endpoint (local, (remote, port)) ttl nh_id vni none = do
    lport_id ← gets (λ s. s.port_id_cnt)
    rv ←
        call swi (
          Call.tunnel_enpoint_create lport_id remote local ttl nh_id vxlan_port_default port 0 true)
    if is_zero rv
        then (do modify (enter_endpoint (local, (remote, port)) nh_id vni); pure (pos 0, lport_id))
        else pure (einval, 0)

  unfoldable pub create_endpoint_port : L → A → A → ℕ → Action (NlVxlan L A) (ℤ × ℕ)
  create_endpoint_port vxlan_link local remote nh_id = elim (vxlan_id vxlan_link) [
    | none ↦ abort
    | some vni ↦ do
      known ← gets (λ s. find (endpoint_of vxlan_link local remote) s.endpoint_id)
      make_endpoint (endpoint_of vxlan_link local remote)
          (ttl_or_default (net.vxlan_ttl vxlan_link)) nh_id vni known
  ]

  -- With the last user of all VNIs an endpoint goes with its next hop, whatever the switch answers.
  -- `rv` is the result so far.
  unfoldable pub release_endpoint : EndpointPort → EndpointTunnelPort → ℤ → Action (NlVxlan L A) ℤ
  release_endpoint ep e rv =
      if e.refcnt == 0
      then (do
        call swi (Call.tunnel_port_delete e.lport_id)
        r ← delete_next_hop net swi e.nh_id
        modify (drop_endpoint ep)
        pure r)
      else pure rv

  -- With the last user of a VNI the endpoint leaves its tenant; an error ends it there.
  unfoldable pub leave_tenant :
      EndpointPort → EndpointTunnelPort → ℕ → ℕ → ℤ → Action (NlVxlan L A) ℤ
  leave_tenant ep e vni tunnel_id rv =
      if vni_users vni e.refcnt_vni == 0
      then (do
        left ← call swi (Call.tunnel_port_tenant_remove e.lport_id tunnel_id)
        if is_neg left then pure left else release_endpoint ep e left)
      else release_endpoint ep e rv

  unfoldable pub leave_endpoint :
      EndpointPort → ℕ → ℕ → Option EndpointTunnelPort → Action (NlVxlan L A) ℤ
  leave_endpoint ep vni tunnel_id none = pure (pos 0)
  leave_endpoint ep vni tunnel_id (some e) = do
    modify (assign_endpoint ep (one_less vni e))
    disable_flooding net swi tunnel_id e.lport_id
    leave_tenant ep (one_less vni e) vni tunnel_id (pos 0)

  unfoldable pub delete_endpoint_port : L → A → A → Action (NlVxlan L A) ℤ
  delete_endpoint_port vxlan_link local remote = do
    tunnel ← gets (get_tunnel_id_of_link net swi vxlan_link)
    elim tunnel [
      | none ↦ pure einval
      | some (vni, tunnel_id) ↦ do
        known ← lookup_endpoint vxlan_link local remote
        leave_endpoint (endpoint_of vxlan_link local remote) vni tunnel_id known
    ]

  unfoldable pub delete_endpoint : L → Action (NlVxlan L A) ℤ
  delete_endpoint vxlan_link = elim (vxlan_local vxlan_link) [
    | none ↦ pure einval
    | some local ↦ elim (vxlan_group vxlan_link) [
      | none ↦ pure (pos 0)
      | some remote ↦ do delete_endpoint_port vxlan_link local remote; pure (pos 0)
    ]
  ]

  -- `state & (NUD_NOARP | NUD_PERMANENT)`
  unfoldable pub is_permanent : Neigh A → Bool
  is_permanent neigh = not (bit_and neigh.state 0xc0 == 0)

  -- The add_l2_neigh for a port of a tunnel.
  unfoldable pub add_l2_neigh_to_tunnel : Neigh A → ℕ → ℕ → Action (NlVxlan L A) ℤ
  add_l2_neigh_to_tunnel neigh lport tunnel_id =
      if lport == 0 || tunnel_id == 0 then pure einval else do
        call swi
            (Call.l2_overlay_addr_add lport tunnel_id (net.mac neigh.lladdr) (is_permanent neigh))
        pure (pos 0)

  -- The endpoint is flooded to, where the bridge does; else it is deleted again.
  unfoldable pub flood_endpoint : L → A → A → ℕ → ℕ → ℕ → Bool → Action (NlVxlan L A) ℤ
  flood_endpoint vxlan_link local remote nh_id lport_id tunnel_id false = pure (pos 0)
  flood_endpoint vxlan_link local remote nh_id lport_id tunnel_id true = do
    rv ← enable_flooding net swi tunnel_id lport_id
    if is_neg rv
        then (do
          disable_flooding net swi tunnel_id lport_id
          call swi (Call.tunnel_port_tenant_remove lport_id tunnel_id)
          delete_endpoint_port vxlan_link local remote
          delete_next_hop net swi nh_id
          pure rv)
        else pure rv

  unfoldable pub is_flooding : Option L → Action (NlVxlan L A) Bool
  is_flooding none = pure false
  is_flooding (some br_link) = is_port_flooding net swi (some br_link)

  unfoldable pub ignore_zero : List (Neigh A) → List (Neigh A)
  ignore_zero [] = []
  ignore_zero (n ∷ ns) = if net.is_zero n.lladdr then ignore_zero ns else n ∷ ignore_zero ns

  -- The addresses behind the endpoint, but for zero addresses.
  unfoldable pub neighs_behind : L → A → List (Neigh A)
  neighs_behind vxlan_link remote = ignore_zero (net.neighs_to (net.get_ifindex vxlan_link) remote)

  unfoldable pub join_tunnel : L → Option L → A → A → ℕ → ℕ → ℕ → Action (NlVxlan L A) ℤ
  join_tunnel vxlan_link br_link local remote nh_id lport_id tunnel_id = do
    rv ← call swi (Call.tunnel_port_tenant_add lport_id tunnel_id)
    if is_neg rv
        then (do
          delete_endpoint_port vxlan_link local remote
          delete_next_hop net swi nh_id
          pure einval)
        else (do
          flooding ← is_flooding br_link
          flooded ← flood_endpoint vxlan_link local remote nh_id lport_id tunnel_id flooding
          last_result (λ n. add_l2_neigh_to_tunnel n lport_id tunnel_id)
              (if flooding then flooded else rv) (neighs_behind vxlan_link remote))

  unfoldable pub join_endpoint : L → Option L → A → A → ℕ → ℕ → Action (NlVxlan L A) ℤ
  join_endpoint vxlan_link br_link local remote nh_id tunnel_id = do
    (rv, lport_id) ← create_endpoint_port vxlan_link local remote nh_id
    if is_neg rv
        then (do delete_next_hop net swi nh_id; pure einval)
        else join_tunnel vxlan_link br_link local remote nh_id lport_id tunnel_id

  -- `rv == -ENETUNREACH`
  unfoldable pub no_route : ℤ → Bool
  no_route rv = elim rv [ pos n ↦ false | negsuc n ↦ n == 100 ]

  unfoldable pub connect : L → Option L → A → A → Action (NlVxlan L A) ℤ
  connect vxlan_link br_link local remote = do
    (rv, nh_id) ← create_next_hop net swi vxlan_link remote
    if no_route rv
        then (do
          notify (Notice.notify_on_net_reachable remote (net.get_ifindex vxlan_link))
          pure rv)
        else if is_neg rv
        then pure rv
        else (do
          tunnel ← gets (get_tunnel_id_of_link net swi vxlan_link)
          elim tunnel [
            | none ↦ pure einval
            | some (vni, tunnel_id) ↦ join_endpoint vxlan_link br_link local remote nh_id tunnel_id
          ])

  -- create_endpoint for a remote address.
  unfoldable pub create_endpoint_to : L → Option L → A → Action (NlVxlan L A) ℤ
  create_endpoint_to vxlan_link br_link remote =
      if is_inet remote
      then elim (vxlan_local vxlan_link) [
        | none ↦ pure einval
        | some local ↦
            if is_inet local then connect vxlan_link br_link local remote else pure einval
      ]
      else pure einval

  -- create_endpoint for the remote address of the link; an error of it is dropped.
  unfoldable pub create_endpoint : L → Option L → Action (NlVxlan L A) ℤ
  create_endpoint vxlan_link br_link =
      if is_vxlan vxlan_link
      then elim (vxlan_group vxlan_link) [
        | none ↦ pure (pos 0)
        | some remote ↦
            if is_inet remote
            then (do create_endpoint_to vxlan_link br_link remote; pure (pos 0))
            else pure eopnotsupp
      ]
      else pure einval
