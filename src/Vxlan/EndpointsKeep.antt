-- ===== src/Vxlan/EndpointsKeep.antt =====
-- The actions on endpoints keep next hops and endpoints consistent.
use basebox.Prelude.{
  ℕ, ◌≡◌, refl, Bool, true, false, none, some, ℤ, pos, is_neg, is_zero, einval, eopnotsupp, find,
  nat_key, pair_key, ◌==◌, ◌||◌, if◌then◌else◌, Option,
}
use basebox.Sai.{Call, SwitchInterface}
use basebox.Vxlan.Action.{Action, ◌>>=◌, gets, modify}
use basebox.Vxlan.State.{EndpointPort, EndpointTunnelPort, Neigh, Network, NlVxlan}
use basebox.Vxlan.Vnis.{get_tunnel_id_of_link}
use basebox.Vxlan.Endpoints.{
  vni_users, one_more, one_less, ttl_or_default, assign_endpoint, enter_endpoint, drop_endpoint,
  endpoint_of, lookup_endpoint, make_endpoint, create_endpoint_port, release_endpoint, leave_tenant,
  leave_endpoint, delete_endpoint_port, delete_endpoint, add_l2_neigh_to_tunnel, flood_endpoint,
  is_flooding, neighs_behind, join_tunnel, join_endpoint, no_route, connect, create_endpoint_to,
  create_endpoint, vxlan_port_default,
}
use basebox.Vxlan.Counts.{IsBalanced, one_more-IsBalanced, one_less-IsBalanced}
use basebox.Vxlan.Yields.{
  bind-Yields, abort-Yields, gets-Yields, option-Yields, modify-Keeps, last_result-Keeps,
}
use basebox.Vxlan.Consistent.{
  assign_endpoint-IsConsistent, enter_endpoint-IsConsistent, drop_endpoint-IsConsistent,
}
use basebox.Vxlan.Steady.{
  Steady, called-Steady, notify-Steady, pure-Steady, abort-Steady, then-Steady, read-Steady,
  if-Steady, option-Steady,
}
use basebox.Vxlan.NextHopsKeep.{create_next_hop-Steady, delete_next_hop-Steady}
use basebox.Vxlan.PortsKeep.{
  is_port_flooding-Steady, enable_flooding-Steady, disable_flooding-Steady,
}

-- An endpoint that is there has counts that add up.
unfoldable pub IsFair : Option EndpointTunnelPort → Type 0
IsFair known = (e : EndpointTunnelPort) → known ≡ some e → IsBalanced e

pub assign-Steady :
    (L A : Type 0) (ep : EndpointPort) (e : EndpointTunnelPort)
    → IsBalanced e
    → Steady {L = L} {A = A} (modify (assign_endpoint ep e))
assign-Steady L A ep e fair =
    modify-Keeps _ (assign_endpoint ep e) (λ s h. assign_endpoint-IsConsistent ep e s fair h)

module _ {L A : Type 0} where
  -- What is looked up is fair.
  pub lookup-Steady :
      (ep : EndpointPort) {B : Type 0} (f : Option EndpointTunnelPort → Action (NlVxlan L A) B)
      → ((known : Option EndpointTunnelPort) → IsFair known → Steady (f known))
      → Steady (gets (λ s. find ep s.endpoint_id) >>= f)
  unfolding IsFair
  lookup-Steady ep f hf =
      bind-Yields _ IsFair _ _ f
        (gets-Yields _ IsFair (λ s. find ep s.endpoint_id) (λ s h e at. h.balanced ep e at)) hf

module _ {L A : Type 0} (net : Network L A) (swi : SwitchInterface) where
  make_endpoint-Steady :
      (ep : EndpointPort) (ttl nh_id vni : ℕ) (known : Option EndpointTunnelPort)
      → IsFair known
      → Steady (make_endpoint net swi ep ttl nh_id vni known)
  unfolding make_endpoint IsFair
  make_endpoint-Steady ep ttl nh_id vni (some e) fair =
      then-Steady _ _
        (assign-Steady L A ep (one_more vni e) (one_more-IsBalanced vni e (fair e refl)))
        (λ a. pure-Steady L A (pos 0, e.lport_id))
  make_endpoint-Steady (local, (remote, port)) ttl nh_id vni none fair =
      read-Steady (λ s. s.port_id_cnt) _
        (λ lport_id.
          called-Steady swi
            (Call.tunnel_enpoint_create lport_id remote local ttl nh_id vxlan_port_default port 0
              true)
            _
            (λ rv.
              if-Steady (is_zero rv) _ _
                (then-Steady _ _
                  (modify-Keeps _ (enter_endpoint (local, (remote, port)) nh_id vni)
                    (λ s h. enter_endpoint-IsConsistent (local, (remote, port)) nh_id vni s h))
                  (λ a. pure-Steady L A (pos 0, lport_id)))
                (pure-Steady L A (einval, 0))))

  create_endpoint_port-Steady :
      (vxlan_link : L) (local remote : A) (nh_id : ℕ)
      → Steady (create_endpoint_port net swi vxlan_link local remote nh_id)
  unfolding create_endpoint_port
  create_endpoint_port-Steady vxlan_link local remote nh_id =
      let ep = endpoint_of net swi vxlan_link local remote in
      option-Steady (net.vxlan_id vxlan_link) _ _ (abort-Steady L A (ℤ × ℕ)) (λ vni.
        lookup-Steady ep _ (λ known fair.
          make_endpoint-Steady ep (ttl_or_default (net.vxlan_ttl vxlan_link)) nh_id vni known fair))

  pub release_endpoint-Steady :
      (ep : EndpointPort) (e : EndpointTunnelPort) (rv : ℤ)
      → Steady (release_endpoint net swi ep e rv)
  unfolding release_endpoint
  release_endpoint-Steady ep e rv =
      if-Steady (e.refcnt == 0) _ _
        (called-Steady swi _ _ (λ deleted.
          then-Steady _ _ (delete_next_hop-Steady net swi e.nh_id) (λ r.
            then-Steady _ _
              (modify-Keeps _ (drop_endpoint ep) (λ s h. drop_endpoint-IsConsistent ep s h))
              (λ a. pure-Steady L A r))))
        (pure-Steady L A rv)

  leave_tenant-Steady :
      (ep : EndpointPort) (e : EndpointTunnelPort) (vni tunnel_id : ℕ) (rv : ℤ)
      → Steady (leave_tenant net swi ep e vni tunnel_id rv)
  unfolding leave_tenant
  leave_tenant-Steady ep e vni tunnel_id rv =
      if-Steady (vni_users vni e.refcnt_vni == 0) _ _
        (called-Steady swi _ _ (λ left.
          if-Steady (is_neg left) _ _ (pure-Steady L A left) (release_endpoint-Steady ep e left)))
        (release_endpoint-Steady ep e rv)

  leave_endpoint-Steady :
      (ep : EndpointPort) (vni tunnel_id : ℕ) (known : Option EndpointTunnelPort)
      → IsFair known
      → Steady (leave_endpoint net swi ep vni tunnel_id known)
  unfolding leave_endpoint IsFair
  leave_endpoint-Steady ep vni tunnel_id none fair = pure-Steady L A (pos 0)
  leave_endpoint-Steady ep vni tunnel_id (some e) fair =
      then-Steady _ _
        (assign-Steady L A ep (one_less vni e) (one_less-IsBalanced vni e (fair e refl)))
        (λ a.
          then-Steady _ _ (disable_flooding-Steady net swi tunnel_id e.lport_id)
            (λ rv. leave_tenant-Steady ep (one_less vni e) vni tunnel_id (pos 0)))

  -- Fairness is had from the lookup, which a link without a VNI does not get to.
  pub looked_up-Steady :
      (vxlan_link : L) (local remote : A) {B : Type 0}
      (f : Option EndpointTunnelPort → Action (NlVxlan L A) B)
      → ((known : Option EndpointTunnelPort) → IsFair known → Steady (f known))
      → Steady (lookup_endpoint net swi vxlan_link local remote >>= f)
  unfolding lookup_endpoint IsFair
  looked_up-Steady vxlan_link local remote f hf =
      bind-Yields _ IsFair _ _ f
        (option-Yields _ IsFair (net.vxlan_id vxlan_link) _ _ (abort-Yields _ IsFair) (λ vni its.
          gets-Yields _ IsFair
            (λ s. find (endpoint_of net swi vxlan_link local remote) s.endpoint_id)
            (λ s h e at. h.balanced (endpoint_of net swi vxlan_link local remote) e at)))
        hf

  pub delete_endpoint_port-Steady :
      (vxlan_link : L) (local remote : A)
      → Steady (delete_endpoint_port net swi vxlan_link local remote)
  unfolding delete_endpoint_port
  delete_endpoint_port-Steady vxlan_link local remote =
      read-Steady (get_tunnel_id_of_link net swi vxlan_link) _ (λ tunnel.
        option-Steady tunnel _ _ (pure-Steady L A einval) (λ (vni, tunnel_id).
          looked_up-Steady vxlan_link local remote _ (λ known fair.
            leave_endpoint-Steady (endpoint_of net swi vxlan_link local remote) vni tunnel_id known
              fair)))

  pub delete_endpoint-Steady : (vxlan_link : L) → Steady (delete_endpoint net swi vxlan_link)
  unfolding delete_endpoint
  delete_endpoint-Steady vxlan_link =
      option-Steady (net.vxlan_local vxlan_link) _ _ (pure-Steady L A einval) (λ local.
        option-Steady (net.vxlan_group vxlan_link) _ _ (pure-Steady L A (pos 0)) (λ remote.
          then-Steady _ _ (delete_endpoint_port-Steady vxlan_link local remote)
            (λ rv. pure-Steady L A (pos 0))))

  pub add_l2_neigh_to_tunnel-Steady :
      (neigh : Neigh A) (lport tunnel_id : ℕ)
      → Steady (add_l2_neigh_to_tunnel net swi neigh lport tunnel_id)
  unfolding add_l2_neigh_to_tunnel
  add_l2_neigh_to_tunnel-Steady neigh lport tunnel_id =
      if-Steady (lport == 0 || tunnel_id == 0) _ _ (pure-Steady L A einval)
        (called-Steady swi _ _ (λ rv. pure-Steady L A (pos 0)))

  flood_endpoint-Steady :
      (vxlan_link : L) (local remote : A) (nh_id lport_id tunnel_id : ℕ) (flooding : Bool)
      → Steady (flood_endpoint net swi vxlan_link local remote nh_id lport_id tunnel_id flooding)
  unfolding flood_endpoint
  flood_endpoint-Steady vxlan_link local remote nh_id lport_id tunnel_id false =
      pure-Steady L A (pos 0)
  flood_endpoint-Steady vxlan_link local remote nh_id lport_id tunnel_id true =
      then-Steady _ _ (enable_flooding-Steady net swi tunnel_id lport_id) (λ rv.
        if-Steady (is_neg rv) _ _
          (then-Steady _ _ (disable_flooding-Steady net swi tunnel_id lport_id) (λ disabled.
            called-Steady swi _ _ (λ left.
              then-Steady _ _ (delete_endpoint_port-Steady vxlan_link local remote) (λ deleted.
                then-Steady _ _ (delete_next_hop-Steady net swi nh_id)
                  (λ gone. pure-Steady L A rv)))))
          (pure-Steady L A rv))

  is_flooding-Steady : (br_link : Option L) → Steady (is_flooding net swi br_link)
  unfolding is_flooding
  is_flooding-Steady none = pure-Steady L A false
  is_flooding-Steady (some br_link) = is_port_flooding-Steady net swi (some br_link)

  join_tunnel-Steady :
      (vxlan_link : L) (br_link : Option L) (local remote : A) (nh_id lport_id tunnel_id : ℕ)
      → Steady (join_tunnel net swi vxlan_link br_link local remote nh_id lport_id tunnel_id)
  unfolding join_tunnel
  join_tunnel-Steady vxlan_link br_link local remote nh_id lport_id tunnel_id =
      called-Steady swi _ _ (λ rv.
        if-Steady (is_neg rv) _ _
          (then-Steady _ _ (delete_endpoint_port-Steady vxlan_link local remote) (λ deleted.
            then-Steady _ _ (delete_next_hop-Steady net swi nh_id)
              (λ gone. pure-Steady L A einval)))
          (then-Steady _ _ (is_flooding-Steady br_link) (λ flooding.
            then-Steady _ _
              (flood_endpoint-Steady vxlan_link local remote nh_id lport_id tunnel_id flooding)
              (λ flooded.
                last_result-Keeps _ _ (λ n. add_l2_neigh_to_tunnel-Steady n lport_id tunnel_id)
                  (if flooding then flooded else rv) (neighs_behind net swi vxlan_link remote)))))

  connect-Steady :
      (vxlan_link : L) (br_link : Option L) (local remote : A)
      → Steady (connect net swi vxlan_link br_link local remote)
  unfolding connect join_endpoint
  connect-Steady vxlan_link br_link local remote =
      then-Steady _ _ (create_next_hop-Steady net swi vxlan_link remote) (λ (rv, nh_id).
        if-Steady (no_route net swi rv) _ _
          (then-Steady _ _ (notify-Steady _) (λ told. pure-Steady L A rv))
          (if-Steady (is_neg rv) _ _ (pure-Steady L A rv) (
            read-Steady (get_tunnel_id_of_link net swi vxlan_link) _ (λ tunnel.
              option-Steady tunnel _ _ (pure-Steady L A einval) (λ (vni, tunnel_id).
                then-Steady _ _ (create_endpoint_port-Steady vxlan_link local remote nh_id)
                  (λ (made, lport_id).
                    if-Steady (is_neg made) _ _
                      (then-Steady _ _ (delete_next_hop-Steady net swi nh_id)
                        (λ gone. pure-Steady L A einval))
                      (join_tunnel-Steady vxlan_link br_link local remote nh_id lport_id
                        tunnel_id)))))))

  pub create_endpoint_to-Steady :
      (vxlan_link : L) (br_link : Option L) (remote : A)
      → Steady (create_endpoint_to net swi vxlan_link br_link remote)
  unfolding create_endpoint_to
  create_endpoint_to-Steady vxlan_link br_link remote =
      if-Steady (net.is_inet remote) _ _
        (option-Steady (net.vxlan_local vxlan_link) _ _ (pure-Steady L A einval) (λ local.
          if-Steady (net.is_inet local) _ _ (connect-Steady vxlan_link br_link local remote)
            (pure-Steady L A einval)))
        (pure-Steady L A einval)

  pub create_endpoint-Steady :
      (vxlan_link : L) (br_link : Option L) → Steady (create_endpoint net swi vxlan_link br_link)
  unfolding create_endpoint
  create_endpoint-Steady vxlan_link br_link =
      if-Steady (net.is_vxlan vxlan_link) _ _
        (option-Steady (net.vxlan_group vxlan_link) _ _ (pure-Steady L A (pos 0)) (λ remote.
          if-Steady (net.is_inet remote) _ _
            (then-Steady _ _ (create_endpoint_to-Steady vxlan_link br_link remote)
              (λ rv. pure-Steady L A (pos 0)))
            (pure-Steady L A eopnotsupp)))
        (pure-Steady L A einval)
