-- ===== src/Vxlan/NeighsKeep.antt =====
-- The actions on addresses behind tunnels keep next hops and endpoints consistent.
use basebox.Prelude.{
  ℕ, refl, ◌&&◌, none, some, ℤ, pos, is_neg, einval, Option, nat_key, pair_key, ◌==◌,
}
use basebox.Sai.{Call, SwitchInterface}
use basebox.Vxlan.State.{EndpointPort, EndpointTunnelPort, Neigh, Network}
use basebox.Vxlan.Vnis.{get_tunnel_id_of_link}
use basebox.Vxlan.Endpoints.{vni_users, one_more, one_less, endpoint_of}
use basebox.Vxlan.Neighs.{
  is_redundant, flood_if, share_endpoint, tell_bridge, new_endpoint, add_endpoint, add_behind,
  add_remote, add_on_vxlan, add_on_access_port, add_l2_neigh, delete_l2_neigh_of_tunnel,
  delete_l2_neigh_access, release_behind, leave_behind, delete_l2_neigh_endpoint, delete_remote,
  delete_on_vxlan, delete_l2_neigh,
}
use basebox.Vxlan.Counts.{one_more-IsBalanced, one_less-IsBalanced}
use basebox.Vxlan.Steady.{
  Steady, called-Steady, notify-Steady, pure-Steady, abort-Steady, then-Steady, read-Steady,
  if-Steady, option-Steady,
}
use basebox.Vxlan.PortsKeep.{
  is_port_flooding-Steady, enable_flooding-Steady, get_access_tunnel_port-Steady,
}
use basebox.Vxlan.EndpointsKeep.{
  IsFair, assign-Steady, looked_up-Steady, release_endpoint-Steady, delete_endpoint_port-Steady,
  add_l2_neigh_to_tunnel-Steady, create_endpoint_to-Steady,
}

module _ {L A : Type 0} (net : Network L A) (swi : SwitchInterface) where
  share_endpoint-Steady :
      (br_link : Option L) (ep : EndpointPort) (e : EndpointTunnelPort) (vni tunnel_id : ℕ)
      → IsFair (some e)
      → Steady (share_endpoint net swi br_link ep e vni tunnel_id)
  unfolding share_endpoint flood_if IsFair
  share_endpoint-Steady br_link ep e vni tunnel_id fair = called-Steady swi _ _ (λ rv.
      then-Steady _ _
        (assign-Steady L A ep (one_more vni e) (one_more-IsBalanced vni e (fair e refl)))
        (λ a. if-Steady (is_neg rv) _ _ (pure-Steady L A rv) (
          then-Steady _ _ (is_port_flooding-Steady net swi br_link) (λ flooding.
            if-Steady flooding _ _ (enable_flooding-Steady net swi tunnel_id e.lport_id)
              (pure-Steady L A rv)))))

  tell_bridge-Steady :
      (link : L) (br_link : Option L) (tunnel_id : ℕ) (rv : ℤ)
      → Steady (tell_bridge net swi link br_link tunnel_id rv)
  unfolding tell_bridge
  tell_bridge-Steady link br_link tunnel_id rv =
      then-Steady _ _ (notify-Steady _) (λ told. pure-Steady L A rv)

  new_endpoint-Steady :
      (link : L) (br_link : Option L) (remote : A) (tunnel_id : ℕ)
      → Steady (new_endpoint net swi link br_link remote tunnel_id)
  unfolding new_endpoint
  new_endpoint-Steady link br_link remote tunnel_id =
      then-Steady _ _ (create_endpoint_to-Steady net swi link br_link remote)
        (tell_bridge-Steady link br_link tunnel_id)

  add_endpoint-Steady :
      (link : L) (br_link : Option L) (local remote : A) (vni tunnel_id : ℕ)
      (known : Option EndpointTunnelPort)
      → IsFair known
      → Steady (add_endpoint net swi link br_link local remote vni tunnel_id known)
  unfolding add_endpoint
  add_endpoint-Steady link br_link local remote vni tunnel_id none fair =
      new_endpoint-Steady link br_link remote tunnel_id
  add_endpoint-Steady link br_link local remote vni tunnel_id (some e) fair =
      if-Steady (e.lport_id == 0) _ _ (new_endpoint-Steady link br_link remote tunnel_id) (
        then-Steady _ _
          (share_endpoint-Steady br_link (endpoint_of net swi link local remote) e vni tunnel_id
            fair)
          (λ rv.
            if-Steady (is_neg rv) _ _ (pure-Steady L A rv)
              (tell_bridge-Steady link br_link tunnel_id rv)))

  add_behind-Steady :
      (neigh : Neigh A) (ep : EndpointPort) (vni tunnel_id : ℕ) (known : Option EndpointTunnelPort)
      → IsFair known
      → Steady (add_behind net swi neigh ep vni tunnel_id known)
  unfolding add_behind IsFair
  add_behind-Steady neigh ep vni tunnel_id none fair = pure-Steady L A einval
  add_behind-Steady neigh ep vni tunnel_id (some e) fair =
      then-Steady _ _ (add_l2_neigh_to_tunnel-Steady net swi neigh e.lport_id tunnel_id) (λ rv.
        if-Steady (is_neg rv) _ _ (pure-Steady L A rv) (
          then-Steady _ _
            (assign-Steady L A ep (one_more vni e) (one_more-IsBalanced vni e (fair e refl)))
            (λ a. pure-Steady L A rv)))

  add_remote-Steady :
      (neigh : Neigh A) (link : L) (br_link : Option L) (local remote : A)
      → Steady (add_remote net swi neigh link br_link local remote)
  unfolding add_remote
  add_remote-Steady neigh link br_link local remote =
      read-Steady (get_tunnel_id_of_link net swi link) _ (λ tunnel.
        option-Steady tunnel _ _ (pure-Steady L A einval) (λ (vni, tunnel_id).
          looked_up-Steady net swi link local remote _ (λ known fair.
            if-Steady (net.is_zero neigh.lladdr) _ _
              (add_endpoint-Steady link br_link local remote vni tunnel_id known fair)
              (add_behind-Steady neigh (endpoint_of net swi link local remote) vni tunnel_id known
                fair))))

  pub add_l2_neigh-Steady :
      (neigh : Neigh A) (link : L) (br_link : Option L)
      → Steady (add_l2_neigh net swi neigh link br_link)
  unfolding add_l2_neigh add_on_vxlan add_on_access_port
  add_l2_neigh-Steady neigh link br_link =
      let pport = net.get_port_id_of_ifindex (net.get_ifindex link) in
      if-Steady (net.same_addr neigh.lladdr (net.get_addr link)) _ _ (pure-Steady L A (pos 0)) (
        if-Steady (net.is_lt_vxlan link) _ _
          (option-Steady (net.vxlan_local link) _ _ (pure-Steady L A einval) (λ local.
            option-Steady neigh.dst _ _ (pure-Steady L A einval) (λ remote.
              if-Steady (net.is_zero neigh.lladdr && is_redundant net swi link remote) _ _
                (pure-Steady L A (pos 0)) (add_remote-Steady neigh link br_link local remote))))
          (if-Steady (pport == 0) _ _ (pure-Steady L A einval) (
            then-Steady _ _ (get_access_tunnel_port-Steady net swi pport neigh.vlan)
              (λ port. add_l2_neigh_to_tunnel-Steady net swi neigh port.lport_id port.tunnel_id))))

  delete_l2_neigh_of_tunnel-Steady :
      (tunnel_id : ℕ) (neigh_mac : Option A)
      → Steady (delete_l2_neigh_of_tunnel net swi tunnel_id neigh_mac)
  unfolding delete_l2_neigh_of_tunnel
  delete_l2_neigh_of_tunnel-Steady tunnel_id neigh_mac =
      if-Steady (tunnel_id == 0) _ _ (pure-Steady L A einval)
        (called-Steady swi _ _ (λ rv. pure-Steady L A (pos 0)))

  delete_l2_neigh_access-Steady :
      (link : L) (vlan : ℕ) (neigh_mac : Option A)
      → Steady (delete_l2_neigh_access net swi link vlan neigh_mac)
  unfolding delete_l2_neigh_access
  delete_l2_neigh_access-Steady link vlan neigh_mac =
      let pport = net.get_port_id_of_ifindex (net.get_ifindex link) in
      if-Steady (pport == 0) _ _ (pure-Steady L A einval) (
        then-Steady _ _ (get_access_tunnel_port-Steady net swi pport vlan)
          (λ port. delete_l2_neigh_of_tunnel-Steady port.tunnel_id neigh_mac))

  leave_behind-Steady :
      (ep : EndpointPort) (vni tunnel_id : ℕ) (known : Option EndpointTunnelPort)
      → IsFair known
      → Steady (leave_behind net swi ep vni tunnel_id known)
  unfolding leave_behind release_behind IsFair
  leave_behind-Steady ep vni tunnel_id none fair = pure-Steady L A einval
  leave_behind-Steady ep vni tunnel_id (some e) fair =
      let release =
        then-Steady _ _ (release_endpoint-Steady net swi ep (one_less vni e) (pos 0))
          (λ rv. pure-Steady L A (pos 0)) in
      then-Steady _ _
        (assign-Steady L A ep (one_less vni e) (one_less-IsBalanced vni e (fair e refl)))
        (λ a.
          if-Steady (vni_users vni (one_less vni e).refcnt_vni == 0) _ _
            (called-Steady swi (Call.tunnel_port_tenant_remove e.lport_id tunnel_id) _
              (λ rv. if-Steady (is_neg rv) _ _ (pure-Steady L A rv) release))
            release)

  delete_l2_neigh_endpoint-Steady :
      (link : L) (local remote : A) (neigh_mac : Option A)
      → Steady (delete_l2_neigh_endpoint net swi link local remote neigh_mac)
  unfolding delete_l2_neigh_endpoint
  delete_l2_neigh_endpoint-Steady link local remote neigh_mac =
      read-Steady (get_tunnel_id_of_link net swi link) _ (λ tunnel.
        option-Steady tunnel _ _ (pure-Steady L A einval) (λ (vni, tunnel_id).
          then-Steady _ _ (delete_l2_neigh_of_tunnel-Steady tunnel_id neigh_mac) (λ rv.
            if-Steady (is_neg rv) _ _ (pure-Steady L A einval) (
              looked_up-Steady net swi link local remote _ (λ known fair.
                leave_behind-Steady (endpoint_of net swi link local remote) vni tunnel_id known
                  fair)))))

  pub delete_l2_neigh-Steady :
      (neigh : Neigh A) (link : L) → Steady (delete_l2_neigh net swi neigh link)
  unfolding delete_l2_neigh delete_on_vxlan delete_remote
  delete_l2_neigh-Steady neigh link =
      if-Steady (net.is_lt_vxlan link) _ _
        (option-Steady (net.vxlan_port link) _ _ (abort-Steady L A ℤ) (λ port.
          option-Steady (net.vxlan_local link) _ _ (pure-Steady L A einval) (λ local.
            if-Steady (net.is_inet local) _ _
              (option-Steady neigh.dst _ _ (pure-Steady L A einval) (λ dst.
                then-Steady _ _
                  (if-Steady (net.is_zero neigh.lladdr) _ _
                    (if-Steady (is_redundant net swi link dst) _ _ (pure-Steady L A (pos 0))
                      (delete_endpoint_port-Steady net swi link local dst))
                    (delete_l2_neigh_endpoint-Steady link local dst neigh.lladdr))
                  (λ rv. pure-Steady L A (pos 0))))
              (pure-Steady L A einval))))
        (then-Steady _ _ (delete_l2_neigh_access-Steady link neigh.vlan neigh.lladdr)
          (λ rv. pure-Steady L A (pos 0)))
