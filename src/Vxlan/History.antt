-- ===== src/Vxlan/History.antt =====
-- Histories of what nl_vxlan is asked to do.
use basebox.Prelude.{ℕ, ◌≡◌, List, some, ℤ, pos, is_neg, ◌==◌}
use basebox.Sai.{SwitchInterface}
use basebox.Vxlan.State.{Network, NlVxlan}
use basebox.Vxlan.Messages.{
  net_reachable_notification, register_neigh, register_endpoint, register_link, register_bridge,
  Request, serve, serve_all,
}
use basebox.Vxlan.Yields.{Yields, last_result-Keeps}
use basebox.Vxlan.Consistent.{IsConsistent}
use basebox.Vxlan.Steady.{Steady, pure-Steady, then-Steady, if-Steady, option-Steady}
use basebox.Vxlan.PortsKeep.{
  create_vni-Steady, remove_vni-Steady, create_access_port-Steady, delete_access_port-Steady,
}
use basebox.Vxlan.EndpointsKeep.{
  delete_endpoint-Steady, create_endpoint_to-Steady, create_endpoint-Steady,
}
use basebox.Vxlan.NeighsKeep.{add_l2_neigh-Steady, delete_l2_neigh-Steady}

module _ {L A : Type 0} (swi : SwitchInterface) where
  module _ (net : Network L A) where
    register_link-Steady : (link : L) → Steady (register_link net swi link)
    unfolding register_link register_endpoint register_neigh
    register_link-Steady link =
        let br_link = net.bridge_link (net.get_ifindex link) in
        then-Steady _ _ (create_vni-Steady net swi link) (λ rv.
          if-Steady (is_neg rv) _ _ (pure-Steady L A rv) (
            if-Steady (net.get_master link == 0) _ _ (pure-Steady L A rv) (
              then-Steady _ _ (create_endpoint-Steady net swi link br_link) (λ made.
                last_result-Keeps _ _ (λ n. add_l2_neigh-Steady net swi n link br_link) (pos 0)
                  (net.neighs_of (net.get_ifindex link))))))

    net_reachable_notification-Steady :
        (addr : A) (ifindex : ℕ) → Steady (net_reachable_notification net swi addr ifindex)
    unfolding net_reachable_notification
    net_reachable_notification-Steady addr ifindex =
        option-Steady (net.base_link ifindex) _ _ (pure-Steady L A (pos 0)) (λ link.
          if-Steady (net.is_vxlan link) _ _
            (create_endpoint_to-Steady net swi link (net.bridge_link ifindex) addr)
            (pure-Steady L A (pos 0)))

  serve-Steady : (r : Network L A × Request L A) → Steady (serve swi r)
  unfolding serve register_bridge
  serve-Steady (net, Request.registers) =
      last_result-Keeps _ _ (register_link-Steady net) (pos 0) net.vxlan_links
  serve-Steady (net, Request.create_vnis link) = create_vni-Steady net swi link
  serve-Steady (net, Request.remove_vnis link) = remove_vni-Steady net swi link
  serve-Steady (net, Request.delete_endpoints link) = delete_endpoint-Steady net swi link
  serve-Steady (net, Request.create_endpoints link br_link) =
      create_endpoint-Steady net swi link br_link
  serve-Steady (net, Request.reaches addr ifindex) =
      net_reachable_notification-Steady net addr ifindex
  serve-Steady (net, Request.add_neighs neigh link br_link) =
      add_l2_neigh-Steady net swi neigh link br_link
  serve-Steady (net, Request.delete_neighs neigh link) = delete_l2_neigh-Steady net swi neigh link
  serve-Steady (net, Request.create_ports br_link tunnel_id pport_no vid untagged) =
      then-Steady _ _ (create_access_port-Steady net swi br_link tunnel_id pport_no vid untagged)
        (λ (rv, lport). pure-Steady L A rv)
  serve-Steady (net, Request.delete_ports br_link pport_no vid wipes) =
      delete_access_port-Steady net swi br_link pport_no vid wipes

  -- After any history of requests that does not abort, whatever the switch answers and the network
  -- is each time, if it was so before: the two maps of next hops are inverse, no id above the
  -- counter is taken unless the counter is 0, and the count of each endpoint is the sum of its
  -- counts for each VNI modulo 2^32.
  pub serve_all-IsConsistent :
      (rs : List (Network L A × Request L A)) (s : NlVxlan L A) (rv : ℤ) (t : NlVxlan L A)
      → serve_all swi rs s ≡ some (rv, t)
      → IsConsistent s
      → IsConsistent t
  unfolding serve_all Yields
  serve_all-IsConsistent rs s rv t e h =
      (last_result-Keeps _ _ serve-Steady (pos 0) rs s rv t e h).0
