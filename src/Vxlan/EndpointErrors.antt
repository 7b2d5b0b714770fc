-- ===== src/Vxlan/EndpointErrors.antt =====
-- An endpoint whose tenant refuses it.
use basebox.Prelude.{
  ℕ, ◌-◌, ◌^◌, ◌<◌, ◌≡◌, true, false, List, [], ◌∷◌, Option, some, pos, is_neg, einval, arith, find,
  insert_or_assign, nat_key, pair_key, find-insert_or_assign, find-erase, same_refl, none,
}
use basebox.Sai.{Call, SwitchInterface}
use basebox.Vxlan.State.{TunnelNh, TunnelNhPort, EndpointTunnelPort, Network, NlVxlan, down}
use basebox.Vxlan.NextHops.{count_next_hop}
use basebox.Vxlan.NextHopPairs.{delete_next_hop_shared}
use basebox.Vxlan.Vnis.{get_tunnel_id, get_tunnel_id_of_link}
use basebox.Vxlan.AccessPorts.{disable_flooding}
use basebox.Vxlan.AccessPortPairs.{logged}
use basebox.Vxlan.Endpoints.{
  vni_users, one_less, assign_endpoint, drop_endpoint, endpoint_of, lookup_endpoint,
  release_endpoint, leave_tenant, leave_endpoint, delete_endpoint_port, join_tunnel,
}

-- The endpoint as create_endpoint enters it, with one user.
unfoldable pub fresh_endpoint : ℕ → ℕ → ℕ → EndpointTunnelPort
fresh_endpoint lport_id nh_id vni = record {
  refcnt = 1;
  lport_id = lport_id;
  nh_id = nh_id;
  refcnt_vni = (vni, 1) ∷ [];
}

module _ {L A : Type 0} (net : Network L A) (swi : SwitchInterface) (link : L) (local remote : A)
    (vni tunnel_id lport_id nh_id : ℕ) (s : NlVxlan L A) where
  -- The calls for an endpoint that is tried and given up.
  unfoldable pub given_up : List Call
  given_up =
      Call.tunnel_port_tenant_add lport_id tunnel_id
      ∷ Call.del_l2_overlay_flood tunnel_id lport_id
      ∷ Call.tunnel_port_tenant_remove lport_id tunnel_id
      ∷ Call.tunnel_port_delete lport_id
      ∷ []

  -- The calls up to the one for the tenant.
  unfoldable pub before_tenant : List Call
  before_tenant =
      Call.tunnel_port_tenant_add lport_id tunnel_id
      ∷ Call.del_l2_overlay_flood tunnel_id lport_id
      ∷ []

  module _ (tnh : TunnelNh) (p : TunnelNhPort) (link_vni : net.vxlan_id link ≡ some vni)
      (tunnel : find vni s.vni2tunnel ≡ some tunnel_id)
      (known : find (endpoint_of net swi link local remote) s.endpoint_id
        ≡ some (fresh_endpoint lport_id nh_id vni))
      (named : find nh_id s.tunnel_next_hop2tnh ≡ some tnh)
      (counted : find tnh s.tunnel_next_hop_id ≡ some p) (more : 2 < p.refcnt)
      (bound : p.refcnt < 2 ^ 32)
      (left : is_neg (
          swi.answer
            (logged swi before_tenant s.log)
            (Call.tunnel_port_tenant_remove lport_id tunnel_id))
        ≡ false) where
    -- The only user of an endpoint leaves it: it goes, and gives up its next hop.
    unfoldable deleted : NlVxlan L A
    deleted = drop_endpoint (endpoint_of net swi link local remote) (
        count_next_hop tnh p (down p.refcnt)
          (record (assign_endpoint (endpoint_of net swi link local remote)
            (one_less vni (fresh_endpoint lport_id nh_id vni)) s) {
              log = logged swi given_up s.log;
            }))

    delete_endpoint_port_last :
        delete_endpoint_port net swi link local remote (record s {
          log = logged swi (Call.tunnel_port_tenant_add lport_id tunnel_id ∷ []) s.log;
        })
        ≡ some (pos 0, deleted)
    unfolding delete_endpoint_port get_tunnel_id_of_link get_tunnel_id lookup_endpoint
        leave_endpoint leave_tenant release_endpoint assign_endpoint drop_endpoint one_less
        vni_users disable_flooding logged fresh_endpoint given_up before_tenant count_next_hop find
        insert_or_assign deleted
    delete_endpoint_port_last =
        let ep = endpoint_of net swi link local remote in
        let e = fresh_endpoint lport_id nh_id vni in
        let u : NlVxlan L A = record (assign_endpoint ep (one_less vni e) s) {
          log = logged swi given_up s.log;
        } in
        let first =
          delete_next_hop_shared net swi nh_id tnh p u named counted (omega (arith, more, bound)) in
        ground (arith, first)

    -- If the switch refuses a new endpoint of a link with a known tunnel to its tenant, but accepts that
    -- it leaves the tenant again, the endpoint is forgotten, but its next hop is given up twice: where
    -- three or more (and fewer than 2 ^ 32) use it, the count ends two lower, though the endpoint had
    -- entered itself once.
    pub join_tunnel_refused :
        (br_link : Option L)
        → is_neg (swi.answer s.log (Call.tunnel_port_tenant_add lport_id tunnel_id)) ≡ true
        → (t : NlVxlan L A) × ((join_tunnel net swi link br_link local remote nh_id lport_id
                tunnel_id s
              ≡ some (einval, t))
            × ((find (endpoint_of net swi link local remote) t.endpoint_id ≡ none)
                × (find tnh t.tunnel_next_hop_id ≡ some (record p { refcnt = p.refcnt - 2 }))))
    unfolding join_tunnel count_next_hop deleted drop_endpoint assign_endpoint logged
    join_tunnel_refused br_link refused =
        let q : TunnelNhPort = record p { refcnt = down p.refcnt } in
        let found = find-insert_or_assign tnh tnh q s.tunnel_next_hop_id in
        let again : find tnh deleted.tunnel_next_hop_id ≡ some q =
          ground (arith, found, same_refl tnh) in
        let second =
          delete_next_hop_shared net swi nh_id tnh q deleted named again
            (omega (arith, more, bound)) in
        let lower =
          find-insert_or_assign tnh tnh (record q { refcnt = down q.refcnt })
            deleted.tunnel_next_hop_id in
        let ep = endpoint_of net swi link local remote in
        let e = one_less vni (fresh_endpoint lport_id nh_id vni) in
        let forgotten : find ep deleted.endpoint_id ≡ none =
          ground (arith, find-erase ep ep (insert_or_assign ep e s.endpoint_id), same_refl ep) in
        let two_less : down (down p.refcnt) ≡ p.refcnt - 2 = omega (arith, more, bound) in
        (
          count_next_hop tnh q (down q.refcnt) deleted,
          (
            ground (arith, refused, delete_endpoint_port_last, second),
            (forgotten, ground (arith, lower, same_refl tnh, two_less)),
          ),
        )
