-- ===== src/Vxlan/Progress.antt =====
-- An endpoint is made as soon as its remote address can be reached.
use basebox.Prelude.{
  ℕ, ◌≡◌, ◌≢◌, inl, inr, refl, Bool, true, false, List, [], ◌∷◌, Option, none, some, pos, arith,
  find, nat_key, pair_key, find-emplace, same_refl, Option-cases, Bool-cases,
}
use basebox.Sai.{Call, Log, SwitchInterface}
use basebox.Vxlan.Action.{last_result}
use basebox.Vxlan.State.{TunnelNh, Neigh, Nexthop, Network, NlVxlan}
use basebox.Vxlan.NextHops.{
  count_next_hop, enter_next_hop, use_next_hop, tunnel_nh_of, create_next_hop_of_neigh,
  create_next_hop_at, create_next_hop, first_address, or_remote,
}
use basebox.Vxlan.Vnis.{get_tunnel_id, get_tunnel_id_of_link}
use basebox.Vxlan.AccessPorts.{is_port_flooding, enable_flooding}
use basebox.Vxlan.Endpoints.{
  ttl_or_default, vxlan_port_default, enter_endpoint, endpoint_of, make_endpoint,
  create_endpoint_port, add_l2_neigh_to_tunnel, flood_endpoint, is_flooding, is_permanent,
  neighs_behind, join_tunnel, join_endpoint, no_route, connect, create_endpoint_to,
}
use basebox.Vxlan.AccessPortPairs.{logged}
use basebox.Vxlan.EndpointCalls.{hop_id, hop_calls, port_calls, flood_calls, addr_calls}
use basebox.Vxlan.EndpointErrors.{fresh_endpoint}

-- A switch that accepts every call.
abbrev pub IsWilling : SwitchInterface → Type 0
IsWilling swi = (l : Log) (c : Call) → swi.answer l c ≡ pos 0

module _ {L A : Type 0} (net : Network L A) (swi : SwitchInterface) (willing : IsWilling swi) where
  has_address :
      (n : Neigh A) (tnh : TunnelNh)
      → tunnel_nh_of net swi n ≡ some tnh
      → (mac : A) × (n.lladdr ≡ some mac)
  unfolding tunnel_nh_of
  has_address n tnh its = elim (Option-cases n.lladdr) [
    | inl unset ↦ absurd (ground arith)
    | inr set ↦ set
  ]

  next_hop_progress :
      (link : L) (remote : A) (nh : Nexthop A) (nhs : List (Nexthop A)) (n : Neigh A)
      (tnh : TunnelNh) (s : NlVxlan L A)
      → net.nexthops_to remote ≡ some (nh ∷ nhs)
      → net.get_neighbour
          (first_address 0 (nh ∷ nhs)).0
          (or_remote (first_address 0 (nh ∷ nhs)).1 remote)
        ≡ some n
      → tunnel_nh_of net swi n ≡ some tnh
      → s.next_hop_id_cnt ≢ 0
      → (t : NlVxlan L A) × ((create_next_hop net swi link remote s
            ≡ some ((pos 0, hop_id tnh s), t))
          × ((t.log ≡ logged swi (hop_calls tnh s) s.log)
              × ((t.endpoint_id ≡ s.endpoint_id)
                  × ((t.vni2tunnel ≡ s.vni2tunnel) × (t.port_id_cnt ≡ s.port_id_cnt)))))
  unfolding create_next_hop create_next_hop_at create_next_hop_of_neigh use_next_hop count_next_hop
      enter_next_hop hop_id hop_calls logged
  next_hop_progress link remote nh nhs n tnh s route neigh its positive =
      let (mac, set) = has_address n tnh its in
      let (smac, (dmac, (pport, vid))) = tnh in
      let accepted =
        willing s.log (Call.tunnel_next_hop_create s.next_hop_id_cnt smac dmac pport vid) in
      elim (Option-cases (create_next_hop net swi link remote s)) [
        | inl aborted ↦ absurd (ground (arith, accepted))
        | inr (((rv, id), t), returned) ↦
            elim (Option-cases (find (smac, (dmac, (pport, vid))) s.tunnel_next_hop_id)) [
              | inl new ↦ (t, (ground (arith, accepted), ground (arith, accepted)))
              | inr (p, known) ↦ (t, (ground arith, ground arith))
            ]
      ]

  neighs_progress :
      (ns : List (Neigh A)) (lport_id tunnel_id : ℕ) (s : NlVxlan L A)
      → lport_id ≢ 0
      → tunnel_id ≢ 0
      → (t : NlVxlan L A) × ((last_result
              (λ n. add_l2_neigh_to_tunnel net swi n lport_id tunnel_id)
              (pos 0)
              ns
              s
            ≡ some (pos 0, t))
          × ((t.log ≡ logged swi (addr_calls net swi ns lport_id tunnel_id) s.log)
              × (t.endpoint_id ≡ s.endpoint_id)))
  unfolding last_result add_l2_neigh_to_tunnel addr_calls logged
  neighs_progress [] lport_id tunnel_id s lport tunnel = (s, (refl, (refl, refl)))
  neighs_progress (n ∷ ns) lport_id tunnel_id s lport tunnel =
      let c =
        Call.l2_overlay_addr_add lport_id tunnel_id (net.mac n.lladdr) (is_permanent net swi n) in
      let u : NlVxlan L A = record s { log = (c, swi.answer s.log c) ∷ s.log } in
      let (t, (returned, (calls, same_endpoints))) =
        neighs_progress ns lport_id tunnel_id u lport tunnel in
      (t, (ground (arith, returned), (calls, same_endpoints)))

  flood_progress :
      (br_link : Option L) (link : L) (local remote : A) (nh_id lport_id tunnel_id : ℕ)
      (s : NlVxlan L A)
      → ((b : L) → br_link ≡ some b → net.is_bridge b ≡ true)
      → (flooding : Bool) × ((is_flooding net swi br_link s ≡ some (flooding, s))
          × ((t : NlVxlan L A) × ((flood_endpoint net swi link local remote nh_id lport_id tunnel_id
                    flooding s
                  ≡ some (pos 0, t))
                × ((t.log ≡ logged swi (flood_calls net swi br_link lport_id tunnel_id) s.log)
                    × (t.endpoint_id ≡ s.endpoint_id)))))
  unfolding is_flooding is_port_flooding flood_endpoint enable_flooding flood_calls logged
  flood_progress none link local remote nh_id lport_id tunnel_id s bridge =
      (false, (refl, (s, (refl, (refl, refl)))))
  flood_progress (some b) link local remote nh_id lport_id tunnel_id s bridge =
      let c = Call.add_l2_overlay_flood tunnel_id lport_id in
      let u : NlVxlan L A = record s { log = (c, swi.answer s.log c) ∷ s.log } in
      elim (Bool-cases (net.unicast_flood b)) [
        | inl floods ↦ (
          true,
          (
            ground (arith, bridge b refl),
            (u, (ground (arith, willing s.log c), (ground arith, refl))),
          ),
        )
        | inr quiet ↦ (false, (ground (arith, bridge b refl), (s, (refl, (ground arith, refl)))))
      ]

  join_tunnel_progress :
      (br_link : Option L) (link : L) (local remote : A) (nh_id lport_id tunnel_id : ℕ)
      (s : NlVxlan L A)
      → ((b : L) → br_link ≡ some b → net.is_bridge b ≡ true)
      → lport_id ≢ 0
      → tunnel_id ≢ 0
      → (t : NlVxlan L A) × ((join_tunnel net swi link br_link local remote nh_id lport_id tunnel_id
              s
            ≡ some (pos 0, t))
          × ((t.log
                ≡ logged swi
                    (addr_calls net swi (neighs_behind net swi link remote) lport_id tunnel_id)
                    (logged swi
                      (flood_calls net swi br_link lport_id tunnel_id)
                      (logged swi (Call.tunnel_port_tenant_add lport_id tunnel_id ∷ []) s.log)))
              × (t.endpoint_id ≡ s.endpoint_id)))
  unfolding join_tunnel logged
  join_tunnel_progress br_link link local remote nh_id lport_id tunnel_id s bridge lport tunnel =
      let c = Call.tunnel_port_tenant_add lport_id tunnel_id in
      let u : NlVxlan L A = record s { log = (c, swi.answer s.log c) ∷ s.log } in
      let (flooding, (known, (v, (flooded, (flood_log, same_endpoints))))) =
        flood_progress br_link link local remote nh_id lport_id tunnel_id u bridge in
      let ns = neighs_behind net swi link remote in
      let (t, (added, (addr_log, same_again))) =
        neighs_progress ns lport_id tunnel_id v lport tunnel in
      (
        t,
        (
          ground (arith, willing s.log c, known, flooded, added),
          (ground (arith, addr_log, flood_log), ground (arith, same_endpoints, same_again)),
        ),
      )

  endpoint_progress :
      (link : L) (local remote : A) (vni nh_id : ℕ) (s : NlVxlan L A)
      → net.vxlan_id link ≡ some vni
      → find (endpoint_of net swi link local remote) s.endpoint_id ≡ none
      → (t : NlVxlan L A) × ((create_endpoint_port net swi link local remote nh_id s
            ≡ some ((pos 0, s.port_id_cnt), t))
          × ((t.log
                ≡ logged swi
                    (Call.tunnel_enpoint_create s.port_id_cnt
                        (endpoint_of net swi link local remote).1.0
                        (endpoint_of net swi link local remote).0
                        (ttl_or_default (net.vxlan_ttl link))
                        nh_id
                        vxlan_port_default
                        (endpoint_of net swi link local remote).1.1
                        0
                        true
                      ∷ [])
                    s.log)
              × (find (endpoint_of net swi link local remote) t.endpoint_id
                  ≡ some (fresh_endpoint s.port_id_cnt nh_id vni))))
  unfolding create_endpoint_port make_endpoint enter_endpoint fresh_endpoint logged
  endpoint_progress link local remote vni nh_id s set new =
      let ep = endpoint_of net swi link local remote in
      let e = fresh_endpoint s.port_id_cnt nh_id vni in
      let c =
        Call.tunnel_enpoint_create s.port_id_cnt ep.1.0 ep.0 (ttl_or_default (net.vxlan_ttl link))
          nh_id vxlan_port_default ep.1.1 0 true in
      let u : NlVxlan L A = record s { log = (c, swi.answer s.log c) ∷ s.log } in
      (
        enter_endpoint ep nh_id vni u,
        (
          ground (arith, willing s.log c),
          (refl, ground (arith, find-emplace ep ep e s.endpoint_id, same_refl ep)),
        ),
      )

  -- On a switch that accepts everything: once the route to the remote address has a next hop that
  -- is resolved, over a port of the switch, an endpoint of a VXLAN link with a tunnel that is not
  -- there yet is made, if the local and the remote address are IPv4, the id of the tunnel and the
  -- counters of port ids and of next hop ids are not 0, and the link's master, if any, is a bridge.
  -- create_endpoint returns 0, and the endpoint is entered with one user, under the next port id and
  -- with the id of the next hop, which is the counter's if it is new. The calls are, in this order:
  -- the next hop if it is new, the endpoint, its tenant, flooding if the master floods, and the
  -- addresses behind the endpoint.
  pub create_endpoint_to_progress :
      (br_link : Option L) (link : L) (local remote : A) (nh : Nexthop A) (nhs : List (Nexthop A))
      (n : Neigh A) (tnh : TunnelNh) (vni tunnel_id : ℕ) (s : NlVxlan L A)
      → ((b : L) → br_link ≡ some b → net.is_bridge b ≡ true)
      → net.is_inet remote ≡ true
      → net.vxlan_local link ≡ some local
      → net.is_inet local ≡ true
      → net.nexthops_to remote ≡ some (nh ∷ nhs)
      → net.get_neighbour
          (first_address 0 (nh ∷ nhs)).0
          (or_remote (first_address 0 (nh ∷ nhs)).1 remote)
        ≡ some n
      → tunnel_nh_of net swi n ≡ some tnh
      → s.next_hop_id_cnt ≢ 0
      → s.port_id_cnt ≢ 0
      → tunnel_id ≢ 0
      → net.vxlan_id link ≡ some vni
      → find vni s.vni2tunnel ≡ some tunnel_id
      → find (endpoint_of net swi link local remote) s.endpoint_id ≡ none
      → (t : NlVxlan L A) × ((create_endpoint_to net swi link br_link remote s ≡ some (pos 0, t))
          × ((find (endpoint_of net swi link local remote) t.endpoint_id
                ≡ some (fresh_endpoint s.port_id_cnt (hop_id tnh s) vni))
              × (t.log
                  ≡ logged swi
                      (addr_calls net swi
                        (neighs_behind net swi link remote)
                        s.port_id_cnt
                        tunnel_id)
                      (logged swi (flood_calls net swi br_link s.port_id_cnt tunnel_id) (
                        logged swi
                          (port_calls net swi link local remote
                            (hop_id tnh s)
                            s.port_id_cnt
                            tunnel_id)
                          (logged swi (hop_calls tnh s) s.log))))))
  unfolding create_endpoint_to connect join_endpoint no_route get_tunnel_id_of_link get_tunnel_id
      port_calls logged
  create_endpoint_to_progress br_link link local remote nh nhs n tnh vni tunnel_id s bridge inet set
        local_inet route neigh its hops ports tunnel link_vni known new =
      let nh_id = hop_id tnh s in
      let (u, (created, (hop_log, (same_endpoints, (same_vnis, same_ports))))) =
        next_hop_progress link remote nh nhs n tnh s route neigh its hops in
      let (v, (made, (made_log, entered))) =
        endpoint_progress link local remote vni nh_id u link_vni (ground arith) in
      let (t, (joined, (joined_log, kept))) =
        join_tunnel_progress br_link link local remote nh_id u.port_id_cnt tunnel_id v bridge
          (ground (arith, ports)) tunnel in
      (
        t,
        (
          ground (arith, created, made, joined),
          (
            ground (arith, entered, kept),
            ground (arith, joined_log, made_log, hop_log, same_ports),
          ),
        ),
      )
