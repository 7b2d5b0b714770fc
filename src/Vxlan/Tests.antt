-- ===== src/Vxlan/Tests.antt =====
-- The theorems on VXLAN tunnels at concrete inputs. Links and addresses are numbers here: link 5 is
-- a VXLAN link with VNI 100 from address 10 to address 20, link 9 a bridge port, and link 3 the
-- physical port 1, over which the next hop has address 40.
use basebox.Prelude.{
  ℕ, suc, ◌≤◌, ◌≡◌, ◌≢◌, ◌⊎◌, refl, true, false, List, [], ◌∷◌, Option, none, some, ℤ, pos, einval,
  is_neg, arith, find, emplace, insert_or_assign, nat_key, pair_key, ◌==◌, if◌then◌else◌,
}
use basebox.Sai.{Call, Log, SwitchInterface}
use basebox.Vxlan.State.{TunnelNh, Neigh, Network, NlVxlan, constructed}
use basebox.Vxlan.Action.{last_result}
use basebox.Vxlan.NextHops.{
  create_next_hop_of_neigh, delete_next_hop, use_next_hop, tunnel_nh_of, enter_next_hop,
  count_next_hop, create_next_hop, create_next_hop_at, first_address, or_remote,
}
use basebox.Vxlan.Vnis.{create_vni, create_tenant, get_tunnel_id, enter_vni, get_tunnel_id_of_link}
use basebox.Vxlan.AccessPorts.{
  lookup_access_port, retry, create_access_port, delete_access_port, make_access_port, join_tenant,
  flood_access_port, get_access_tunnel_port, enter_access_port, is_port_flooding, enable_flooding,
}
use basebox.Vxlan.Endpoints.{
  endpoint_of, or_default, join_tunnel, create_endpoint_to, connect, join_endpoint,
  create_endpoint_port, make_endpoint, ttl_or_default, enter_endpoint, assign_endpoint, one_more,
  vni_users, is_flooding, flood_endpoint, neighs_behind, ignore_zero, no_route,
}
use basebox.Vxlan.Messages.{Request, serve, serve_all, net_reachable_notification}
use basebox.Vxlan.Consistent.{IsConsistent}
use basebox.Vxlan.History.{serve_all-IsConsistent}
use basebox.Vxlan.NextHopPairs.{delete_next_hop-create_next_hop_of_neigh}
use basebox.Vxlan.Tenants.{
  VniRequest, serve_vni, serve_vnis, tenant_of, IsTunnelled, serve_vnis-IsTunnelled,
}
use basebox.Vxlan.AccessPortPairs.{
  retry_bounded, create_access_port_refused, delete_access_port-create_access_port, logged,
  creation, last_answer, replicate, all_refused,
}
use basebox.Vxlan.EndpointCalls.{hop_id, hop_calls, port_calls, flood_calls, addr_calls}
use basebox.Vxlan.Progress.{create_endpoint_to_progress}
use basebox.Vxlan.EndpointErrors.{fresh_endpoint, before_tenant, join_tunnel_refused}

-- A switch that accepts everything, and one that refuses every tenant a port.
abbrev willing : SwitchInterface
willing = record { answer = λ l c. pos 0; created_id = λ l c. 0 }

abbrev to_tenant : Call → ℤ
to_tenant (Call.tunnel_port_tenant_add lport_id tunnel_id) = einval
to_tenant c = pos 0

abbrev no_tenants : SwitchInterface
no_tenants = record { answer = λ l c. to_tenant c; created_id = λ l c. 0 }

abbrev hop : Neigh ℕ
hop = record { ifindex = 3; vlan = 0; lladdr = some 40; dst = none; state = 0 }

-- The zero address is 0, and the entry for an address 50 behind the endpoint.
abbrev behind : Neigh ℕ
behind = record { ifindex = 5; vlan = 0; lladdr = some 50; dst = some 20; state = 0x80 }

abbrev vni_of : ℕ → Option ℕ
vni_of link = if link == 5 then some 100 else if link == 6 then some 200 else none

abbrev network : Network ℕ ℕ
network = record {
  is_inet = λ a. true;
  ipv4 = λ a. a;
  nlall2uint64 = λ a. a;
  mac = λ a. 0;
  same_addr = λ a b. false;
  is_zero = λ a. false;
  is_vxlan = λ l. true;
  is_lt_vxlan = λ l. true;
  vxlan_id = vni_of;
  vxlan_local = λ l. some 10;
  vxlan_group = λ l. some 20;
  vxlan_port = λ l. some 4789;
  vxlan_ttl = λ l. 0;
  get_ifindex = λ l. l;
  get_master = λ l. 9;
  get_addr = λ l. some 30;
  is_bridge = λ l. true;
  unicast_flood = λ l. true;
  get_port_id = λ l. 1;
  get_port_id_of_ifindex = λ i. 1;
  base_link = λ i. some i;
  bridge_link = λ i. some 9;
  get_link_by_ifindex = λ i. some i;
  get_neighbour = λ i a. some hop;
  nexthops_to = λ a. some (record { ifindex = 3; gateway = none; via = none } ∷ []);
  neighs_of = λ i. behind ∷ [];
  neighs_to = λ i a. [];
  vxlan_links = 5 ∷ [];
  port_untagged_vid = 1;
}

abbrev start : NlVxlan ℕ ℕ
start = constructed

start-IsConsistent : IsConsistent start
unfolding find
start-IsConsistent = record {
  to = λ tnh p e. absurd (ground arith);
  from = λ id tnh e. absurd (ground arith);
  below = λ id tnh e positive. absurd (ground arith);
  counter = omega arith;
  balanced = λ ep e at. absurd (ground arith);
}

-- The VNI is created, and the remote address becomes known twice.
abbrev requests : List (Network ℕ ℕ × Request ℕ ℕ)
requests =
    (network, Request.create_vnis 5)
    ∷ (network, Request.reaches 20 5)
    ∷ (network, Request.reaches 20 5)
    ∷ []

abbrev calls_for_vni : Log
calls_for_vni = (Call.overlay_tunnel_add 10, pos 0) ∷ (Call.tunnel_tenant_create 10 100, pos 0) ∷ []

abbrev tnh : TunnelNh
tnh = (30, (40, (1, 1)))

abbrev served : NlVxlan ℕ ℕ
served = record start {
  tunnel_next_hop_id = (tnh, record { refcnt = 2; nh_id = 1 }) ∷ [];
  endpoint_id =
      (
        (10, (20, 4789)),
        record { refcnt = 2; lport_id = 65537; nh_id = 1; refcnt_vni = (100, 2) ∷ [] },
      )
      ∷ [];
  tunnel_next_hop2tnh = (1, tnh) ∷ [];
  next_hop_id_cnt = 2;
  port_id_cnt = 65538;
  tunnel_id_cnt = 11;
  vni2tunnel = (100, 10) ∷ [];
  log =
      (Call.add_l2_overlay_flood 10 65537, pos 0)
      ∷ (Call.tunnel_port_tenant_add 65537 10, pos 0)
      ∷ (Call.add_l2_overlay_flood 10 65537, pos 0)
      ∷ (Call.tunnel_port_tenant_add 65537 10, pos 0)
      ∷ (Call.tunnel_enpoint_create 65537 20 10 45 1 4789 4789 0 true, pos 0)
      ∷ (Call.tunnel_next_hop_create 1 30 40 1 1, pos 0)
      ∷ calls_for_vni;
}

serve_all-IsConsistent_example : IsConsistent served
unfolding serve_all serve last_result create_vni create_tenant get_tunnel_id enter_vni
    net_reachable_notification create_endpoint_to connect create_next_hop create_next_hop_at
    first_address or_remote create_next_hop_of_neigh tunnel_nh_of use_next_hop enter_next_hop
    count_next_hop get_tunnel_id_of_link join_endpoint create_endpoint_port make_endpoint
    endpoint_of or_default ttl_or_default enter_endpoint assign_endpoint one_more vni_users
    join_tunnel is_flooding is_port_flooding flood_endpoint enable_flooding neighs_behind
    ignore_zero no_route find emplace insert_or_assign
serve_all-IsConsistent_example =
    serve_all-IsConsistent willing requests start (pos 0) served refl start-IsConsistent

abbrev with_hop : NlVxlan ℕ ℕ
with_hop = record start {
  tunnel_next_hop_id = (tnh, record { refcnt = 1; nh_id = 1 }) ∷ [];
  tunnel_next_hop2tnh = (1, tnh) ∷ [];
  next_hop_id_cnt = 2;
  log = (Call.tunnel_next_hop_create 1 30 40 1 1, pos 0) ∷ [];
}

delete_next_hop-create_next_hop_of_neigh_example :
    (u : NlVxlan ℕ ℕ) × ((delete_next_hop network willing 1 with_hop ≡ some (pos 0, u))
      × (find tnh u.tunnel_next_hop_id ≡ none))
unfolding create_next_hop_of_neigh use_next_hop enter_next_hop tunnel_nh_of find emplace
    insert_or_assign
delete_next_hop-create_next_hop_of_neigh_example =
    delete_next_hop-create_next_hop_of_neigh network willing hop tnh tnh start with_hop (pos 0) 1
      start-IsConsistent refl (λ p e. absurd (ground (arith, e))) refl refl

start-IsTunnelled : IsTunnelled start
unfolding find
start-IsTunnelled = record {
  standing = λ vni id e. absurd (ground arith);
  below = λ vni id e. absurd (ground arith);
}

-- Two VXLAN links.
abbrev links : List (Network ℕ ℕ × VniRequest ℕ)
links = (network, VniRequest.creates 5) ∷ (network, VniRequest.creates 6) ∷ []

abbrev with_vni : NlVxlan ℕ ℕ
with_vni = record start { tunnel_id_cnt = 11; vni2tunnel = (100, 10) ∷ []; log = calls_for_vni }

-- The tenant of each.
abbrev id_of_vni : ℕ → ℕ
id_of_vni vni = if vni == 100 then 10 else 11

abbrev two_tenants : NlVxlan ℕ ℕ
two_tenants = record start {
  tunnel_id_cnt = 12;
  vni2tunnel = (100, 10) ∷ (200, 11) ∷ [];
  log =
      (Call.overlay_tunnel_add 11, pos 0)
      ∷ (Call.tunnel_tenant_create 11 200, pos 0)
      ∷ calls_for_vni;
}

serve_vnis-IsTunnelled_example :
    (tenant_of 10 two_tenants.log ≡ some 100) × (id_of_vni 100 ≢ id_of_vni 200)
unfolding serve_vnis serve_vni last_result create_vni create_tenant get_tunnel_id enter_vni find
    emplace insert_or_assign
serve_vnis-IsTunnelled_example =
    serve_vnis-IsTunnelled willing links start (pos 0) two_tenants 100 200 10 11 refl (omega arith)
      start-IsTunnelled refl refl (λ e. omega (arith, e))

retry_bounded_example :
    let c = Call.tunnel_port_tenant_add 65537 10 in
    (k : ℕ) × ((k ≤ 1)
      × ((retry network no_tenants 1 c start
            ≡ some (
              last_answer (logged no_tenants (replicate (suc k) c) start.log),
              record start { log = logged no_tenants (replicate (suc k) c) start.log },
            ))
          × ((all_refused no_tenants k c start.log ≡ true)
              × ((k ≡ 1)
                  ⊎ (is_neg (last_answer (logged no_tenants (replicate (suc k) c) start.log))
                      ≡ false)))))
retry_bounded_example =
    retry_bounded network no_tenants 1 (Call.tunnel_port_tenant_add 65537 10) start

abbrev refused_port : NlVxlan ℕ ℕ
refused_port = record start {
  log =
      (Call.tunnel_port_tenant_add 65537 10, einval)
      ∷ (Call.tunnel_access_port_create 65537 1 7 true, pos 0)
      ∷ (Call.ingress_port_vlan_remove 1 7 true 0, pos 0)
      ∷ (Call.egress_bridge_port_vlan_remove 1 7, pos 0)
      ∷ [];
}

create_access_port_refused_example :
    create_access_port network no_tenants 9 10 1 7 true start ≡ some ((einval, none), refused_port)
unfolding find logged creation last_answer
create_access_port_refused_example =
    create_access_port_refused network no_tenants 9 10 1 7 true start (λ e. omega (arith, e))
      (λ e. omega (arith, e)) refl refl refl

abbrev with_port : NlVxlan ℕ ℕ
with_port = record start {
  access_port_ids = ((1, 7), record { lport_id = 65537; tunnel_id = 10 }) ∷ [];
  port_id_cnt = 65538;
  log =
      (Call.add_l2_overlay_flood 10 65537, pos 0)
      ∷ (Call.tunnel_port_tenant_add 65537 10, pos 0)
      ∷ (Call.tunnel_access_port_create 65537 1 7 true, pos 0)
      ∷ (Call.ingress_port_vlan_remove 1 7 true 0, pos 0)
      ∷ (Call.egress_bridge_port_vlan_remove 1 7, pos 0)
      ∷ [];
}

delete_access_port-create_access_port_example :
    (lookup_access_port 1 7 with_port ≡ record { lport_id = 65537; tunnel_id = 10 })
    × ((u : NlVxlan ℕ ℕ) × ((delete_access_port network willing 9 1 7 true with_port
            ≡ some (pos 0, u))
          × (find (1, 7) u.access_port_ids ≡ none)))
unfolding create_access_port make_access_port join_tenant flood_access_port retry
    get_access_tunnel_port lookup_access_port enter_access_port is_port_flooding enable_flooding
    find emplace insert_or_assign
delete_access_port-create_access_port_example =
    delete_access_port-create_access_port network willing 9 10 1 7 true true (1, 7) start with_port
      (pos 0) 65537 refl refl

-- Three endpoints over one next hop, and a new one for link 5 among them.
abbrev shared_hop : NlVxlan ℕ ℕ
shared_hop = record served {
  tunnel_next_hop_id = (tnh, record { refcnt = 3; nh_id = 1 }) ∷ [];
  endpoint_id =
      (
        (10, (20, 4789)),
        record { refcnt = 1; lport_id = 65537; nh_id = 1; refcnt_vni = (100, 1) ∷ [] },
      )
      ∷ [];
}

join_tunnel_refused_example :
    (t : NlVxlan ℕ ℕ) × ((join_tunnel network no_tenants 5 none 10 20 1 65537 10 shared_hop
        ≡ some (einval, t))
      × ((find (endpoint_of network no_tenants 5 10 20) t.endpoint_id ≡ none)
          × (find tnh t.tunnel_next_hop_id ≡ some (record { refcnt = 1; nh_id = 1 }))))
unfolding find endpoint_of or_default fresh_endpoint logged before_tenant
join_tunnel_refused_example =
    join_tunnel_refused network no_tenants 5 10 20 100 10 65537 1 shared_hop tnh
      (record { refcnt = 3; nh_id = 1 }) refl refl refl refl refl (omega arith) (omega arith) refl
      none refl

create_endpoint_to_progress_example :
    (t : NlVxlan ℕ ℕ) × ((create_endpoint_to network willing 5 (some 9) 20 with_vni
        ≡ some (pos 0, t))
      × ((find (endpoint_of network willing 5 10 20) t.endpoint_id
            ≡ some (fresh_endpoint 65537 (hop_id tnh with_vni) 100))
          × (t.log
              ≡ logged willing
                  (addr_calls network willing (neighs_behind network willing 5 20) 65537 10)
                  (logged willing (flood_calls network willing (some 9) 65537 10) (
                    logged willing
                      (port_calls network willing 5 10 20 (hop_id tnh with_vni) 65537 10)
                      (logged willing (hop_calls tnh with_vni) with_vni.log))))))
unfolding find first_address or_remote tunnel_nh_of endpoint_of
create_endpoint_to_progress_example =
    create_endpoint_to_progress network willing (λ l c. refl) (some 9) 5 10 20
      (record { ifindex = 3; gateway = none; via = none }) [] hop tnh 100 10 with_vni (λ b e. refl)
      refl refl refl refl refl refl (λ e. omega (arith, e)) (λ e. omega (arith, e))
      (λ e. omega (arith, e)) refl refl refl
