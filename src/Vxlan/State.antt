-- ===== src/Vxlan/State.antt =====
-- The containers of src/netlink/nl_vxlan.cc with the fields of class nl_vxlan, and what it asks of
-- libnl, cnetlink, nl_l3 and nl_bridge.
use basebox.Prelude.{ℕ, ◌+◌, ◌-◌, ◌%◌, ◌^◌, Bool, List, [], ◌∷◌, Option, some, ℤ, Map}
use basebox.Sai.{Call, Log, SwitchInterface}
use basebox.Vxlan.Action.{Action}

-- The source and the destination address, the port and the VLAN.
abbrev pub TunnelNh : Type 0
TunnelNh = ℕ × (ℕ × (ℕ × ℕ))

-- The local and the remote address, and the destination port.
abbrev pub EndpointPort : Type 0
EndpointPort = ℕ × (ℕ × ℕ)

-- Counts are kept modulo 2^32, the signed ones too: they are only compared with 0.
pub record TunnelNhPort : Type 0 where
  pub refcnt : ℕ
  pub nh_id : ℕ

pub record AccessTunnelPort : Type 0 where
  pub lport_id : ℕ
  pub tunnel_id : ℕ

pub record EndpointTunnelPort : Type 0 where
  pub refcnt : ℕ
  pub lport_id : ℕ
  pub nh_id : ℕ
  pub refcnt_vni : Map ℕ ℕ

-- A neighbour of the kernel; an address that is not set is none.
pub record Neigh (A : Type 0) : Type 0 where
  pub ifindex : ℕ
  pub vlan : ℕ
  pub lladdr : Option A
  pub dst : Option A
  pub state : ℕ

-- A next hop of a route.
pub record Nexthop (A : Type 0) : Type 0 where
  pub ifindex : ℕ
  pub gateway : Option A
  pub via : Option A

-- The kernel's view of the links, routes and neighbours at one time.
pub record Network (L A : Type 0) : Type 0 where
  -- The address family is AF_INET; the first four bytes in host order; nlall2uint64; the address
  -- as rofl::caddress_ll, also where it is not set.
  pub is_inet : A → Bool
  pub ipv4 : A → ℕ
  pub nlall2uint64 : A → ℕ
  pub mac : Option A → ℕ
  -- nl_addr_cmp is 0; nl_addr_iszero.
  pub same_addr : Option A → Option A → Bool
  pub is_zero : Option A → Bool
  -- `rtnl_link_is_vxlan`, and the result LT_VXLAN of `get_link_type`.
  pub is_vxlan : L → Bool
  pub is_lt_vxlan : L → Bool
  -- The attributes of a VXLAN link, none where libnl returns an error.
  pub vxlan_id : L → Option ℕ
  pub vxlan_local : L → Option A
  pub vxlan_group : L → Option A
  pub vxlan_port : L → Option ℕ
  -- As uint32_t.
  pub vxlan_ttl : L → ℕ
  pub get_ifindex : L → ℕ
  pub get_master : L → ℕ
  pub get_addr : L → Option A
  -- A link in AF_BRIDGE: whether it is one, and RTNL_BRIDGE_UNICAST_FLOOD among its flags.
  pub is_bridge : L → Bool
  pub unicast_flood : L → Bool
  -- cnetlink: `get_port_id` of a link and of an index, `get_link` in AF_UNSPEC and in AF_BRIDGE,
  -- `get_link_by_ifindex` and `get_neighbour`.
  pub get_port_id : L → ℕ
  pub get_port_id_of_ifindex : ℕ → ℕ
  pub base_link : ℕ → Option L
  pub bridge_link : ℕ → Option L
  pub get_link_by_ifindex : ℕ → Option L
  pub get_neighbour : ℕ → A → Option (Neigh A)
  -- The route to an address, as `nl_l3::get_nexthops_of_route` gives its next hops.
  pub nexthops_to : A → Option (List (Nexthop A))
  -- The entries of the neighbour cache in AF_BRIDGE: on the interface with that index, and of these
  -- the ones with that destination.
  pub neighs_of : ℕ → List (Neigh A)
  pub neighs_to : ℕ → A → List (Neigh A)
  -- The links of type vxlan in the link cache.
  pub vxlan_links : List L
  pub port_untagged_vid : ℕ

-- What nl_vxlan asks of nl_l3, with the remote address and the index of the VXLAN link, and the
-- next hop; and what it asks of nl_bridge.
pub data Notice (L A : Type 0) : Type 0 where
  notify_on_net_reachable : A → ℕ → Notice L A
  notify_on_nh_reachable : A → ℕ → A → ℕ → Notice L A
  update_access_ports : L → Option L → ℕ → Bool → Notice L A

-- The containers are searched, never gone through; an entry is made where there is none.
pub record NlVxlan (L A : Type 0) : Type 0 where
  pub access_port_ids : Map (ℕ × ℕ) AccessTunnelPort
  pub tunnel_next_hop_id : Map TunnelNh TunnelNhPort
  pub endpoint_id : Map EndpointPort EndpointTunnelPort
  pub tunnel_next_hop2tnh : Map ℕ TunnelNh
  pub next_hop_id_cnt : ℕ
  pub port_id_cnt : ℕ
  pub tunnel_id_cnt : ℕ
  pub vni2tunnel : Map ℕ ℕ
  pub log : Log
  pub notices : List (Notice L A)

-- The object as it is constructed.
abbrev pub constructed : {L A : Type 0} → NlVxlan L A
constructed = record {
  access_port_ids = [];
  tunnel_next_hop_id = [];
  endpoint_id = [];
  tunnel_next_hop2tnh = [];
  next_hop_id_cnt = 1;
  port_id_cnt = 2 ^ 16 + 1;
  tunnel_id_cnt = 10;
  vni2tunnel = [];
  log = [];
  notices = [];
}

module _ {L A : Type 0} where
  -- `sw->c`
  abbrev pub call : SwitchInterface → Call → Action (NlVxlan L A) ℤ
  call swi c s = let rv = swi.answer s.log c in some (rv, record s { log = (c, rv) ∷ s.log })

  abbrev pub notify : Notice L A → Action (NlVxlan L A) (Unit {0})
  notify n s = some (tt, record s { notices = n ∷ s.notices })

-- `n++` and `n--` in 32 bits.
abbrev pub up : ℕ → ℕ
up n = (n + 1) % 2 ^ 32

abbrev pub down : ℕ → ℕ
down n = (n + (2 ^ 32 - 1)) % 2 ^ 32
