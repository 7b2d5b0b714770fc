-- ===== src/Vxlan/EndpointCalls.antt =====
-- The calls that an endpoint takes until it is connected, one stage after the other.
use basebox.Prelude.{
  ℕ, true, List, [], ◌∷◌, Option, none, some, find, nat_key, pair_key, if◌then◌else◌,
}
use basebox.Sai.{Call, SwitchInterface}
use basebox.Vxlan.State.{TunnelNh, Neigh, Network, NlVxlan}
use basebox.Vxlan.Endpoints.{ttl_or_default, vxlan_port_default, endpoint_of, is_permanent}

-- The id of a next hop, and the call for one that is new.
unfoldable pub hop_id : {L A : Type 0} → TunnelNh → NlVxlan L A → ℕ
hop_id tnh s = elim (find tnh s.tunnel_next_hop_id) [ none ↦ s.next_hop_id_cnt | some p ↦ p.nh_id ]

unfoldable pub hop_calls : {L A : Type 0} → TunnelNh → NlVxlan L A → List Call
hop_calls (smac, (dmac, (pport, vid))) s =
    elim (find (smac, (dmac, (pport, vid))) s.tunnel_next_hop_id) [
      | none ↦ Call.tunnel_next_hop_create s.next_hop_id_cnt smac dmac pport vid ∷ []
      | some _ ↦ []
    ]

module _ {L A : Type 0} (net : Network L A) (swi : SwitchInterface) where
  -- The calls that make the endpoint and bring it into its tenant.
  unfoldable pub port_calls : L → A → A → ℕ → ℕ → ℕ → List Call
  port_calls link local remote nh_id lport_id tunnel_id =
      let ep = endpoint_of net swi link local remote in
      Call.tunnel_enpoint_create lport_id ep.1.0 ep.0 (ttl_or_default (net.vxlan_ttl link)) nh_id
        vxlan_port_default ep.1.1 0 true
      ∷ Call.tunnel_port_tenant_add lport_id tunnel_id
      ∷ []

  -- The call that floods to it, where there is a bridge that floods.
  unfoldable pub flood_calls : Option L → ℕ → ℕ → List Call
  flood_calls br_link lport_id tunnel_id = elim br_link [
    | none ↦ []
    | some b ↦ if net.unicast_flood b then Call.add_l2_overlay_flood tunnel_id lport_id ∷ [] else []
  ]

  -- The calls for the addresses behind it.
  unfoldable pub addr_calls : List (Neigh A) → ℕ → ℕ → List Call
  addr_calls [] lport_id tunnel_id = []
  addr_calls (n ∷ ns) lport_id tunnel_id =
      Call.l2_overlay_addr_add lport_id tunnel_id (net.mac n.lladdr) (is_permanent net swi n)
      ∷ addr_calls ns lport_id tunnel_id
