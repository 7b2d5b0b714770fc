-- ===== src/Vxlan/Messages.antt =====
-- The start of nl_vxlan on the links that are there, what nl_l3 tells it, and all it is asked to do.
use basebox.Prelude.{ℕ, Bool, List, Option, none, some, ℤ, pos, is_neg, ◌==◌, if◌then◌else◌}
use basebox.Sai.{SwitchInterface}
use basebox.Vxlan.Action.{Action, ◌>>=◌, ◌>>◌, pure, last_result}
use basebox.Vxlan.State.{Neigh, Network, NlVxlan}
use basebox.Vxlan.Vnis.{create_vni, remove_vni}
use basebox.Vxlan.AccessPorts.{create_access_port, delete_access_port}
use basebox.Vxlan.Endpoints.{create_endpoint_to, create_endpoint, delete_endpoint}
use basebox.Vxlan.Neighs.{add_l2_neigh, delete_l2_neigh}

module _ {L A : Type 0} (net : Network L A) (swi : SwitchInterface) where
  open net use {get_ifindex, base_link, bridge_link, is_vxlan}

  -- The remote address can be reached, seen from the VXLAN link of that index.
  unfoldable pub net_reachable_notification : A → ℕ → Action (NlVxlan L A) ℤ
  net_reachable_notification addr ifindex = elim (base_link ifindex) [
    | none ↦ pure (pos 0)
    | some vxlan_link ↦
        if is_vxlan vxlan_link
        then create_endpoint_to net swi vxlan_link (bridge_link ifindex) addr
        else pure (pos 0)
  ]

  unfoldable pub register_neigh : L → Neigh A → Action (NlVxlan L A) ℤ
  register_neigh link neigh = add_l2_neigh net swi neigh link (bridge_link (get_ifindex link))

  unfoldable pub register_endpoint : L → Action (NlVxlan L A) ℤ
  register_endpoint link = do
    create_endpoint net swi link (bridge_link (get_ifindex link))
    last_result (register_neigh link) (pos 0) (net.neighs_of (get_ifindex link))

  -- A link that is not enslaved has its VNI created only.
  unfoldable pub register_link : L → Action (NlVxlan L A) ℤ
  register_link link = do
    rv ← create_vni net swi link
    if is_neg rv
        then pure rv
        else if net.get_master link == 0
        then pure rv
        else register_endpoint link

  unfoldable pub register_bridge : Action (NlVxlan L A) ℤ
  register_bridge = last_result register_link (pos 0) net.vxlan_links

-- What nl_vxlan is asked to do, by cnetlink, nl_bridge and nl_l3.
pub data Request (L A : Type 0) : Type 0 where
  registers : Request L A
  create_vnis remove_vnis delete_endpoints : L → Request L A
  create_endpoints : L → Option L → Request L A
  reaches : A → ℕ → Request L A
  add_neighs : Neigh A → L → Option L → Request L A
  delete_neighs : Neigh A → L → Request L A
  create_ports : L → ℕ → ℕ → ℕ → Bool → Request L A
  delete_ports : L → ℕ → ℕ → Bool → Request L A

-- None where the source aborts.
module _ {L A : Type 0} (swi : SwitchInterface) where
  unfoldable pub serve : Network L A × Request L A → Action (NlVxlan L A) ℤ
  serve (net, registers) = register_bridge net swi
  serve (net, create_vnis link) = create_vni net swi link
  serve (net, remove_vnis link) = remove_vni net swi link
  serve (net, delete_endpoints link) = delete_endpoint net swi link
  serve (net, create_endpoints link br_link) = create_endpoint net swi link br_link
  serve (net, reaches addr ifindex) = net_reachable_notification net swi addr ifindex
  serve (net, add_neighs neigh link br_link) = add_l2_neigh net swi neigh link br_link
  serve (net, delete_neighs neigh link) = delete_l2_neigh net swi neigh link
  serve (net, create_ports br_link tunnel_id pport_no vid untagged) = do
    (rv, lport) ← create_access_port net swi br_link tunnel_id pport_no vid untagged
    pure rv
  serve (net, delete_ports br_link pport_no vid wipe) =
      delete_access_port net swi br_link pport_no vid wipe

  -- Requests one after another, each with the network as it is then.
  unfoldable pub serve_all : List (Network L A × Request L A) → Action (NlVxlan L A) ℤ
  serve_all = last_result serve (pos 0)
