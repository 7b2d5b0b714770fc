-- ===== src/Vxlan/NextHops.antt =====
-- The next hops of tunnels on the switch, which endpoints share.
use basebox.Prelude.{
  ℕ, Option, none, some, List, [], ◌∷◌, ℤ, pos, is_neg, einval, enodata, enetunreach, edestaddrreq,
  find, emplace, insert_or_assign, erase, nat_key, pair_key, ◌==◌, if◌then◌else◌,
}
use basebox.Sai.{Call, SwitchInterface}
use basebox.Vxlan.Action.{Action, ◌>>=◌, ◌>>◌, pure, abort, gets, modify}
use basebox.Vxlan.State.{
  TunnelNh, TunnelNhPort, Neigh, Nexthop, Network, Notice, NlVxlan, call, notify, up, down,
}

module _ {L A : Type 0} where
  -- One user more or fewer of a next hop.
  unfoldable pub count_next_hop : TunnelNh → TunnelNhPort → ℕ → NlVxlan L A → NlVxlan L A
  count_next_hop tnh p refcnt s = record s {
    tunnel_next_hop_id = insert_or_assign tnh (record p { refcnt = refcnt }) s.tunnel_next_hop_id;
  }

  unfoldable pub enter_next_hop : TunnelNh → NlVxlan L A → NlVxlan L A
  enter_next_hop tnh s = record s {
    tunnel_next_hop_id =
        emplace tnh (record { refcnt = 1; nh_id = s.next_hop_id_cnt }) s.tunnel_next_hop_id;
    tunnel_next_hop2tnh = emplace s.next_hop_id_cnt tnh s.tunnel_next_hop2tnh;
    next_hop_id_cnt = up s.next_hop_id_cnt;
  }

  unfoldable pub drop_next_hop : TunnelNh → TunnelNhPort → NlVxlan L A → NlVxlan L A
  drop_next_hop tnh p s = record s {
    tunnel_next_hop2tnh = erase p.nh_id s.tunnel_next_hop2tnh;
    tunnel_next_hop_id = erase tnh s.tunnel_next_hop_id;
  }

-- The first next hop with an address decides; else the index is that of the last one.
unfoldable pub first_address : {A : Type 0} → ℕ → List (Nexthop A) → ℕ × Option A
first_address ifindex [] = (ifindex, none)
first_address ifindex (nh ∷ nhs) =
    let rest = first_address nh.ifindex nhs in
    elim nh.gateway [
      | some addr ↦ (nh.ifindex, some addr)
      | none ↦ elim nh.via [ some addr ↦ (nh.ifindex, some addr) | none ↦ rest ]
    ]

-- The address of the next hop, or the remote one on a link.
unfoldable pub or_remote : {A : Type 0} → Option A → A → A
or_remote none remote = remote
or_remote (some addr) remote = addr

module _ {L A : Type 0} (net : Network L A) (swi : SwitchInterface) where
  -- The end of `create_next_hop`, for the entry that is looked up: the result and `*next_hop_id`.
  unfoldable pub use_next_hop : TunnelNh → Option TunnelNhPort → Action (NlVxlan L A) (ℤ × ℕ)
  use_next_hop tnh (some p) = do modify (count_next_hop tnh p (up p.refcnt)); pure (pos 0, p.nh_id)
  use_next_hop (smac, (dmac, (pport, vid))) none = do
    id ← gets (λ s. s.next_hop_id_cnt)
    rv ← call swi (Call.tunnel_next_hop_create id smac dmac pport vid)
    if is_neg rv
        then pure (rv, 0)
        else (do modify (enter_next_hop (smac, (dmac, (pport, vid)))); pure (rv, id))

  -- What the two methods for a neighbour read of the link: its port and its address.
  unfoldable pub tunnel_nh_of : Neigh A → Option TunnelNh
  tunnel_nh_of neigh = elim (net.get_link_by_ifindex neigh.ifindex) [
    | none ↦ none
    | some link ↦ if net.get_port_id link == 0 then none else elim (net.get_addr link) [
      | none ↦ none
      | some smac ↦ elim neigh.lladdr [
        | none ↦ none
        | some dmac ↦ some (
          net.nlall2uint64 smac,
          (net.nlall2uint64 dmac, (net.get_port_id link, net.port_untagged_vid)),
        )
      ]
    ]
  ]

  unfoldable pub create_next_hop_of_neigh : Neigh A → Action (NlVxlan L A) (ℤ × ℕ)
  create_next_hop_of_neigh neigh = do
    id ← gets (λ s. s.next_hop_id_cnt)
    if id == 0 then abort else elim (tunnel_nh_of neigh) [
      | none ↦ pure (einval, 0)
      | some tnh ↦ do known ← gets (λ s. find tnh s.tunnel_next_hop_id); use_next_hop tnh known
    ]

  -- The end of `create_next_hop`, for the neighbour that is looked up.
  unfoldable pub create_next_hop_at :
      L → A → ℕ → A → Option (Neigh A) → Action (NlVxlan L A) (ℤ × ℕ)
  create_next_hop_at vxlan_link remote ifindex nh_addr neigh =
      let unresolved = (do
        notify (Notice.notify_on_nh_reachable remote (net.get_ifindex vxlan_link) nh_addr ifindex)
        pure (edestaddrreq, 0)) in
      elim neigh [
        | none ↦ unresolved
        | some n ↦ elim n.lladdr [
          | none ↦ unresolved
          | some _ ↦ do
            (rv, id) ← create_next_hop_of_neigh n
            pure (if is_neg rv then (einval, id) else (rv, id))
        ]
      ]

  unfoldable pub create_next_hop : L → A → Action (NlVxlan L A) (ℤ × ℕ)
  create_next_hop vxlan_link remote = elim (net.nexthops_to remote) [
    | none ↦ pure (einval, 0)
    | some [] ↦ pure (enetunreach, 0)
    | some (nh ∷ nhs) ↦
        let (ifindex, addr) = first_address 0 (nh ∷ nhs) in
        create_next_hop_at vxlan_link remote ifindex (or_remote addr remote)
          (net.get_neighbour ifindex (or_remote addr remote))
  ]

  -- The end of `delete_next_hop`: with its last user a next hop goes, also if the switch refuses.
  unfoldable pub release_next_hop : TunnelNh → TunnelNhPort → Action (NlVxlan L A) ℤ
  release_next_hop tnh p =
      if down p.refcnt == 0
      then (do
        call swi (Call.tunnel_next_hop_delete p.nh_id)
        modify (drop_next_hop tnh p)
        pure (pos 0))
      else do modify (count_next_hop tnh p (down p.refcnt)); pure (pos 0)

  unfoldable pub delete_next_hop_of_tnh : TunnelNh → Action (NlVxlan L A) ℤ
  delete_next_hop_of_tnh tnh = do
    known ← gets (λ s. find tnh s.tunnel_next_hop_id)
    elim known [ none ↦ pure einval | some p ↦ release_next_hop tnh p ]

  unfoldable pub delete_next_hop : ℕ → Action (NlVxlan L A) ℤ
  delete_next_hop nh_id = do
    known ← gets (λ s. find nh_id s.tunnel_next_hop2tnh)
    elim known [ none ↦ pure enodata | some tnh ↦ delete_next_hop_of_tnh tnh ]

  unfoldable pub delete_next_hop_of_neigh : Neigh A → Action (NlVxlan L A) ℤ
  delete_next_hop_of_neigh neigh = do
    id ← gets (λ s. s.next_hop_id_cnt)
    if id == 0 then abort else elim (tunnel_nh_of neigh) [
      | none ↦ pure einval
      | some tnh ↦ delete_next_hop_of_tnh tnh
    ]
