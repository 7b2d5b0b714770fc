-- ===== src/Vxlan/NextHopsKeep.antt =====
-- The actions on next hops keep the maps consistent.
use basebox.Prelude.{
  ℕ, ◌≡◌, inl, inr, refl, List, [], ◌∷◌, Option, none, some, is_neg, einval, enodata, enetunreach,
  edestaddrreq, arith, find, nat_key, pair_key, ◌==◌, if◌then◌else◌, Option-cases, Bool-cases,
}
use basebox.Sai.{Call, SwitchInterface}
use basebox.Vxlan.State.{TunnelNh, Neigh, Nexthop, Network, Notice, notify, up, down}
use basebox.Vxlan.NextHops.{
  count_next_hop, enter_next_hop, drop_next_hop, use_next_hop, create_next_hop_of_neigh,
  create_next_hop_at, create_next_hop, release_next_hop, delete_next_hop_of_tnh, delete_next_hop,
  tunnel_nh_of,
}
use basebox.Vxlan.Yields.{Yields}
use basebox.Vxlan.Steady.{
  Steady, notify-Steady, pure-Steady, then-Steady, read-Steady, option-Steady,
}
use basebox.Vxlan.Consistent.{
  IsConsistent-same, count_next_hop-IsConsistent, enter_next_hop-IsConsistent,
  drop_next_hop-IsConsistent,
}

module _ {L A : Type 0} (net : Network L A) (swi : SwitchInterface) where
  abbrev creation : ℕ → TunnelNh → Call
  creation id (smac, (dmac, (pport, vid))) = Call.tunnel_next_hop_create id smac dmac pport vid

  create_next_hop_of_neigh-Steady : (n : Neigh A) → Steady (create_next_hop_of_neigh net swi n)
  unfolding Yields create_next_hop_of_neigh use_next_hop enter_next_hop count_next_hop
  create_next_hop_of_neigh-Steady n s (rv, id) t e h =
      elim (Option-cases (tunnel_nh_of net swi n)) [
        | inl unknown ↦ (IsConsistent-same s t (ground arith) h, tt)
        | inr (tnh, its) ↦ elim (Option-cases (find tnh s.tunnel_next_hop_id)) [
          | inr (p, known) ↦ (
            IsConsistent-same (count_next_hop tnh p (up p.refcnt) s) t (ground arith)
                (count_next_hop-IsConsistent tnh p (up p.refcnt) s known h),
            tt,
          )
          | inl new ↦
              let id = s.next_hop_id_cnt in
              elim (Bool-cases (is_neg (swi.answer s.log (creation id tnh)))) [
                | inl refused ↦ (IsConsistent-same s t (ground arith) h, tt)
                | inr made ↦ (
                  IsConsistent-same (enter_next_hop tnh s) t (ground arith)
                      (enter_next_hop-IsConsistent tnh s new (ground arith) h),
                  tt,
                )
              ]
        ]
      ]

  create_next_hop_at-Steady :
      (vxlan_link : L) (remote : A) (ifindex : ℕ) (addr : A) (neigh : Option (Neigh A))
      → Steady (create_next_hop_at net swi vxlan_link remote ifindex addr neigh)
  unfolding create_next_hop_at
  create_next_hop_at-Steady vxlan_link remote ifindex addr neigh =
      let notice = Notice.notify_on_nh_reachable remote (net.get_ifindex vxlan_link) addr ifindex in
      let unresolved =
        then-Steady (notify notice) _ (notify-Steady notice)
          (λ a. pure-Steady L A (edestaddrreq, 0)) in
      option-Steady neigh _ _ unresolved (λ n. option-Steady n.lladdr _ _ unresolved (λ lladdr.
        then-Steady _ _ (create_next_hop_of_neigh-Steady n)
          (λ (rv, id). pure-Steady L A (if is_neg rv then (einval, id) else (rv, id)))))

  -- The next hops of a route, and what is done with them.
  of_route-Steady :
      (vxlan_link : L) (remote : A) (nhs : Option (List (Nexthop A)))
      → net.nexthops_to remote ≡ nhs
      → Steady (create_next_hop net swi vxlan_link remote)
  unfolding create_next_hop
  of_route-Steady vxlan_link remote none e = rw (e, create_next_hop) (pure-Steady L A (einval, 0))
  of_route-Steady vxlan_link remote (some []) e =
      rw (e, create_next_hop) (pure-Steady L A (enetunreach, 0))
  of_route-Steady vxlan_link remote (some (nh ∷ nhs)) e =
      rw (e, create_next_hop) (create_next_hop_at-Steady vxlan_link remote _ _ _)

  pub create_next_hop-Steady :
      (vxlan_link : L) (remote : A) → Steady (create_next_hop net swi vxlan_link remote)
  create_next_hop-Steady vxlan_link remote = of_route-Steady vxlan_link remote _ refl

  release_next_hop-Steady : (tnh : TunnelNh) → Steady (delete_next_hop_of_tnh net swi tnh)
  unfolding Yields delete_next_hop_of_tnh release_next_hop drop_next_hop count_next_hop
  release_next_hop-Steady tnh s rv t e h = elim (Option-cases (find tnh s.tunnel_next_hop_id)) [
    | inl unknown ↦ (IsConsistent-same s t (ground arith) h, tt)
    | inr (p, known) ↦ elim (Bool-cases (down p.refcnt == 0)) [
      | inl last ↦ (
        IsConsistent-same (drop_next_hop tnh p s) t (ground arith)
            (drop_next_hop-IsConsistent tnh p s known h),
        tt,
      )
      | inr more ↦ (
        IsConsistent-same (count_next_hop tnh p (down p.refcnt) s) t (ground arith)
            (count_next_hop-IsConsistent tnh p (down p.refcnt) s known h),
        tt,
      )
    ]
  ]

  pub delete_next_hop-Steady : (nh_id : ℕ) → Steady (delete_next_hop net swi nh_id)
  unfolding delete_next_hop
  delete_next_hop-Steady nh_id = read-Steady _ _ (λ known.
      option-Steady known _ _ (pure-Steady L A enodata) (λ tnh. release_next_hop-Steady tnh))
