-- ===== src/Vxlan/NextHopPairs.antt =====
-- A next hop that is asked for and given back.
use basebox.Prelude.{
  ℕ, ◌^◌, ◌<◌, ◌≡◌, ◌≢◌, inl, inr, ap, ◌∷◌, false, some, ℤ, pos, is_neg, arith, find, emplace,
  insert_or_assign, nat_key, pair_key, find-emplace, find-insert_or_assign, find-erase, same_iff,
  same_refl, Option-cases,
}
use basebox.Sai.{Call, SwitchInterface}
use basebox.Vxlan.State.{TunnelNh, TunnelNhPort, Neigh, Network, NlVxlan, up, down}
use basebox.Vxlan.NextHops.{
  count_next_hop, enter_next_hop, drop_next_hop, use_next_hop, create_next_hop_of_neigh,
  release_next_hop, delete_next_hop_of_tnh, delete_next_hop, tunnel_nh_of,
}
use basebox.Vxlan.Consistent.{IsConsistent, unused_id}

restored : (p : TunnelNhPort) → p.refcnt < 2 ^ 32 → record p { refcnt = down (up p.refcnt) } ≡ p
restored p bound =
    let same_count : down (up p.refcnt) ≡ p.refcnt = omega (arith, bound) in
    ap (λ n. record p { refcnt = n }) same_count

module _ {L A : Type 0} (net : Network L A) (swi : SwitchInterface) where
  -- With other users left, only the count changes.
  pub delete_next_hop_shared :
      (id : ℕ) (tnh : TunnelNh) (p : TunnelNhPort) (s : NlVxlan L A)
      → find id s.tunnel_next_hop2tnh ≡ some tnh
      → find tnh s.tunnel_next_hop_id ≡ some p
      → down p.refcnt ≢ 0
      → delete_next_hop net swi id s ≡ some (pos 0, count_next_hop tnh p (down p.refcnt) s)
  unfolding delete_next_hop delete_next_hop_of_tnh release_next_hop
  delete_next_hop_shared id tnh p s named known more = ground arith

  -- The last user.
  pub delete_next_hop_last :
      (id : ℕ) (tnh : TunnelNh) (p : TunnelNhPort) (s : NlVxlan L A)
      → find id s.tunnel_next_hop2tnh ≡ some tnh
      → find tnh s.tunnel_next_hop_id ≡ some p
      → down p.refcnt ≡ 0
      → delete_next_hop net swi id s
        ≡ some (
          pos 0,
          drop_next_hop tnh p (record s {
            log =
                (
                  Call.tunnel_next_hop_delete p.nh_id,
                  swi.answer s.log (Call.tunnel_next_hop_delete p.nh_id),
                )
                ∷ s.log;
          }),
        )
  unfolding delete_next_hop delete_next_hop_of_tnh release_next_hop
  delete_next_hop_last id tnh p s named known last = ground arith

  -- A next hop that is counted from 1 to 2^32 - 1, or not there, is counted as before once the id
  -- that create_next_hop gave for a neighbour is deleted again, and so is any other; the deletion
  -- returns 0.
  pub delete_next_hop-create_next_hop_of_neigh :
      (n : Neigh A) (tnh k : TunnelNh) (s t : NlVxlan L A) (rv : ℤ) (id : ℕ)
      → IsConsistent s
      → tunnel_nh_of net swi n ≡ some tnh
      → ((p : TunnelNhPort)
          → find tnh s.tunnel_next_hop_id ≡ some p
          → (0 < p.refcnt) × (p.refcnt < 2 ^ 32))
      → create_next_hop_of_neigh net swi n s ≡ some ((rv, id), t)
      → is_neg rv ≡ false
      → (u : NlVxlan L A) × ((delete_next_hop net swi id t ≡ some (pos 0, u))
          × (find k u.tunnel_next_hop_id ≡ find k s.tunnel_next_hop_id))
  unfolding create_next_hop_of_neigh use_next_hop enter_next_hop count_next_hop drop_next_hop
  delete_next_hop-create_next_hop_of_neigh n tnh k s t rv id h its its_count e made =
      elim (Option-cases (find tnh s.tunnel_next_hop_id)) [
        | inr (p, known) ↦
            let q : TunnelNhPort = record p { refcnt = up p.refcnt } in
            let bounds = its_count p known in
            let found = find-insert_or_assign tnh tnh q s.tunnel_next_hop_id in
            let again = find-insert_or_assign tnh k q s.tunnel_next_hop_id in
            let changed : t.tunnel_next_hop_id ≡ insert_or_assign tnh q s.tunnel_next_hop_id =
              ground arith in
            let now : find tnh t.tunnel_next_hop_id ≡ some q =
              ground (arith, found, same_refl tnh) in
            let named : find id t.tunnel_next_hop2tnh ≡ some tnh =
              ground (arith, h.to tnh p known) in
            let back =
              find-insert_or_assign tnh k (record q { refcnt = down q.refcnt })
                t.tunnel_next_hop_id in
            (
              count_next_hop tnh q (down q.refcnt) t,
              (
                delete_next_hop_shared id tnh q t named now (omega (arith, bounds)),
                ground (arith, back, again, same_iff k tnh, restored p bounds.1),
              ),
            )
        | inl new ↦
            let p : TunnelNhPort = record { refcnt = 1; nh_id = s.next_hop_id_cnt } in
            let changed : t.tunnel_next_hop_id ≡ emplace tnh p s.tunnel_next_hop_id =
              ground arith in
            let now : find tnh t.tunnel_next_hop_id ≡ some p =
              ground (arith, find-emplace tnh tnh p s.tunnel_next_hop_id, same_refl tnh) in
            let named : find id t.tunnel_next_hop2tnh ≡ some tnh = ground (
              arith,
              find-emplace s.next_hop_id_cnt s.next_hop_id_cnt tnh s.tunnel_next_hop2tnh,
              unused_id s (ground arith) h,
            ) in
            let log =
              (
                Call.tunnel_next_hop_delete p.nh_id,
                swi.answer t.log (Call.tunnel_next_hop_delete p.nh_id),
              )
              ∷ t.log in
            (
              drop_next_hop tnh p (record t { log = log }),
              (
                delete_next_hop_last id tnh p t named now (omega arith),
                ground (
                  arith,
                  find-erase tnh k t.tunnel_next_hop_id,
                  find-emplace tnh k p s.tunnel_next_hop_id,
                  same_iff k tnh,
                ),
              ),
            )
      ]
