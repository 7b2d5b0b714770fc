-- ===== src/Vxlan/Consistent.antt =====
-- The maps of next hops against each other, and the counts of all endpoints.
use mathlib.Core.Path.{subst}
use basebox.Prelude.{
  ℕ, ◌^◌, ◌<◌, ◌≡◌, ◌≢◌, inl, inr, refl, [], ◌∷◌, none, some, arith, find, nat_key, pair_key,
  find-emplace, find-insert_or_assign, find-erase, same, same_iff, same_refl, ◌==◌, Option-cases,
  Bool-cases,
}
use basebox.Vxlan.State.{TunnelNh, TunnelNhPort, EndpointPort, EndpointTunnelPort, NlVxlan}
use basebox.Vxlan.NextHops.{count_next_hop, enter_next_hop, drop_next_hop}
use basebox.Vxlan.Endpoints.{assign_endpoint, enter_endpoint, drop_endpoint}
use basebox.Vxlan.Counts.{IsBalanced, new-IsBalanced}

-- The two maps of next hops are inverse, the counter is 0 or above all ids that are taken, and the
-- counts of every endpoint add up.
pub record IsConsistent {L A : Type 0} (s : NlVxlan L A) : Type 0 where
  pub to :
      (tnh : TunnelNh) (p : TunnelNhPort)
      → find tnh s.tunnel_next_hop_id ≡ some p
      → find p.nh_id s.tunnel_next_hop2tnh ≡ some tnh
  pub from :
      (id : ℕ) (tnh : TunnelNh)
      → find id s.tunnel_next_hop2tnh ≡ some tnh
      → (p : TunnelNhPort) × ((find tnh s.tunnel_next_hop_id ≡ some p) × (p.nh_id ≡ id))
  pub below :
      (id : ℕ) (tnh : TunnelNh)
      → find id s.tunnel_next_hop2tnh ≡ some tnh
      → s.next_hop_id_cnt ≢ 0
      → id < s.next_hop_id_cnt
  pub counter : s.next_hop_id_cnt < 2 ^ 32
  pub balanced :
      (ep : EndpointPort) (e : EndpointTunnelPort) → find ep s.endpoint_id ≡ some e → IsBalanced e

module _ {L A : Type 0} where
  pub unused_id :
      (s : NlVxlan L A)
      → s.next_hop_id_cnt ≢ 0
      → IsConsistent s
      → find s.next_hop_id_cnt s.tunnel_next_hop2tnh ≡ none
  unused_id s positive h = elim (Option-cases (find s.next_hop_id_cnt s.tunnel_next_hop2tnh)) [
    | inl unused ↦ unused
    | inr (tnh, used) ↦ absurd (omega (arith, h.below s.next_hop_id_cnt tnh used positive))
  ]

  pub count_next_hop-IsConsistent :
      (tnh : TunnelNh) (p : TunnelNhPort) (n : ℕ) (s : NlVxlan L A)
      → find tnh s.tunnel_next_hop_id ≡ some p
      → IsConsistent s
      → IsConsistent (count_next_hop tnh p n s)
  unfolding count_next_hop
  count_next_hop-IsConsistent tnh p n s known h =
      let found = (λ (k : TunnelNh).
        find-insert_or_assign tnh k (record p { refcnt = n }) s.tunnel_next_hop_id) in
      record {
        to = λ k q e. ground (arith, found k, same_iff k tnh, h.to tnh p known, h.to k q);
        from = λ id k e.
            let (q, (at_k, its)) = h.from id k e in
            elim (Bool-cases (same k tnh)) [
              | inl hit ↦ (
                record p { refcnt = n },
                (ground (arith, found k), ground (arith, same_iff k tnh)),
              )
              | inr miss ↦ (q, (ground (arith, found k), its))
            ];
        below = h.below;
        counter = h.counter;
        balanced = h.balanced;
      }

  pub enter_next_hop-IsConsistent :
      (tnh : TunnelNh) (s : NlVxlan L A)
      → find tnh s.tunnel_next_hop_id ≡ none
      → s.next_hop_id_cnt ≢ 0
      → IsConsistent s
      → IsConsistent (enter_next_hop tnh s)
  unfolding enter_next_hop
  enter_next_hop-IsConsistent tnh s new positive h =
      let p : TunnelNhPort = record { refcnt = 1; nh_id = s.next_hop_id_cnt } in
      let found = (λ (k : TunnelNh). find-emplace tnh k p s.tunnel_next_hop_id) in
      let named = (λ (id : ℕ). find-emplace s.next_hop_id_cnt id tnh s.tunnel_next_hop2tnh) in
      let fresh = unused_id s positive h in
      record {
        to = λ k q e. ground (arith, found k, named q.nh_id, same_iff k tnh, h.to k q, fresh, new);
        from = λ id k e. elim (Bool-cases (id == s.next_hop_id_cnt)) [
          | inl hit ↦ (p, (ground (arith, found k, named id, same_refl tnh), ground arith))
          | inr miss ↦
              let (q, (at_k, its)) = h.from id k (ground (arith, named id)) in
              (q, (ground (arith, found k, same_iff k tnh), its))
        ];
        below = λ id k e nonzero. ground (arith, named id, h.below id k);
        counter = omega arith;
        balanced = h.balanced;
      }

  pub drop_next_hop-IsConsistent :
      (tnh : TunnelNh) (p : TunnelNhPort) (s : NlVxlan L A)
      → find tnh s.tunnel_next_hop_id ≡ some p
      → IsConsistent s
      → IsConsistent (drop_next_hop tnh p s)
  unfolding drop_next_hop
  drop_next_hop-IsConsistent tnh p s known h =
      let found = (λ (k : TunnelNh). find-erase tnh k s.tunnel_next_hop_id) in
      let named = (λ (id : ℕ). find-erase p.nh_id id s.tunnel_next_hop2tnh) in
      record {
        to = λ k q e.
            ground (arith, found k, named q.nh_id, same_iff k tnh, h.to tnh p known, h.to k q);
        from = λ id k e.
            let (q, (at_k, its)) = h.from id k (ground (arith, named id)) in
            (q, (ground (arith, found k, named id, same_iff k tnh), its));
        below = λ id k e. h.below id k (ground (arith, named id));
        counter = h.counter;
        balanced = h.balanced;
      }

  IsConsistent-endpoints :
      (s t : NlVxlan L A)
      → t.tunnel_next_hop_id ≡ s.tunnel_next_hop_id
      → t.tunnel_next_hop2tnh ≡ s.tunnel_next_hop2tnh
      → t.next_hop_id_cnt ≡ s.next_hop_id_cnt
      → IsConsistent s
      → ((ep : EndpointPort) (e : EndpointTunnelPort)
          → find ep t.endpoint_id ≡ some e
          → IsBalanced e)
      → IsConsistent t
  IsConsistent-endpoints s t e f g h balanced = record {
    to = λ tnh p at. ground (arith, h.to tnh p);
    from = λ id tnh at.
        let (p, (at_tnh, its)) = h.from id tnh (ground arith) in (p, (ground arith, its));
    below = λ id tnh at nonzero. ground (arith, h.below id tnh);
    counter = ground (arith, h.counter);
    balanced = balanced;
  }

  -- What the predicate speaks of.
  abbrev pub Agree : NlVxlan L A → NlVxlan L A → Type 0
  Agree s t =
      (t.tunnel_next_hop_id ≡ s.tunnel_next_hop_id)
      × ((t.tunnel_next_hop2tnh ≡ s.tunnel_next_hop2tnh)
          × ((t.next_hop_id_cnt ≡ s.next_hop_id_cnt) × (t.endpoint_id ≡ s.endpoint_id)))

  pub IsConsistent-same : (s t : NlVxlan L A) → Agree s t → IsConsistent s → IsConsistent t
  IsConsistent-same s t (e, (f, (g, k))) h =
      IsConsistent-endpoints s t e f g h (λ ep p at. h.balanced ep p (ground arith))

  pub assign_endpoint-IsConsistent :
      (ep : EndpointPort) (p : EndpointTunnelPort) (s : NlVxlan L A)
      → IsBalanced p
      → IsConsistent s
      → IsConsistent (assign_endpoint ep p s)
  unfolding assign_endpoint
  assign_endpoint-IsConsistent ep p s fair h =
      IsConsistent-endpoints s (assign_endpoint ep p s) refl refl refl h (λ k q at.
        let found = find-insert_or_assign ep k p s.endpoint_id in
        elim (Bool-cases (same k ep)) [
          | inl hit ↦ let its : p ≡ q = ground (arith, found) in subst IsBalanced its fair
          | inr miss ↦ h.balanced k q (ground (arith, found))
        ])

  pub enter_endpoint-IsConsistent :
      (ep : EndpointPort) (nh_id vni : ℕ) (s : NlVxlan L A)
      → IsConsistent s
      → IsConsistent (enter_endpoint ep nh_id vni s)
  unfolding enter_endpoint
  enter_endpoint-IsConsistent ep nh_id vni s h =
      let p : EndpointTunnelPort = record {
        refcnt = 1;
        lport_id = s.port_id_cnt;
        nh_id = nh_id;
        refcnt_vni = (vni, 1) ∷ [];
      } in
      IsConsistent-endpoints s (enter_endpoint ep nh_id vni s) refl refl refl h (λ k q at.
        let found = find-emplace ep k p s.endpoint_id in
        elim (Option-cases (find k s.endpoint_id)) [
          | inr (r, old) ↦ h.balanced k q (ground (arith, found, same_iff k ep))
          | inl new ↦
              let its : p ≡ q = ground (arith, found) in
              subst IsBalanced its (new-IsBalanced vni s.port_id_cnt nh_id)
        ])

  pub drop_endpoint-IsConsistent :
      (ep : EndpointPort) (s : NlVxlan L A) → IsConsistent s → IsConsistent (drop_endpoint ep s)
  unfolding drop_endpoint
  drop_endpoint-IsConsistent ep s h =
      IsConsistent-endpoints s (drop_endpoint ep s) refl refl refl h
        (λ k q at. h.balanced k q (ground (arith, find-erase ep k s.endpoint_id)))
