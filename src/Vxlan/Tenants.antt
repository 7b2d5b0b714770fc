-- ===== src/Vxlan/Tenants.antt =====
-- The tenants that stand on the switch against the VNIs that are entered.
use basebox.Prelude.{
  ℕ, ◌+◌, ◌^◌, ◌<◌, ◌≤◌, ◌≡◌, ◌≢◌, inl, inr, List, [], ◌∷◌, Option, none, some, ℤ, pos, is_neg,
  length, arith, find, nat_key, find-emplace, find-erase, ◌==◌, if◌then◌else◌, Option-cases,
  Bool-cases,
}
use basebox.Sai.{Call, Log, SwitchInterface}
use basebox.Vxlan.Action.{Action, last_result}
use basebox.Vxlan.State.{Network, NlVxlan}
use basebox.Vxlan.Vnis.{
  get_tunnel_id, enter_vni, drop_vni, create_tenant, create_vni, delete_tenant, remove_vni,
}

-- The VNI of the tenant with that id on the switch.
unfoldable pub tenant_of : ℕ → Log → Option ℕ
tenant_of id [] = none
tenant_of id ((Call.tunnel_tenant_create made vni, rv) ∷ l) =
    let before = tenant_of id l in
    if is_neg rv then before else if made == id then some vni else before
tenant_of id ((Call.tunnel_tenant_delete gone, rv) ∷ l) =
    let before = tenant_of id l in if is_neg rv then before else if gone == id then none else before
tenant_of id ((c, rv) ∷ l) = tenant_of id l

-- Every VNI that is entered has its own tenant on the switch, with an id below the counter.
pub record IsTunnelled {L A : Type 0} (s : NlVxlan L A) : Type 0 where
  pub standing : (vni id : ℕ) → find vni s.vni2tunnel ≡ some id → tenant_of id s.log ≡ some vni
  pub below : (vni id : ℕ) → find vni s.vni2tunnel ≡ some id → id < s.tunnel_id_cnt

unchanged-IsTunnelled :
    {L A : Type 0} (s t : NlVxlan L A)
    → s ≡ t
    → IsTunnelled s
    → IsTunnelled t × (t.tunnel_id_cnt ≤ s.tunnel_id_cnt + 1)
unchanged-IsTunnelled s t same h = (
  record {
    standing = λ vni id at. ground (arith, h.standing vni id);
    below = λ vni id at. ground (arith, h.below vni id);
  },
  ground arith,
)

-- A VXLAN link that appears or goes.
pub data VniRequest (L : Type 0) : Type 0 where
  creates removes : L → VniRequest L

module _ {L A : Type 0} (swi : SwitchInterface) where
  unfoldable pub serve_vni : Network L A × VniRequest L → Action (NlVxlan L A) ℤ
  serve_vni (net, VniRequest.creates link) = create_vni net swi link
  serve_vni (net, VniRequest.removes link) = remove_vni net swi link

  unfoldable pub serve_vnis : List (Network L A × VniRequest L) → Action (NlVxlan L A) ℤ
  serve_vnis = last_result serve_vni (pos 0)

  module _ (net : Network L A) where
    create_tenant-IsTunnelled :
        (vni : ℕ) (s : NlVxlan L A) (rv : ℤ) (t : NlVxlan L A)
        → create_tenant net swi vni s ≡ some (rv, t)
        → s.tunnel_id_cnt + 1 < 2 ^ 32
        → IsTunnelled s
        → IsTunnelled t × (t.tunnel_id_cnt ≤ s.tunnel_id_cnt + 1)
    unfolding create_tenant enter_vni tenant_of
    create_tenant-IsTunnelled vni s rv t e bound h = (
      record {
        standing = λ v id at.
            ground (
              arith,
              find-emplace vni v s.tunnel_id_cnt s.vni2tunnel,
              h.standing v id,
              h.below v id,
            );
        below = λ v id at.
            ground (arith, find-emplace vni v s.tunnel_id_cnt s.vni2tunnel, h.below v id);
      },
      ground arith,
    )

    delete_tenant-IsTunnelled :
        (vni gone : ℕ) (s : NlVxlan L A) (rv : ℤ) (t : NlVxlan L A)
        → delete_tenant net swi vni gone s ≡ some (rv, t)
        → find vni s.vni2tunnel ≡ some gone
        → IsTunnelled s
        → IsTunnelled t × (t.tunnel_id_cnt ≡ s.tunnel_id_cnt)
    unfolding delete_tenant drop_vni tenant_of
    delete_tenant-IsTunnelled vni gone s rv t e known h = (
      record {
        standing = λ v id at.
            ground
              (arith, find-erase vni v s.vni2tunnel, h.standing v id, h.standing vni gone known);
        below = λ v id at. ground (arith, find-erase vni v s.vni2tunnel, h.below v id);
      },
      ground arith,
    )

    create_vni-IsTunnelled :
        (link : L) (s : NlVxlan L A) (rv : ℤ) (t : NlVxlan L A)
        → create_vni net swi link s ≡ some (rv, t)
        → s.tunnel_id_cnt + 1 < 2 ^ 32
        → IsTunnelled s
        → IsTunnelled t × (t.tunnel_id_cnt ≤ s.tunnel_id_cnt + 1)
    unfolding create_vni get_tunnel_id
    create_vni-IsTunnelled link s rv t e bound h = elim (Bool-cases (net.is_vxlan link)) [
      | inl vxlan ↦ elim (Option-cases (net.vxlan_id link)) [
        | inl unset ↦ create_tenant-IsTunnelled 0 s rv t (ground arith) bound h
        | inr (vni, set) ↦ elim (Option-cases (find vni s.vni2tunnel)) [
          | inl new ↦ create_tenant-IsTunnelled vni s rv t (ground arith) bound h
          | inr (id, known) ↦ unchanged-IsTunnelled s t (ground arith) h
        ]
      ]
      | inr other ↦ unchanged-IsTunnelled s t (ground arith) h
    ]

    remove_vni-IsTunnelled :
        (link : L) (s : NlVxlan L A) (rv : ℤ) (t : NlVxlan L A)
        → remove_vni net swi link s ≡ some (rv, t)
        → IsTunnelled s
        → IsTunnelled t × (t.tunnel_id_cnt ≤ s.tunnel_id_cnt + 1)
    unfolding remove_vni get_tunnel_id
    remove_vni-IsTunnelled link s rv t e h = elim (Option-cases (net.vxlan_id link)) [
      | inl unset ↦ unchanged-IsTunnelled s t (ground arith) h
      | inr (vni, set) ↦ elim (Option-cases (find vni s.vni2tunnel)) [
        | inl new ↦ unchanged-IsTunnelled s t (ground arith) h
        | inr (id, known) ↦
            let (h', same_counter) =
              delete_tenant-IsTunnelled vni id s rv t (ground arith) known h in
            (h', omega (arith, same_counter))
      ]
    ]

  serve_vni-IsTunnelled :
      (r : Network L A × VniRequest L) (s : NlVxlan L A) (rv : ℤ) (t : NlVxlan L A)
      → serve_vni r s ≡ some (rv, t)
      → s.tunnel_id_cnt + 1 < 2 ^ 32
      → IsTunnelled s
      → IsTunnelled t × (t.tunnel_id_cnt ≤ s.tunnel_id_cnt + 1)
  unfolding serve_vni
  serve_vni-IsTunnelled (net, VniRequest.creates link) s rv t e bound h =
      create_vni-IsTunnelled net link s rv t e bound h
  serve_vni-IsTunnelled (net, VniRequest.removes link) s rv t e bound h =
      remove_vni-IsTunnelled net link s rv t e h

  results-IsTunnelled :
      (rs : List (Network L A × VniRequest L)) (last : ℤ) (s : NlVxlan L A) (rv : ℤ)
      (t : NlVxlan L A)
      → last_result serve_vni last rs s ≡ some (rv, t)
      → s.tunnel_id_cnt + length rs < 2 ^ 32
      → IsTunnelled s
      → IsTunnelled t
  unfolding last_result
  results-IsTunnelled [] last s rv t e bound h = (unchanged-IsTunnelled s t (ground arith) h).0
  results-IsTunnelled (r ∷ rs) last s rv t e bound h = elim (Option-cases (serve_vni r s)) [
    | inl aborted ↦ absurd (ground arith)
    | inr ((first, u), returned) ↦
        let (h', counter) = serve_vni-IsTunnelled r s first u returned (omega (arith, bound)) h in
        results-IsTunnelled rs first u rv t (ground arith) (omega (arith, bound, counter)) h'
  ]

  -- After any history of VXLAN links that appear and go, too short for the counter of tunnels to
  -- reach 2^32, and whatever the switch answers: if every VNI had its own tenant before, then for
  -- any two different VNIs that are entered, the first has its tenant on the switch, and the second
  -- has another one.
  pub serve_vnis-IsTunnelled :
      (rs : List (Network L A × VniRequest L)) (s : NlVxlan L A) (rv : ℤ) (t : NlVxlan L A)
      (vni other id other_id : ℕ)
      → serve_vnis rs s ≡ some (rv, t)
      → s.tunnel_id_cnt + length rs < 2 ^ 32
      → IsTunnelled s
      → find vni t.vni2tunnel ≡ some id
      → find other t.vni2tunnel ≡ some other_id
      → vni ≢ other
      → (tenant_of id t.log ≡ some vni) × (id ≢ other_id)
  unfolding serve_vnis
  serve_vnis-IsTunnelled rs s rv t vni other id other_id e bound h at at_other distinct =
      let h' = results-IsTunnelled rs (pos 0) s rv t e bound h in
      (
        h'.standing vni id at,
        λ same_id. ground (arith, h'.standing vni id at, h'.standing other other_id at_other),
      )
