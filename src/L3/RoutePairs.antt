-- ===== src/L3/RoutePairs.antt =====
-- What del_l3_unicast_route takes away against what add_l3_unicast_route put on the switch.
use basebox.Prelude.{
  ℕ, ◌≡◌, ◌≢◌, ◌∙◌, refl, sym, ap, inl, inr, Bool, Option, none, some, ◌∷◌, ℤ, arith, ◌==◌,
  Option-cases, Bool-cases,
}
use basebox.Sai.{Ip, Mask, Call, SwitchInterface}
use basebox.L3.State.{NlL3}
use basebox.L3.Termination.{af_inet, af_inet6}
use basebox.L3.Masks.{build_mask_in4, build_mask_in6}
use basebox.L3.Routes.{
  Destination, route_add, route_remove, add_l3_unicast_route, del_l3_unicast_route,
}

-- What a call puts on the switch or takes off it: a host, or a route with its mask, in a VRF.
pub data Target : Type 0 where
  host : Ip → ℕ → Target
  route : Ip → Mask → ℕ → Target

abbrev pub added : Call → Option Target
added (Call.l3_unicast_host_add ip _ _ _ vrf_id) = some (host ip vrf_id)
added (Call.l3_unicast_route_add ip mask _ _ _ vrf_id) = some (route ip mask vrf_id)
added _ = none

abbrev pub removed : Call → Option Target
removed (Call.l3_unicast_host_remove ip vrf_id) = some (host ip vrf_id)
removed (Call.l3_unicast_route_remove ip mask vrf_id) = some (route ip mask vrf_id)
removed _ = none

-- Two calls are about the same target as two others that they equal.
same_targets :
    (k k' c c' : Call)
    → k ≡ c
    → k' ≡ c'
    → added k ≡ removed k'
    → added k ≢ none
    → (added c ≡ removed c') × (added c ≢ none)
same_targets k k' c c' e f same some_target =
    (sym (ap added e) ∙ same ∙ ap removed f, λ z. some_target (ap added e ∙ z))

calls_match :
    (dst : Destination) (id : ℕ) (is_ecmp update : Bool) (vrf_id : ℕ) (c c' : Call)
    → route_add dst id is_ecmp update vrf_id ≡ some c
    → route_remove dst vrf_id ≡ some c'
    → (added c ≡ removed c') × (added c ≢ none)
unfolding route_add route_remove
calls_match dst id is_ecmp update vrf_id c c' e f = elim (Bool-cases (dst.family == af_inet)) [
  | inl v4 ↦ elim (Option-cases (build_mask_in4 dst.prefixlen)) [
    | inl undefined ↦ absurd (ground arith)
    | inr (m, built) ↦ elim (Bool-cases (dst.prefixlen == 32)) [
      | inl whole ↦
          same_targets (Call.l3_unicast_host_add (Ip.in4 dst.value) id is_ecmp update vrf_id)
            (Call.l3_unicast_host_remove (Ip.in4 dst.value) vrf_id) c c' (ground arith)
            (ground arith) refl (λ z. ground arith)
      | inr part ↦
          same_targets
            (Call.l3_unicast_route_add (Ip.in4 dst.value) (Mask.mask4 m) id is_ecmp update vrf_id)
            (Call.l3_unicast_route_remove (Ip.in4 dst.value) (Mask.mask4 m) vrf_id) c c'
            (ground arith) (ground arith) refl (λ z. ground arith)
    ]
  ]
  | inr v6 ↦ elim (Option-cases (build_mask_in6 dst.prefixlen)) [
    | inl undefined ↦ absurd (ground arith)
    | inr (m, built) ↦ elim (Bool-cases (dst.prefixlen == 128)) [
      | inl whole ↦
          same_targets (Call.l3_unicast_host_add (Ip.in6 dst.value) id is_ecmp update vrf_id)
            (Call.l3_unicast_host_remove (Ip.in6 dst.value) vrf_id) c c' (ground arith)
            (ground arith) refl (λ z. ground arith)
      | inr part ↦
          same_targets
            (Call.l3_unicast_route_add (Ip.in6 dst.value) (Mask.mask6 m) id is_ecmp update vrf_id)
            (Call.l3_unicast_route_remove (Ip.in6 dst.value) (Mask.mask6 m) vrf_id) c c'
            (ground arith) (ground arith) refl (λ z. ground arith)
    ]
  ]
]

module _ {Group : Type 0} (swi : SwitchInterface) (dst : Destination) (vrf_id : ℕ)
    (s : NlL3 Group) where
  -- If add_l3_unicast_route and then del_l3_unicast_route return for the same address and VRF, each
  -- has made one call, and the second call takes away the host or route that the first one added.
  pub del-add_l3_unicast_route :
      (l3_interface_id : ℕ) (is_ecmp update_route : Bool) (rv rv' : ℤ) (t u : NlL3 Group)
      → add_l3_unicast_route swi (some dst) l3_interface_id is_ecmp update_route vrf_id s
        ≡ some (rv, t)
      → del_l3_unicast_route swi (some dst) vrf_id t ≡ some (rv', u)
      → (c : Call) × (c' : Call) × (u.log ≡ (c', rv') ∷ (c, rv) ∷ s.log)
        × (added c ≡ removed c')
        × (added c ≢ none)
  unfolding add_l3_unicast_route del_l3_unicast_route
  del-add_l3_unicast_route l3_interface_id is_ecmp update_route rv rv' t u e f =
      elim (Option-cases (route_add dst l3_interface_id is_ecmp update_route vrf_id)) [
        | inl undefined ↦ absurd (ground arith)
        | inr (c, adds) ↦ elim (Option-cases (route_remove dst vrf_id)) [
          | inl undefined ↦ absurd (ground arith)
          | inr (c', removes) ↦
              let matching =
                calls_match dst l3_interface_id is_ecmp update_route vrf_id c c' adds removes in
              (c, c', ground arith, matching.0, matching.1)
        ]
      ]

  -- Adding a host of IPv6 is undefined, since the mask that is built does not fit its sixteen bytes;
  -- removing one returns.
  add_host_undefined :
      (l3_interface_id : ℕ) (is_ecmp update_route : Bool)
      → dst.family ≡ af_inet6
      → dst.prefixlen ≡ 128
      → (add_l3_unicast_route swi (some dst) l3_interface_id is_ecmp update_route vrf_id s ≡ none)
        × (del_l3_unicast_route swi (some dst) vrf_id s ≢ none)
  unfolding add_l3_unicast_route del_l3_unicast_route route_add route_remove build_mask_in6
  add_host_undefined l3_interface_id is_ecmp update_route family length = ground arith
