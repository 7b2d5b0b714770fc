-- ===== src/L3/Routes.antt =====
-- Routes and hosts on the switch.
use basebox.Prelude.{ℕ, Bool, Option, none, some, ℤ, einval, ◌==◌, if◌then◌else◌}
use basebox.Sai.{Ip, Mask, Call, SwitchInterface}
use basebox.L3.State.{NlL3, call}
use basebox.L3.Termination.{af_inet, af_inet6}
use basebox.L3.Masks.{build_mask_in4, build_mask_in6}

-- An address as libnl reports it: its family, the length of its prefix, and its value.
pub record Destination : Type 0 where
  pub family : ℕ
  pub prefixlen : ℕ
  pub value : ℕ

-- What the source does with a mask, none where the mask is undefined.
abbrev with_mask4 {ℓ} : {A : Type ℓ} → ℕ → (Mask → A) → Option A
with_mask4 prefixlen f = elim (build_mask_in4 prefixlen) [
  | none ↦ none
  | some m ↦ some (f (Mask.mask4 m))
]

abbrev with_mask6 {ℓ} : {A : Type ℓ} → ℕ → (Mask → A) → Option A
with_mask6 prefixlen f = elim (build_mask_in6 prefixlen) [
  | none ↦ none
  | some m ↦ some (f (Mask.mask6 m))
]

-- The mask is built before the length is looked at.
unfoldable pub route_add : Destination → ℕ → Bool → Bool → ℕ → Option Call
route_add dst l3_interface_id is_ecmp update_route vrf_id =
    if dst.family == af_inet
    then with_mask4 dst.prefixlen (λ mask.
      if dst.prefixlen == 32
      then Call.l3_unicast_host_add (Ip.in4 dst.value) l3_interface_id is_ecmp update_route vrf_id
      else Call.l3_unicast_route_add (Ip.in4 dst.value) mask l3_interface_id is_ecmp update_route
          vrf_id)
    else if dst.family == af_inet6
    then with_mask6 dst.prefixlen (λ mask.
      if dst.prefixlen == 128
      then Call.l3_unicast_host_add (Ip.in6 dst.value) l3_interface_id is_ecmp update_route vrf_id
      else Call.l3_unicast_route_add (Ip.in6 dst.value) mask l3_interface_id is_ecmp update_route
          vrf_id)
    else none

-- Here the mask is built for routes only.
unfoldable pub route_remove : Destination → ℕ → Option Call
route_remove dst vrf_id =
    if dst.family == af_inet
    then if dst.prefixlen == 32
      then some (Call.l3_unicast_host_remove (Ip.in4 dst.value) vrf_id)
      else with_mask4 dst.prefixlen
          (λ mask. Call.l3_unicast_route_remove (Ip.in4 dst.value) mask vrf_id)
    else if dst.prefixlen == 128
    then some (Call.l3_unicast_host_remove (Ip.in6 dst.value) vrf_id)
    else with_mask6 dst.prefixlen
        (λ mask. Call.l3_unicast_route_remove (Ip.in6 dst.value) mask vrf_id)

module _ {Group : Type 0} (swi : SwitchInterface) where
  -- `rt_dst` is none for the null pointer. The results of the conversions are overwritten.
  unfoldable pub add_l3_unicast_route :
      Option Destination → ℕ → Bool → Bool → ℕ → NlL3 Group → Option (ℤ × NlL3 Group)
  add_l3_unicast_route none l3_interface_id is_ecmp update_route vrf_id s = some (einval, s)
  add_l3_unicast_route (some dst) l3_interface_id is_ecmp update_route vrf_id s =
      elim (route_add dst l3_interface_id is_ecmp update_route vrf_id) [
        | none ↦ none
        | some c ↦ some (call swi c s)
      ]

  unfoldable pub del_l3_unicast_route :
      Option Destination → ℕ → NlL3 Group → Option (ℤ × NlL3 Group)
  del_l3_unicast_route none vrf_id s = none
  del_l3_unicast_route (some dst) vrf_id s = elim (route_remove dst vrf_id) [
    | none ↦ none
    | some c ↦ some (call swi c s)
  ]
