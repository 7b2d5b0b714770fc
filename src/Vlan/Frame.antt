-- ===== src/Vlan/Frame.antt =====
-- The maps of nl_vlan under the methods that only talk to the switch.
use basebox.Prelude.{
  ℕ, ◌≡◌, Bool, false, not, List, [], ◌∷◌, ℤ, arith, Method, for_each, until_error,
}
use basebox.Sai.{Call, SwitchInterface}
use basebox.Vlan.State.{Cnetlink, NlVlan, call}
use basebox.Vlan.Ingress.{members, add_ingress_vlan, remove_ingress_vlan}
use basebox.Vlan.Port.{enable_vlan, enable_egress_members, disable_vlan}
use basebox.Vlan.Bridge.{program_bridge_port, clear_bridge_port}

pub record Keeps (s t : NlVlan) : Type 0 where
  pub port_vlan : t.port_vlan ≡ s.port_vlan
  pub vlan_vrf : t.vlan_vrf ≡ s.vlan_vrf
  pub bridge_vlan : t.bridge_vlan ≡ s.bridge_vlan
  pub port_pvid : t.port_pvid ≡ s.port_pvid

pub Keeps-trans : {s t u : NlVlan} → Keeps s t → Keeps t u → Keeps s u
Keeps-trans h k = ground arith

pub for_each-Keeps :
    {A B : Type 0} (body : A → Method NlVlan B) (xs : List A) (s : NlVlan)
    → ((x : A) (t : NlVlan) → Keeps t (body x t).1)
    → Keeps s (for_each body xs s).1
unfolding for_each
for_each-Keeps body [] s h = ground arith
for_each-Keeps body (x ∷ xs) s h = Keeps-trans (h x s) (for_each-Keeps body xs (body x s).1 h)

pub until_error-Keeps :
    {A : Type 0} (body : A → Method NlVlan ℤ) (rv : ℤ) (xs : List A) (s : NlVlan)
    → ((x : A) (t : NlVlan) → Keeps t (body x t).1)
    → Keeps s (until_error body rv xs s).1
unfolding until_error
until_error-Keeps body rv [] s h = ground arith
until_error-Keeps body rv (x ∷ xs) s h =
    ground (arith, h x s, until_error-Keeps body (body x s).0 xs (body x s).1 h)

module _ (swi : SwitchInterface) (make : ℕ → Call) where
  pub calls-Keeps : (xs : List ℕ) (s : NlVlan) → Keeps s (for_each (λ x. call swi (make x)) xs s).1
  calls-Keeps xs s = for_each-Keeps (λ x. call swi (make x)) xs s (λ x t. ground arith)

  pub calls_until_error-Keeps :
      (rv : ℤ) (xs : List ℕ) (s : NlVlan) → Keeps s (until_error (λ x. call swi (make x)) rv xs s).1
  calls_until_error-Keeps rv xs s =
      until_error-Keeps (λ x. call swi (make x)) rv xs s (λ x t. ground arith)

module _ (nl : Cnetlink) (swi : SwitchInterface) (port_id vid : ℕ) (tagged : Bool)
    (vrf_id : ℕ) where
  pub remove_ingress_vlan-Keeps :
      (s : NlVlan) → Keeps s (remove_ingress_vlan nl swi port_id vid tagged vrf_id s).1
  unfolding remove_ingress_vlan
  remove_ingress_vlan-Keeps s = ground (
    arith,
    calls-Keeps swi (λ x. Call.ingress_port_vlan_remove x vid (not tagged) vrf_id)
        (members nl swi port_id) s,
  )

  pub add_ingress_vlan-Keeps :
      (s : NlVlan) → Keeps s (add_ingress_vlan nl swi port_id vid tagged vrf_id s).1
  unfolding add_ingress_vlan
  add_ingress_vlan-Keeps s =
      let first = call swi (Call.ingress_port_vlan_add port_id vid (not tagged) vrf_id) s in
      let looped =
        until_error (λ x. call swi (Call.ingress_port_vlan_add x vid (not tagged) vrf_id)) first.0
          (members nl swi port_id) first.1 in
      ground (
        arith,
        calls_until_error-Keeps swi (λ x. Call.ingress_port_vlan_add x vid (not tagged) vrf_id)
            first.0 (members nl swi port_id) first.1,
        remove_ingress_vlan-Keeps looped.1,
      )

  enable_egress_members-Keeps :
      (rv : ℤ) (s : NlVlan)
      → Keeps s (enable_egress_members nl swi port_id vid tagged vrf_id rv s).1
  unfolding enable_egress_members
  enable_egress_members-Keeps rv s =
      let looped =
        until_error (λ x. call swi (Call.egress_port_vlan_add x vid (not tagged) false)) rv
          (members nl swi port_id) s in
      let cleared =
        for_each (λ x. call swi (Call.egress_port_vlan_remove x vid)) (members nl swi port_id)
          looped.1 in
      ground (
        arith,
        calls_until_error-Keeps swi (λ x. Call.egress_port_vlan_add x vid (not tagged) false) rv
            (members nl swi port_id) s,
        calls-Keeps swi (λ x. Call.egress_port_vlan_remove x vid) (members nl swi port_id) looped.1,
        remove_ingress_vlan-Keeps (call swi (Call.egress_port_vlan_remove port_id vid) cleared.1).1,
      )

  pub enable_vlan-Keeps : (s : NlVlan) → Keeps s (enable_vlan nl swi port_id vid tagged vrf_id s).1
  unfolding enable_vlan
  enable_vlan-Keeps s =
      let in_done = add_ingress_vlan nl swi port_id vid tagged vrf_id s in
      let out_done =
        call swi (Call.egress_port_vlan_add port_id vid (not tagged) false) in_done.1 in
      ground (
        arith,
        add_ingress_vlan-Keeps s,
        remove_ingress_vlan-Keeps out_done.1,
        enable_egress_members-Keeps out_done.0 out_done.1,
      )

  pub disable_vlan-Keeps :
      (s : NlVlan) → Keeps s (disable_vlan nl swi port_id vid tagged vrf_id s).1
  unfolding disable_vlan
  disable_vlan-Keeps s =
      let in_done = remove_ingress_vlan nl swi port_id vid tagged vrf_id s in
      let flushed = call swi (Call.l2_addr_remove_all_in_vlan port_id vid) in_done.1 in
      ground (
        arith,
        remove_ingress_vlan-Keeps s,
        calls-Keeps swi (λ x. Call.egress_port_vlan_remove x vid) (members nl swi port_id)
            flushed.1,
      )

pub program_bridge_port-Keeps :
    (nl : Cnetlink) (swi : SwitchInterface) (vid outer_vid : ℕ) (pvid tagged : Bool)
    (vrf_id port : ℕ) (s : NlVlan)
    → Keeps s (program_bridge_port nl swi vid outer_vid pvid tagged vrf_id port s).1
unfolding program_bridge_port
program_bridge_port-Keeps nl swi vid outer_vid pvid tagged vrf_id port s = ground arith

pub clear_bridge_port-Keeps :
    (nl : Cnetlink) (swi : SwitchInterface) (vid outer_vid : ℕ) (pvid : Bool) (vrf_id port : ℕ)
    (s : NlVlan)
    → Keeps s (clear_bridge_port nl swi vid outer_vid pvid vrf_id port s).1
unfolding clear_bridge_port
clear_bridge_port-Keeps nl swi vid outer_vid pvid vrf_id port s = ground arith
