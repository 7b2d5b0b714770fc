-- ===== src/Vlan/Rollback.antt =====
-- The error paths of `enable_vlan`: what a failed attempt leaves on the switch.
use basebox.Prelude.{
  ℕ, ◌≡◌, refl, ◌⊎◌, Bool, true, false, not, ◌||◌, ℤ, is_neg, arith, for_each, until_error,
}
use basebox.Sai.{Call, SwitchInterface}
use basebox.Vlan.State.{Cnetlink, NlVlan, call}
use basebox.Vlan.Entries.{Entry, adds, removes, installed, IsObliging}
use basebox.Vlan.Loops.{any, any-congr, for_each_mono, for_each-clears, until_error-adds}
use basebox.Vlan.Ingress.{members, add_ingress_vlan, remove_ingress_vlan}
use basebox.Vlan.Port.{enable_vlan, enable_egress_members}

-- The entries of one VLAN on a list of ports.
abbrev pub ingress_at : ℕ → Bool → ℕ → ℕ → Call
ingress_at vid untagged vrf_id port = Call.ingress_port_vlan_add port vid untagged vrf_id

abbrev pub no_ingress_at : ℕ → Bool → ℕ → ℕ → Call
no_ingress_at vid untagged vrf_id port = Call.ingress_port_vlan_remove port vid untagged vrf_id

abbrev pub egress_at : ℕ → Bool → ℕ → Call
egress_at vid untagged port = Call.egress_port_vlan_add port vid untagged false

abbrev pub no_egress_at : ℕ → ℕ → Call
no_egress_at vid port = Call.egress_port_vlan_remove port vid

no_ingress_at-adds :
    (vid : ℕ) (u : Bool) (vrf_id : ℕ) (e : Entry) (x : ℕ)
    → adds (no_ingress_at vid u vrf_id x) e ≡ false
no_ingress_at-adds vid u vrf_id e x = refl

pub no_ingress_at-removes :
    (vid : ℕ) (u : Bool) (vrf_id : ℕ) (e : Entry) (x : ℕ)
    → removes (no_ingress_at vid u vrf_id x) e ≡ adds (ingress_at vid u vrf_id x) e
no_ingress_at-removes vid u vrf_id (Entry.ingress p v w r) x = refl
no_ingress_at-removes vid u vrf_id (Entry.egress p v) x = refl

pub no_egress_at-removes :
    (vid : ℕ) (u : Bool) (e : Entry) (x : ℕ)
    → removes (no_egress_at vid x) e ≡ adds (egress_at vid u x) e
no_egress_at-removes vid u (Entry.ingress p v w r) x = refl
no_egress_at-removes vid u (Entry.egress p v) x = refl

module _ (nl : Cnetlink) (swi : SwitchInterface) (port_id vid : ℕ) (tagged : Bool) (vrf_id : ℕ)
    (e : Entry) where
  -- The entry is one that the ingress side makes, or one that the egress side makes.
  unfoldable pub ours_in : Bool
  ours_in =
      adds (ingress_at vid (not tagged) vrf_id port_id) e
      || any (λ x. adds (ingress_at vid (not tagged) vrf_id x) e) (members nl swi port_id)

  unfoldable pub ours_out : Bool
  ours_out =
      adds (egress_at vid (not tagged) port_id) e
      || any (λ x. adds (egress_at vid (not tagged) x) e) (members nl swi port_id)

  remove_ingress_vlan_mono :
      (s : NlVlan)
      → installed e (remove_ingress_vlan nl swi port_id vid tagged vrf_id s).1.log ≡ true
      → installed e s.log ≡ true
  unfolding remove_ingress_vlan installed
  remove_ingress_vlan_mono s h = ground (
    arith,
    for_each_mono swi (no_ingress_at vid (not tagged) vrf_id) e (members nl swi port_id) s
        (no_ingress_at-adds vid (not tagged) vrf_id e),
  )

  pub remove_ingress_vlan-clears :
      (s : NlVlan)
      → IsObliging swi
      → ours_in ≡ true
      → installed e (remove_ingress_vlan nl swi port_id vid tagged vrf_id s).1.log ≡ false
  unfolding remove_ingress_vlan installed ours_in
  remove_ingress_vlan-clears s obliging h =
      let looped =
        for_each (λ x. call swi (no_ingress_at vid (not tagged) vrf_id x)) (members nl swi port_id)
          s in
      ground (
        arith,
        obliging.0 looped.1.log port_id vid (not tagged) vrf_id,
        no_ingress_at-removes vid (not tagged) vrf_id e port_id,
        any-congr (λ x. removes (no_ingress_at vid (not tagged) vrf_id x) e)
            (λ x. adds (ingress_at vid (not tagged) vrf_id x) e) (members nl swi port_id)
            (no_ingress_at-removes vid (not tagged) vrf_id e),
        for_each-clears swi (no_ingress_at vid (not tagged) vrf_id) e (members nl swi port_id) s
            (λ l x. obliging.0 l x vid (not tagged) vrf_id)
            (no_ingress_at-adds vid (not tagged) vrf_id e),
      )

  -- A failed attempt on the ingress side leaves no new entry.
  add_ingress_vlan_rollback :
      (s : NlVlan)
      → IsObliging swi
      → is_neg (add_ingress_vlan nl swi port_id vid tagged vrf_id s).0 ≡ true
      → installed e (add_ingress_vlan nl swi port_id vid tagged vrf_id s).1.log ≡ true
      → installed e s.log ≡ true
  unfolding add_ingress_vlan installed ours_in
  add_ingress_vlan_rollback s obliging h i =
      let first = call swi (ingress_at vid (not tagged) vrf_id port_id) s in
      let looped =
        until_error (λ x. call swi (ingress_at vid (not tagged) vrf_id x)) first.0
          (members nl swi port_id) first.1 in
      ground (
        arith,
        until_error-adds swi (ingress_at vid (not tagged) vrf_id) e first.0 (members nl swi port_id)
            first.1,
        remove_ingress_vlan_mono looped.1,
        remove_ingress_vlan-clears looped.1 obliging,
      )

  add_ingress_vlan-adds :
      (s : NlVlan)
      → installed e (add_ingress_vlan nl swi port_id vid tagged vrf_id s).1.log ≡ true
      → (installed e s.log ≡ true) ⊎ (ours_in ≡ true)
  unfolding add_ingress_vlan installed ours_in
  add_ingress_vlan-adds s i =
      let first = call swi (ingress_at vid (not tagged) vrf_id port_id) s in
      let looped =
        until_error (λ x. call swi (ingress_at vid (not tagged) vrf_id x)) first.0
          (members nl swi port_id) first.1 in
      ground (
        arith,
        until_error-adds swi (ingress_at vid (not tagged) vrf_id) e first.0 (members nl swi port_id)
            first.1,
        remove_ingress_vlan_mono looped.1,
      )

  -- The three removals that follow a failure on the egress side.
  taken_back : NlVlan → NlVlan
  taken_back s =
      let looped = for_each (λ x. call swi (no_egress_at vid x)) (members nl swi port_id) s in
      (remove_ingress_vlan nl swi port_id vid tagged vrf_id
        (call swi (no_egress_at vid port_id) looped.1).1).1

  taken_back_mono : (s : NlVlan) → installed e (taken_back s).log ≡ true → installed e s.log ≡ true
  unfolding taken_back installed
  taken_back_mono s h =
      let looped = for_each (λ x. call swi (no_egress_at vid x)) (members nl swi port_id) s in
      ground (
        arith,
        for_each_mono swi (no_egress_at vid) e (members nl swi port_id) s (λ x. refl),
        remove_ingress_vlan_mono (call swi (no_egress_at vid port_id) looped.1).1,
      )

  taken_back-clears :
      (s : NlVlan)
      → IsObliging swi
      → (ours_in ≡ true) ⊎ (ours_out ≡ true)
      → installed e (taken_back s).log ≡ false
  unfolding taken_back installed ours_out
  taken_back-clears s obliging h =
      let looped = for_each (λ x. call swi (no_egress_at vid x)) (members nl swi port_id) s in
      ground (
        arith,
        obliging.1 looped.1.log port_id vid,
        no_egress_at-removes vid (not tagged) e port_id,
        any-congr (λ x. removes (no_egress_at vid x) e) (λ x. adds (egress_at vid (not tagged) x) e)
            (members nl swi port_id) (no_egress_at-removes vid (not tagged) e),
        for_each-clears swi (no_egress_at vid) e (members nl swi port_id) s
            (λ l x. obliging.1 l x vid) (λ x. refl),
        remove_ingress_vlan_mono (call swi (no_egress_at vid port_id) looped.1).1,
        remove_ingress_vlan-clears (call swi (no_egress_at vid port_id) looped.1).1 obliging,
      )

  enable_egress_members_rollback :
      (rv : ℤ) (s : NlVlan)
      → IsObliging swi
      → is_neg rv ≡ false
      → is_neg (enable_egress_members nl swi port_id vid tagged vrf_id rv s).0 ≡ true
      → installed e (enable_egress_members nl swi port_id vid tagged vrf_id rv s).1.log ≡ true
      → (installed e s.log ≡ true) × (ours_in ≡ false) × (ours_out ≡ false)
  unfolding enable_egress_members taken_back ours_out
  enable_egress_members_rollback rv s obliging ok failed i =
      let looped =
        until_error (λ x. call swi (egress_at vid (not tagged) x)) rv (members nl swi port_id) s in
      ground (
        arith,
        until_error-adds swi (egress_at vid (not tagged)) e rv (members nl swi port_id) s,
        taken_back_mono looped.1,
        taken_back-clears looped.1 obliging,
      )

  -- If the switch accepts every removal of an entry, and `enable_vlan` fails, no entry stands on the
  -- switch that did not stand before.
  pub enable_vlan_rollback :
      (s : NlVlan)
      → IsObliging swi
      → is_neg (enable_vlan nl swi port_id vid tagged vrf_id s).0 ≡ true
      → installed e (enable_vlan nl swi port_id vid tagged vrf_id s).1.log ≡ true
      → installed e s.log ≡ true
  unfolding enable_vlan installed ours_out
  enable_vlan_rollback s obliging failed i =
      let in_done = add_ingress_vlan nl swi port_id vid tagged vrf_id s in
      let out_done = call swi (egress_at vid (not tagged) port_id) in_done.1 in
      ground (
        arith,
        add_ingress_vlan_rollback s obliging,
        add_ingress_vlan-adds s,
        remove_ingress_vlan_mono out_done.1,
        remove_ingress_vlan-clears out_done.1 obliging,
        enable_egress_members_rollback out_done.0 out_done.1 obliging,
      )
