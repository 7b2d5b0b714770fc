-- ===== src/Vlan/Enabled.antt =====
-- Where a VLAN stands after `enable_vlan` and `disable_vlan`.
use basebox.Prelude.{ℕ, ◌≡◌, refl, ◌⊎◌, inl, inr, Bool, true, false, not, is_neg, arith, contains}
use basebox.Sai.{SwitchInterface}
use basebox.Vlan.State.{Cnetlink, NlVlan, call}
use basebox.Vlan.Entries.{Entry, adds, installed}
use basebox.Vlan.Loops.{any-contains, until_error-installs}
use basebox.Vlan.Ingress.{members, add_ingress_vlan}
use basebox.Vlan.Port.{enable_vlan, enable_egress_members}
use basebox.Vlan.Rollback.{ingress_at, egress_at, ours_in, ours_out}

module _ (nl : Cnetlink) (swi : SwitchInterface) (port_id vid : ℕ) (tagged : Bool) (vrf_id : ℕ)
    (e : Entry) where
  add_ingress_vlan-installs :
      (s : NlVlan)
      → is_neg (add_ingress_vlan nl swi port_id vid tagged vrf_id s).0 ≡ false
      → (ours_in nl swi port_id vid tagged vrf_id e ≡ true) ⊎ (installed e s.log ≡ true)
      → installed e (add_ingress_vlan nl swi port_id vid tagged vrf_id s).1.log ≡ true
  unfolding add_ingress_vlan installed ours_in
  add_ingress_vlan-installs s ok h =
      let first = call swi (ingress_at vid (not tagged) vrf_id port_id) s in
      ground (
        arith,
        until_error-installs swi (ingress_at vid (not tagged) vrf_id) e first.0
            (members nl swi port_id) first.1 (λ x. refl),
      )

  enable_vlan-installs :
      (s : NlVlan)
      → is_neg (enable_vlan nl swi port_id vid tagged vrf_id s).0 ≡ false
      → (ours_in nl swi port_id vid tagged vrf_id e ≡ true)
        ⊎ (ours_out nl swi port_id vid tagged vrf_id e ≡ true)
        ⊎ (installed e s.log ≡ true)
      → installed e (enable_vlan nl swi port_id vid tagged vrf_id s).1.log ≡ true
  unfolding enable_vlan enable_egress_members installed ours_out
  enable_vlan-installs s ok h =
      let in_done = add_ingress_vlan nl swi port_id vid tagged vrf_id s in
      let out_done = call swi (egress_at vid (not tagged) port_id) in_done.1 in
      ground (
        arith,
        add_ingress_vlan-installs s,
        until_error-installs swi (egress_at vid (not tagged)) e out_done.0 (members nl swi port_id)
            out_done.1 (λ x. refl),
      )

-- The port itself, or a member of the bond that it stands for.
abbrev pub Covers : (nl : Cnetlink) → SwitchInterface → ℕ → ℕ → Type 0
Covers nl swi port_id port = (port ≡ port_id) ⊎ (contains port (members nl swi port_id) ≡ true)

module _ (nl : Cnetlink) (swi : SwitchInterface) (port_id vid : ℕ) (tagged : Bool) (vrf_id : ℕ)
    (port : ℕ) (covered : Covers nl swi port_id port) where
  ingress_is_ours :
      ours_in nl swi port_id vid tagged vrf_id (Entry.ingress port vid (not tagged) vrf_id) ≡ true
  unfolding ours_in
  ingress_is_ours = ground (
    arith,
    any-contains
        (λ x.
          adds (ingress_at vid (not tagged) vrf_id x) (Entry.ingress port vid (not tagged) vrf_id))
        (members nl swi port_id) port,
  )

  egress_is_ours : ours_out nl swi port_id vid tagged vrf_id (Entry.egress port vid) ≡ true
  unfolding ours_out
  egress_is_ours = ground (
    arith,
    any-contains (λ x. adds (egress_at vid (not tagged) x) (Entry.egress port vid))
        (members nl swi port_id) port,
  )

  -- If `enable_vlan` succeeds, the VLAN is let in and out of the port and of every member of the
  -- bond that the port stands for.
  pub enable_vlan_everywhere :
      (s : NlVlan)
      → is_neg (enable_vlan nl swi port_id vid tagged vrf_id s).0 ≡ false
      → let t = (enable_vlan nl swi port_id vid tagged vrf_id s).1 in
        (installed (Entry.ingress port vid (not tagged) vrf_id) t.log ≡ true)
        × (installed (Entry.egress port vid) t.log ≡ true)
  enable_vlan_everywhere s ok = (
    enable_vlan-installs nl swi port_id vid tagged vrf_id _ s ok (inl ingress_is_ours),
    enable_vlan-installs nl swi port_id vid tagged vrf_id _ s ok (inr (inl egress_is_ours)),
  )
