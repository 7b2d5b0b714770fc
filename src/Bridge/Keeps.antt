-- ===== src/Bridge/Keeps.antt =====
-- What leaves the tunnels of the VLANs as they are: every method but the two that change them.
use basebox.Prelude.{
  ℕ, ◌≡◌, ◌∙◌, refl, Map, pos, pure, inl, inr, Bool, false, List, [], ◌∷◌, ℤ, is_neg, ◌==◌,
  if◌then◌else◌, arith, Bool-cases, Method, for_each,
}
use basebox.Sai.{Call, get_port_type, port_type_lag, SwitchInterface}
use basebox.Bridge.State.{Neigh, Kernel, NlBridge, call}
use basebox.Bridge.Stp.{last_error, set_port_vlan_stp_state, add_port_vlan_stp_state, set_min_state}
use basebox.Bridge.Fdb.{add_neigh_to_fdb, enter_neigh, take_over}
use basebox.Bridge.AccessPorts.{for_neighs, rejoin_bridge}
use basebox.Bridge.Vlans.{Change, initialise_stp, add_plain_vlan, vlan_removed_from_port}

-- The VLANs that have tunnels, and the tunnels.
unfoldable pub tunnels : {L : Type 0} → NlBridge L → List ℕ × Map ℕ ℕ
tunnels s = (s.vxlan_dom_bitmap, s.vxlan_domain)

pub for_each-tunnels :
    {L A B : Type 0} (body : A → Method (NlBridge L) B)
    → ((x : A) (s : NlBridge L) → tunnels (body x s).1 ≡ tunnels s)
    → (xs : List A) (s : NlBridge L) → tunnels (for_each body xs s).1 ≡ tunnels s
unfolding for_each
for_each-tunnels body h [] s = refl
for_each-tunnels body h (x ∷ xs) s = for_each-tunnels body h xs (body x s).1 ∙ h x s

last_error-tunnels :
    {L A : Type 0} (body : A → Method (NlBridge L) ℤ)
    → ((x : A) (s : NlBridge L) → tunnels (body x s).1 ≡ tunnels s)
    → (err : ℤ) (xs : List A) (s : NlBridge L) → tunnels (last_error body err xs s).1 ≡ tunnels s
unfolding last_error
last_error-tunnels body h err [] s = refl
last_error-tunnels body h err (x ∷ xs) s =
    let err2 = (body x s).0 in
    last_error-tunnels body h (if is_neg err2 then err2 else err) xs (body x s).1 ∙ h x s

module _ (k : Kernel) (swi : SwitchInterface) where
  open k use {nl}

  pub set_port_vlan_stp_state-tunnels :
      (port_id vid state : ℕ) (s : NlBridge nl.Link)
      → tunnels (set_port_vlan_stp_state k swi port_id vid state s).1 ≡ tunnels s
  unfolding set_port_vlan_stp_state tunnels
  set_port_vlan_stp_state-tunnels port_id vid state s =
      elim (Bool-cases (get_port_type port_id == port_type_lag)) [
        | inl bond ↦ rw bond (
            last_error-tunnels (λ mem. call swi (Call.ofdpa_stg_state_port_set mem vid state))
              (λ mem t. refl) (pos 0) (nl.get_bond_members_by_port_id port_id) s)
        | inr single ↦ rw single refl
      ]

  add_port_vlan_stp_state-tunnels :
      (port_id vid state : ℕ) (s : NlBridge nl.Link)
      → tunnels (add_port_vlan_stp_state k swi port_id vid state s).1 ≡ tunnels s
  unfolding add_port_vlan_stp_state set_min_state tunnels
  add_port_vlan_stp_state-tunnels port_id vid state s =
      grind (arith, set_port_vlan_stp_state-tunnels)

  add_neigh_to_fdb-tunnels :
      (neigh : Neigh) (update : Bool) (s : NlBridge nl.Link)
      → tunnels (add_neigh_to_fdb k swi neigh update s).1 ≡ tunnels s
  unfolding add_neigh_to_fdb enter_neigh take_over tunnels
  add_neigh_to_fdb-tunnels neigh update s = ground arith

  pub initialise_stp-tunnels :
      (bridge : nl.Link) (c : Change nl.Link) (vid : ℕ) (s : NlBridge nl.Link)
      → tunnels (initialise_stp k swi bridge c vid s).1 ≡ tunnels s
  unfolding initialise_stp tunnels
  initialise_stp-tunnels bridge c vid s = grind (arith, add_port_vlan_stp_state-tunnels)

  for_neighs-tunnels :
      (bridge : nl.Link) (body : Neigh → Method (NlBridge nl.Link) (Unit {0}))
      → ((x : Neigh) (s : NlBridge nl.Link) → tunnels (body x s).1 ≡ tunnels s)
      → (ns : List Neigh) (s : NlBridge nl.Link)
      → tunnels (for_neighs k swi bridge body ns s).1 ≡ tunnels s
  unfolding for_neighs
  for_neighs-tunnels bridge body h =
      for_each-tunnels (λ n. if k.get_addr bridge == n.lladdr then pure tt else body n)
        (λ n s. ground (arith, h n s))

  pub rejoin_bridge-tunnels :
      (bridge br_port : nl.Link) (vid pvid pport_no : ℕ) (untagged : Bool) (s : NlBridge nl.Link)
      → tunnels (rejoin_bridge k swi bridge br_port vid pvid pport_no untagged s).1 ≡ tunnels s
  unfolding rejoin_bridge tunnels
  rejoin_bridge-tunnels bridge br_port vid pvid pport_no untagged s =
      for_neighs-tunnels bridge (λ n. add_neigh_to_fdb k swi n false)
        (λ n t. add_neigh_to_fdb-tunnels n false t) (k.fdb_entries br_port vid) _
      ∙ refl

  pub add_plain_vlan-tunnels :
      (bridge : nl.Link) (c : Change nl.Link) (vid : ℕ) (untagged : Bool) (s : NlBridge nl.Link)
      → tunnels (add_plain_vlan k swi bridge c vid untagged s).1 ≡ tunnels s
  unfolding add_plain_vlan tunnels
  add_plain_vlan-tunnels bridge c vid untagged s = initialise_stp-tunnels bridge c vid _ ∙ refl

  pub vlan_removed_from_port-tunnels :
      (bridge : nl.Link) (c : Change nl.Link) (vid : ℕ) (untagged : Bool) (s : NlBridge nl.Link)
      → tunnels (vlan_removed_from_port k swi bridge c vid untagged s).1 ≡ tunnels s
  unfolding vlan_removed_from_port tunnels
  vlan_removed_from_port-tunnels bridge c vid untagged s = ground arith
