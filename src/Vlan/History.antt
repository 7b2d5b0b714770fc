-- ===== src/Vlan/History.antt =====
-- Histories of calls of add_vlan and remove_vlan on ports that are no bonds: the counts against the
-- switch.
use basebox.Prelude.{
  ℕ, suc, ◌+◌, ◌-◌, ◌%◌, ◌^◌, ◌≤◌, ◌<◌, ◌≡◌, refl, inl, inr, Bool, true, List, [], ◌∷◌, none, some,
  is_neg, arith, find, nat_key, pair_key, find-insert_or_assign, find-erase, find-emplace,
  Option-cases, Bool-cases, for_each, until_error, erase, length,
}
use native.Mathlib.Nat.{add-zero}
use basebox.Sai.{SwitchInterface}
use basebox.Vlan.State.{Cnetlink, NlVlan, get_vrf_id}
use basebox.Vlan.Entries.{Entry, installed}
use basebox.Vlan.Frame.{enable_vlan-Keeps, disable_vlan-Keeps}
use basebox.Vlan.Ingress.{members, add_ingress_vlan, remove_ingress_vlan}
use basebox.Vlan.Enabled.{enable_vlan_everywhere}
use basebox.Vlan.Port.{
  enable_vlan, enable_egress_members, disable_vlan, add_first_user, add_vlan, remove_last_user,
  remove_vlan,
}

-- Every entry counts at least one user and at most `k`, and its VLAN is let out of the port.
abbrev pub InStep : ℕ → NlVlan → Type 0
InStep k s =
    (port vid n : ℕ)
    → find (port, vid) s.port_vlan ≡ some n
    → (1 ≤ n) × (n ≤ k) × (installed (Entry.egress port vid) s.log ≡ true)

module _ (nl : Cnetlink) (swi : SwitchInterface) (port_id vid : ℕ) (tagged : Bool) (vrf_id : ℕ)
    (single : members nl swi port_id ≡ []) (port other : ℕ) (s : NlVlan) where
  -- Without members, `enable_vlan` takes no egress entry away, and `disable_vlan` only its own.
  enable_vlan_egress :
      installed (Entry.egress port other) s.log ≡ true
      → installed (Entry.egress port other) (enable_vlan nl swi port_id vid tagged vrf_id s).1.log
        ≡ true
  unfolding enable_vlan enable_egress_members add_ingress_vlan remove_ingress_vlan for_each
      until_error installed
  enable_vlan_egress h =
      rw (single, enable_vlan, enable_egress_members, add_ingress_vlan, remove_ingress_vlan)
        (ground arith)

  disable_vlan_egress :
      ¬ ((port ≡ port_id) × (other ≡ vid))
      → installed (Entry.egress port other) s.log ≡ true
      → installed (Entry.egress port other) (disable_vlan nl swi port_id vid tagged vrf_id s).1.log
        ≡ true
  unfolding disable_vlan remove_ingress_vlan for_each installed
  disable_vlan_egress ne h = rw (single, disable_vlan, remove_ingress_vlan) (ground arith)

module _ (nl : Cnetlink) (swi : SwitchInterface) (link : nl.Link) (vid : ℕ) (tagged : Bool)
    (single : members nl swi (nl.get_port_id link) ≡ []) (k : ℕ) (s : NlVlan)
    (inv : InStep k s) where
  abbrev port_id : ℕ
  port_id = nl.get_port_id link

  add_first_user-InStep :
      (vrf_id : ℕ)
      → find (port_id, vid) s.port_vlan ≡ none
      → InStep (suc k) (add_first_user nl swi link port_id vid tagged vrf_id s).1
  unfolding add_first_user
  add_first_user-InStep vrf_id e port other n h =
      let enabled = enable_vlan nl swi port_id vid tagged vrf_id s in
      elim (Bool-cases (is_neg enabled.0)) [
        | inl failed ↦ ground (
          arith,
          inv port other n,
          enable_vlan-Keeps nl swi port_id vid tagged vrf_id s,
          enable_vlan_egress nl swi port_id vid tagged vrf_id single port other s,
        )
        | inr ok ↦ ground (
          arith,
          inv port other n,
          enable_vlan-Keeps nl swi port_id vid tagged vrf_id s,
          enable_vlan_egress nl swi port_id vid tagged vrf_id single port other s,
          (enable_vlan_everywhere nl swi port_id vid tagged vrf_id port_id (inl refl) s ok).1,
          find-emplace (port_id, vid) (port, other) 1 s.port_vlan,
        )
      ]

  add_vlan-InStep : k + 1 < 2 ^ 32 → InStep (suc k) (add_vlan nl swi link vid tagged s).1
  unfolding add_vlan
  add_vlan-InStep fits port other n h = elim (Option-cases (find (port_id, vid) s.port_vlan)) [
    | inl e ↦
        ground (arith, inv port other n, add_first_user-InStep (get_vrf_id vid s) e port other n)
    | inr (m, e) ↦ ground (
      arith,
      inv port other n,
      inv port_id vid m e,
      find-insert_or_assign (port_id, vid) (port, other) ((m + 1) % 2 ^ 32) s.port_vlan,
    )
  ]

  remove_last_user-InStep :
      (vrf_id m : ℕ)
      → find (port_id, vid) s.port_vlan ≡ some m
      → InStep (suc k) (remove_last_user nl swi link port_id vid tagged vrf_id s).1
  unfolding remove_last_user
  remove_last_user-InStep vrf_id m e port other n h =
      let erased : NlVlan = record s { port_vlan = erase (port_id, vid) s.port_vlan } in
      ground (
        arith,
        inv port other n,
        find-erase (port_id, vid) (port, other) s.port_vlan,
        disable_vlan-Keeps nl swi port_id vid tagged vrf_id erased,
        disable_vlan_egress nl swi port_id vid tagged vrf_id single port other erased,
      )

  remove_vlan-InStep : k + 1 < 2 ^ 32 → InStep (suc k) (remove_vlan nl swi link vid tagged s).1
  unfolding remove_vlan
  remove_vlan-InStep fits port other n h = elim (Option-cases (find (port_id, vid) s.port_vlan)) [
    | inl e ↦ ground (arith, inv port other n)
    | inr (m, e) ↦ ground (
      arith,
      inv port other n,
      inv port_id vid m e,
      remove_last_user-InStep (get_vrf_id vid s) m e port other n,
      find-insert_or_assign (port_id, vid) (port, other) ((m + 2 ^ 32 - 1) % 2 ^ 32) s.port_vlan,
    )
  ]

add-suc_shift : (k n : ℕ) → k + suc n ≡ suc k + n
add-suc_shift k n = omega arith

-- A call that a user of the VLANs makes: the link, the VLAN, and whether it is tagged.
pub data Request (L : Type 0) : Type 0 where
  adds removes : L → ℕ → Bool → Request L

abbrev pub link_of : {L : Type 0} → Request L → L
link_of (adds link vid tagged) = link
link_of (removes link vid tagged) = link

module _ (nl : Cnetlink) (swi : SwitchInterface) where
  unfoldable pub serve : Request nl.Link → NlVlan → NlVlan
  serve (adds link vid tagged) s = (add_vlan nl swi link vid tagged s).1
  serve (removes link vid tagged) s = (remove_vlan nl swi link vid tagged s).1

  unfoldable pub serve_all : List (Request nl.Link) → NlVlan → NlVlan
  serve_all [] s = s
  serve_all (r ∷ rs) s = serve_all rs (serve r s)

  -- No request names a bond that has members.
  abbrev pub Single : List (Request nl.Link) → Type 0
  Single [] = Unit
  Single (r ∷ rs) = (members nl swi (nl.get_port_id (link_of r)) ≡ []) × Single rs

  serve-InStep :
      (r : Request nl.Link) (k : ℕ) (s : NlVlan)
      → members nl swi (nl.get_port_id (link_of r)) ≡ []
      → k + 1 < 2 ^ 32
      → InStep k s
      → InStep (suc k) (serve r s)
  unfolding serve
  serve-InStep (adds link vid tagged) k s single fits inv =
      add_vlan-InStep nl swi link vid tagged single k s inv fits
  serve-InStep (removes link vid tagged) k s single fits inv =
      remove_vlan-InStep nl swi link vid tagged single k s inv fits

  -- If every entry of `port_vlan` counts at least one and at most `k` users and its VLAN is let out of
  -- its port, then so it is after any history of requests on ports that are no bonds, with as many more
  -- users at most as there were requests, as long as that stays below 2 ^ 32.
  pub serve_all-InStep :
      (rs : List (Request nl.Link)) (k : ℕ) (s : NlVlan)
      → Single rs
      → k + length rs < 2 ^ 32
      → InStep k s
      → InStep (k + length rs) (serve_all rs s)
  unfolding serve_all
  serve_all-InStep [] k s single fits inv = rw (add-zero k) inv
  serve_all-InStep (r ∷ rs) k s single fits inv = rw (add-suc_shift k (length rs)) (
      serve_all-InStep rs (suc k) (serve r s) single.1 (omega arith)
        (serve-InStep r k s single.0 (omega arith) inv))
