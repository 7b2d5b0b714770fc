-- ===== src/Bridge/SafeLinks.antt =====
-- The update of a link, from one comparison of VLANs to all of them.
use basebox.Prelude.{
  ℕ, ◌<◌, ◌≡◌, refl, inl, inr, Bool, true, false, Option, none, some, is_neg, ◌==◌, arith,
  Bool-cases, Option-cases,
}
use basebox.Sai.{SwitchInterface}
use basebox.Vlan.Ingress.{add_ingress_pvid, remove_ingress_pvid}
use basebox.Bridge.State.{BridgeVlan, Kernel, NlBridge, on_vlan}
use basebox.Bridge.Run.{Run, done}
use basebox.Bridge.Keeps.{tunnels}
use basebox.Bridge.Vlans.{indices, br_vlan_equal, Change, word_at}
use basebox.Bridge.Updates.{
  pvid_changed, or_empty, change_words, change_vlans, compare_vlans, update_link, update_vlans,
}
use basebox.Bridge.NeverAborts.{IsSafe, run-IsSafe, then-IsSafe, done-IsSafe, for_all-IsSafe}
use basebox.Bridge.SafeUpdates.{IsBridgeVlan, if-IsSafe, skip-IsSafe, cond-IsSafe}
use basebox.Bridge.SafeVlans.{
  IsOfPort, as-IsSafe, indices-bound, or_empty-IsBridgeVlan, word_at-IsSafe,
}

-- A link becomes a bridge port, stops being one, or changes.
pub data Update (L : Type 0) : Type 0 where
  added removed : L → Update L
  changed : L → L → Update L

unfoldable pub serve :
    (k : Kernel) (swi : SwitchInterface) → k.nl.Link → Update k.nl.Link → Run (NlBridge k.nl.Link)
serve k swi bridge (added link) = update_vlans k swi bridge none (some link)
serve k swi bridge (removed link) = update_vlans k swi bridge (some link) none
serve k swi bridge (changed old_link new_link) =
    update_vlans k swi bridge (some old_link) (some new_link)

-- The kernel gives bitmaps of 128 words of 32 bits without VLAN 0, a link with VLANs is known by itself,
-- a bond that has members is a bridge port, and the tag protocol of a bridge is a number.
pub record IsKernel (k : Kernel) : Type 0 where
  pub bitmaps :
      (link : k.nl.Link) (vlans : BridgeVlan) → k.port_vlan link ≡ some vlans → IsBridgeVlan vlans
  pub bases :
      (link : k.nl.Link) (vlans : BridgeVlan)
      → k.port_vlan link ≡ some vlans
      → (base : k.nl.Link) × (k.base_link (k.get_ifindex link) ≡ some base)
  pub protocols : (link : k.nl.Link) → (proto : ℕ) × (k.vlan_protocol link ≡ some proto)
  pub bonds :
      (link : k.nl.Link)
      → k.is_bond_slave link ≡ true
      → (bond : k.nl.Link) × (k.bridge_link (k.get_master link) ≡ some bond)

module _ (k : Kernel) (swi : SwitchInterface) (bridge : k.nl.Link) (kernel : IsKernel k) where
  open k use {nl}
  open kernel use {bitmaps, bases, bonds}

  module _ (c : Change nl.Link) (old new : BridgeVlan) (h : IsBridgeVlan old)
      (h' : IsBridgeVlan new) (port : IsOfPort k c) where
    change_words-IsSafe : IsSafe (change_words k swi bridge c old new)
    unfolding change_words tunnels
    change_words-IsSafe =
        then-IsSafe _ _
          (for_all-IsSafe (λ i. i < 128) (word_at k swi bridge c old new)
            (λ i below. word_at-IsSafe k swi bridge bitmaps bases c old new i port h h' below)
            (indices 128 0) (indices-bound 128 0 128 (omega arith)))
          (if-IsSafe (pvid_changed old new new.pvid) _ _
            (run-IsSafe (on_vlan (add_ingress_pvid nl swi c.link new.pvid)) (λ s. refl))
            (done-IsSafe nl.Link))

    change_vlans-IsSafe : IsSafe (change_vlans k swi bridge c old new)
    unfolding change_vlans tunnels IsSafe
    change_vlans-IsSafe s p =
        let step = on_vlan (remove_ingress_pvid k.nl swi c.link old.pvid) in
        let t = (step s).1 in
        elim (Bool-cases (pvid_changed old new old.pvid)) [
          | inr same_pvid ↦
              let (u, (e, q)) = change_words-IsSafe s p in (u, (ground (arith, same_pvid, e), q))
          | inl left ↦ elim (Bool-cases (is_neg (step s).0)) [
            | inl refused ↦ (t, (ground (arith, left, refused), p))
            | inr ok ↦
                let (u, (e, q)) = change_words-IsSafe t p in (u, (ground (arith, left, ok, e), q))
          ]
        ]

  compare_vlans-IsSafe :
      (link br_link : nl.Link) (is_added is_removed : Bool) (old new : BridgeVlan)
      → IsBridgeVlan old
      → IsBridgeVlan new
      → IsSafe (compare_vlans k swi bridge link br_link is_added is_removed old new)
  unfolding compare_vlans
  compare_vlans-IsSafe link br_link is_added is_removed old new h h' =
      skip-IsSafe (br_vlan_equal old new) _ (
        cond-IsSafe (k.is_vxlan link) _ _
          (λ tunnel. change_vlans-IsSafe _ old new h h' (λ single. absurd (ground arith)))
          (λ _.
            cond-IsSafe (nl.get_port_id link == 0) done _ (λ _. done-IsSafe nl.Link)
              (λ port. change_vlans-IsSafe _ old new h h' (λ _. port))))

  update_link-IsSafe :
      (br_link : nl.Link) (is_added is_removed : Bool) (old new : Option BridgeVlan)
      → ((v : BridgeVlan) → old ≡ some v → IsBridgeVlan v)
      → ((v : BridgeVlan) → new ≡ some v → IsBridgeVlan v)
      → IsSafe (update_link k swi bridge br_link is_added is_removed old new)
  unfolding update_link
  update_link-IsSafe br_link is_added is_removed old new h h' =
      elim (Option-cases (k.base_link (k.get_ifindex br_link))) [
        | inl unknown ↦ as-IsSafe _ done (λ s. ground (arith, unknown)) (done-IsSafe nl.Link)
        | inr (link, known) ↦ elim (Bool-cases (k.is_bond_slave link)) [
          | inl slave ↦
              let (bond, e) = bonds link slave in
              as-IsSafe _
                (compare_vlans k swi bridge link br_link is_added is_removed (or_empty none)
                  (or_empty (k.port_vlan bond)))
                (λ s. ground (arith, known, slave, e))
                (compare_vlans-IsSafe link br_link is_added is_removed _ _
                  (or_empty-IsBridgeVlan none (λ v e'. absurd (ground (arith, e'))))
                  (or_empty-IsBridgeVlan (k.port_vlan bond) (bitmaps bond)))
          | inr single ↦
              as-IsSafe _
                (compare_vlans k swi bridge link br_link is_added is_removed (or_empty old)
                  (or_empty new))
                (λ s. ground (arith, known, single))
                (compare_vlans-IsSafe link br_link is_added is_removed _ _
                  (or_empty-IsBridgeVlan old h) (or_empty-IsBridgeVlan new h'))
        ]
      ]

  pub serve-IsSafe : (u : Update nl.Link) → IsSafe (serve k swi bridge u)
  unfolding serve update_vlans
  serve-IsSafe (added link) =
      update_link-IsSafe link true false none (k.port_vlan link) (λ v e. absurd (ground (arith, e)))
        (bitmaps link)
  serve-IsSafe (removed link) =
      update_link-IsSafe link false true (k.port_vlan link) none (bitmaps link)
        (λ v e. absurd (ground (arith, e)))
  serve-IsSafe (changed old_link new_link) =
      update_link-IsSafe new_link false false (k.port_vlan old_link) (k.port_vlan new_link)
        (bitmaps old_link) (bitmaps new_link)
