-- ===== src/Bridge/SafeInterfaces.antt =====
-- Histories of messages about bridge ports.
use mathlib.Core.Path.{subst}
use basebox.Prelude.{
  ℕ, ◌%◌, ◌^◌, ◌≡◌, refl, sym, inl, inr, Bool, false, not, ◌&&◌, ◌||◌, List, Option, none, some,
  ◌==◌, if◌then◌else◌, arith, All, ltb, Bool-cases, Option-cases,
}
use basebox.Sai.{SwitchInterface}
use basebox.Bridge.StpStates.{br_state_forwarding}
use basebox.Bridge.State.{Kernel, NlBridge}
use basebox.Bridge.Stp.{set_port_stp_state}
use basebox.Bridge.Tags.{
  bridge_proto_of, set_vlan_proto, delete_vlan_proto, stack_vlans, unstack_vlans,
}
use basebox.Bridge.Ports.{set_port_locked}
use basebox.Bridge.Run.{Run, run, done, for_all}
use basebox.Bridge.Fdb.{port_of}
use basebox.Bridge.Interfaces.{
  tag_base, clear_base, add_port, update_port, delete_port, add_interface, update_interface,
  delete_interface,
}
use basebox.Bridge.Keeps.{tunnels}
use basebox.Bridge.PortsKeep.{
  set_port_stp_state-tunnels, set_port_locked-tunnels, stack_vlans-tunnels, unstack_vlans-tunnels,
}
use basebox.Bridge.NeverAborts.{
  IsDomain, IsSafe, run-IsSafe, then-IsSafe, done-IsSafe, for_all-IsSafe,
}
use basebox.Bridge.SafeUpdates.{if-IsSafe}
use basebox.Bridge.SafeVlans.{as-IsSafe}
use basebox.Bridge.SafeLinks.{Update, serve, IsKernel, serve-IsSafe}

-- What cnetlink calls for a message about a bridge port.
unfoldable pub handle : (k : Kernel) → SwitchInterface → Update k.nl.Link → Run (NlBridge k.nl.Link)
handle k swi (Update.added link) = add_interface k swi link
handle k swi (Update.removed link) = delete_interface k swi link
handle k swi (Update.changed old_link new_link) = update_interface k swi old_link new_link

-- A link that becomes a bridge port is known to the kernel as a link by itself.
unfoldable pub IsKnown : (k : Kernel) → Update k.nl.Link → Type 0
IsKnown k (Update.added link) = (base : k.nl.Link) × (k.base_link (k.get_ifindex link) ≡ some base)
IsKnown k (Update.removed link) = Unit
IsKnown k (Update.changed old_link new_link) = Unit

module _ (k : Kernel) (swi : SwitchInterface) (kernel : IsKernel k) where
  open k use {nl, get_ifindex, get_master, base_link, port_state, is_locked}

  set_stp-IsSafe : (port_id state : ℕ) → IsSafe (run (set_port_stp_state k swi port_id state))
  set_stp-IsSafe port_id state =
      run-IsSafe (set_port_stp_state k swi port_id state)
        (set_port_stp_state-tunnels k swi port_id state)

  lock-IsSafe : (link : nl.Link) (locked : Bool) → IsSafe (run (set_port_locked k swi link locked))
  lock-IsSafe link locked =
      run-IsSafe (set_port_locked k swi link locked) (set_port_locked-tunnels k swi link locked)

  if_known-IsSafe :
      (b : Bool) (m : Run (NlBridge nl.Link)) → IsSafe m → IsSafe (if b then m else done)
  if_known-IsSafe b m h = if-IsSafe b m done h (done-IsSafe nl.Link)

  module _ (bridge : nl.Link) where
    update-IsSafe : (u : Update nl.Link) → IsSafe (serve k swi bridge u)
    update-IsSafe u = serve-IsSafe k swi bridge kernel u

    update_port-IsSafe :
        (old_link new_link : nl.Link) → IsSafe (update_port k swi bridge old_link new_link)
    unfolding update_port serve
    update_port-IsSafe old_link new_link =
        if-IsSafe (not (port_state old_link == port_state new_link)) _ _
          (if_known-IsSafe (ltb 0 (nl.get_port_id new_link)) _
            (set_stp-IsSafe (nl.get_port_id new_link) (port_state new_link)))
          (then-IsSafe _ _ (update-IsSafe (Update.changed old_link new_link)) (
            if_known-IsSafe
              (is_locked old_link && not (is_locked new_link)
                || (not (is_locked old_link) && is_locked new_link))
              _ (lock-IsSafe new_link (is_locked new_link))))

    tag_base-IsSafe :
        (base : nl.Link) (port_id : ℕ) → IsSafe (tag_base k swi bridge port_id (some base))
    unfolding tag_base set_vlan_proto bridge_proto_of
    tag_base-IsSafe base port_id =
        let (proto, known) = kernel.protocols bridge in
        as-IsSafe _ (run (stack_vlans k swi (proto % 2 ^ 16) base port_id))
          (λ s. ground (arith, known))
          (run-IsSafe (stack_vlans k swi (proto % 2 ^ 16) base port_id)
            (stack_vlans-tunnels k swi (proto % 2 ^ 16) base port_id))

    add_port-IsSafe :
        (link base : nl.Link)
        → base_link (get_ifindex link) ≡ some base
        → IsSafe (add_port k swi bridge link)
    unfolding add_port serve
    add_port-IsSafe link base known =
        let port_id = port_of k swi (get_ifindex link) in
        then-IsSafe _ _
          (then-IsSafe _ _
            (then-IsSafe _ _
              (if_known-IsSafe (ltb 0 port_id) _ (set_stp-IsSafe port_id (port_state link)))
              (lock-IsSafe link (is_locked link)))
            (update-IsSafe (Update.added link)))
          (subst (λ o. IsSafe (tag_base k swi bridge port_id o)) (sym known)
            (tag_base-IsSafe base port_id))

    clear_base-IsSafe : (base : Option nl.Link) → IsSafe (clear_base k swi bridge base)
    unfolding clear_base delete_vlan_proto bridge_proto_of
    clear_base-IsSafe none = done-IsSafe nl.Link
    clear_base-IsSafe (some base) =
        let port_id = nl.get_port_id base in
        let (proto, known) = kernel.protocols bridge in
        if_known-IsSafe (ltb 0 port_id) _ (
          then-IsSafe _ _
            (as-IsSafe _ (run (unstack_vlans k swi (proto % 2 ^ 16) base port_id))
              (λ s. ground (arith, known))
              (run-IsSafe (unstack_vlans k swi (proto % 2 ^ 16) base port_id)
                (unstack_vlans-tunnels k swi (proto % 2 ^ 16) base port_id)))
            (set_stp-IsSafe port_id br_state_forwarding))

    delete_port-IsSafe : (link : nl.Link) → IsSafe (delete_port k swi bridge link)
    unfolding delete_port serve
    delete_port-IsSafe link =
        then-IsSafe _ _
          (then-IsSafe _ _ (update-IsSafe (Update.removed link))
            (clear_base-IsSafe (base_link (get_ifindex link))))
          (lock-IsSafe link false)

  -- A message about a port of another bridge, or without a bridge, does nothing.
  ours-IsSafe :
      (ifindex : ℕ) (m : Run (NlBridge nl.Link)) (step : nl.Link → Run (NlBridge nl.Link))
      → ((bridge : nl.Link) → IsSafe (step bridge))
      → ((s : NlBridge nl.Link)
          → m s ≡ elim s.bridge [
            | none ↦ some s
            | some bridge ↦ if not (get_ifindex bridge == ifindex) then some s else step bridge s
          ])
      → IsSafe m
  unfolding IsSafe
  ours-IsSafe ifindex m step safe same s h = elim (Option-cases s.bridge) [
    | inl no_bridge ↦ (s, (ground (arith, same s, no_bridge), h))
    | inr (bridge, e) ↦ elim (Bool-cases (get_ifindex bridge == ifindex)) [
      | inr other ↦ (s, (ground (arith, same s, e, other), h))
      | inl ours ↦
          let (t, (e', h')) = safe bridge s h in (t, (ground (arith, same s, e, ours, e'), h'))
    ]
  ]

  handle-IsSafe : (u : Update nl.Link) → IsKnown k u → IsSafe (handle k swi u)
  unfolding handle IsKnown add_interface delete_interface update_interface
  handle-IsSafe (Update.added link) (base, known) =
      ours-IsSafe (get_master link) _ (λ bridge. add_port k swi bridge link)
        (λ bridge. add_port-IsSafe bridge link base known) (λ s. refl)
  handle-IsSafe (Update.removed link) known =
      ours-IsSafe (get_master link) _ (λ bridge. delete_port k swi bridge link)
        (λ bridge. delete_port-IsSafe bridge link) (λ s. refl)
  handle-IsSafe (Update.changed old_link new_link) known =
      ours-IsSafe (get_master new_link) _ (λ bridge. update_port k swi bridge old_link new_link)
        (λ bridge. update_port-IsSafe bridge old_link new_link) (λ s. refl)

  -- If every VLAN that is marked as one of a tunnel has a tunnel, the bitmaps that the kernel gives
  -- have 128 words of 32 bits, no link is in VLAN 0, a bond that has members is a bridge port, each
  -- link that has VLANs or becomes a bridge port is known by itself, and the bridge's tag protocol can
  -- be read as a number, then any history of added, changed and removed bridge ports is handled to its
  -- end: no assertion or null pointer of nl_bridge aborts it, no loop over bits goes on for ever, and
  -- each method of nl_vxlan that is called gets a port and a VLAN that are not 0, and a link, as it
  -- asserts of its arguments; and afterwards every VLAN that is marked has a tunnel again. Nothing is
  -- said of what the methods of nl_vxlan do then.
  pub handle_never_aborts :
      (us : List (Update nl.Link)) (s : NlBridge nl.Link)
      → All (IsKnown k) us
      → IsDomain (tunnels s)
      → (t : NlBridge nl.Link) × ((for_all (handle k swi) us s ≡ some t) × IsDomain (tunnels t))
  unfolding IsSafe
  handle_never_aborts us s known h =
      for_all-IsSafe (IsKnown k) (handle k swi) handle-IsSafe us known s h
