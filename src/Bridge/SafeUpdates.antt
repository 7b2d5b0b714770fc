-- ===== src/Bridge/SafeUpdates.antt =====
-- The update of a link's VLANs does not abort, for the bitmaps that the kernel gives.
use basebox.Prelude.{
  ℕ, ◌/◌, ◌%◌, ◌<◌, ◌^◌, ◌≡◌, ◌∙◌, refl, ap, inl, inr, Bool, true, false, not, List, [], ◌∷◌, some,
  ◌==◌, if◌then◌else◌, arith, Bool-cases, Option-cases, nat_key,
}
use basebox.Sai.{Call, SwitchInterface}
use basebox.Bridge.State.{BridgeVlan, Kernel, NlBridge, VxlanCall, call}
use basebox.Bridge.Bits.{is_vid_set, get_elem?, bitmap_len, is_bit_set}
use basebox.Bridge.Run.{Run, after, run, done, for_all}
use basebox.Bridge.AccessPorts.{
  is_accepted, ask_vxlan, update_access_port, update_access_ports, make_access_port,
  make_bridge_port, rejoin_bridge,
}
use basebox.Bridge.Keeps.{
  tunnels, rejoin_bridge-tunnels, add_plain_vlan-tunnels, vlan_removed_from_port-tunnels,
}
use basebox.Bridge.Vlans.{
  Change, add_plain_vlan, vlan_added_to_vxlan, vlan_removed_from_vxlan, vlan_added_to_port,
  vlan_removed_from_port,
}
use basebox.Bridge.NeverAborts.{
  IsDomain, IsSafe, run-IsSafe, then-IsSafe, done-IsSafe, join_domain-IsSafe, leave_domain-IsSafe,
}

-- 128 words of 32 bits.
unfoldable pub IsBitmap : List ℕ → Type 0
IsBitmap ws = (i : ℕ) → i < bitmap_len → (w : ℕ) × ((get_elem? ws i ≡ some w) × (w < 2 ^ 32))

-- Both bitmaps are such, and VLAN 0 is not in the first.
unfoldable pub IsBridgeVlan : BridgeVlan → Type 0
IsBridgeVlan vlans =
    IsBitmap vlans.vlan_bitmap
    × (IsBitmap vlans.untagged_bitmap × (is_vid_set 0 vlans.vlan_bitmap ≡ some false))

is_vid_set_lem :
    (vid : ℕ) (ws : List ℕ) → vid < 4096 → IsBitmap ws → (b : Bool) × (is_vid_set vid ws ≡ some b)
unfolding is_vid_set IsBitmap
is_vid_set_lem vid ws below h =
    let (w, (e, bound)) = h (vid / 32) (omega arith) in (is_bit_set w (vid % 32), ground (arith, e))

pub if-IsSafe :
    {L : Type 0} (b : Bool) (m n : Run (NlBridge L))
    → IsSafe m
    → IsSafe n
    → IsSafe (if b then m else n)
if-IsSafe true m n h h' = h
if-IsSafe false m n h h' = h'

pub cond-IsSafe :
    {L : Type 0} (b : Bool) (m n : Run (NlBridge L))
    → (b ≡ true → IsSafe m)
    → (b ≡ false → IsSafe n)
    → IsSafe (if b then m else n)
cond-IsSafe true m n h h' = h refl
cond-IsSafe false m n h h' = h' refl

ask_vxlan-IsSafe : {L : Type 0} (c : VxlanCall L) → is_accepted c ≡ true → IsSafe (ask_vxlan c)
unfolding IsSafe ask_vxlan tunnels
ask_vxlan-IsSafe c ok s h = (record s { vxlan_calls = c ∷ s.vxlan_calls }, (ground (arith, ok), h))

pub skip-IsSafe :
    {L : Type 0} (b : Bool) (n : Run (NlBridge L)) → IsSafe n → IsSafe (if b then done else n)
skip-IsSafe {L} b n h = if-IsSafe b done n (done-IsSafe L) h

pub every-IsSafe :
    {L A : Type 0} (body : A → Run (NlBridge L))
    → ((x : A) → IsSafe (body x))
    → (xs : List A) → IsSafe (for_all body xs)
unfolding IsSafe for_all
every-IsSafe body safe [] s h = (s, (refl, h))
every-IsSafe body safe (x ∷ xs) s h =
    let (t, (e, h')) = safe x s h in
    let (u, (e', h'')) = every-IsSafe body safe xs t h' in
    (u, (ap (λ o. after o (for_all body xs)) e ∙ e', h''))

module _ (k : Kernel) (swi : SwitchInterface) (bridge : k.nl.Link)
    (bitmaps : (link : k.nl.Link) (vlans : BridgeVlan)
      → k.port_vlan link ≡ some vlans
      → IsBridgeVlan vlans)
    (bases : (link : k.nl.Link) (vlans : BridgeVlan)
      → k.port_vlan link ≡ some vlans
      → (base : k.nl.Link) × (k.base_link (k.get_ifindex link) ≡ some base)) where
  open k use {nl}

  make_access_port-IsSafe :
      (br_link br_port base : nl.Link) (vid tunnel_id pport_no : ℕ) (untagged : Bool)
      → pport_no == 0 ≡ false
      → 0 < vid
      → k.base_link (k.get_ifindex br_port) ≡ some base
      → IsSafe (make_access_port k swi bridge br_link br_port vid tunnel_id pport_no untagged)
  unfolding make_access_port is_accepted tunnels
  make_access_port-IsSafe br_link br_port base vid tunnel_id pport_no untagged port positive known =
      then-IsSafe _ _
        (then-IsSafe _ _
          (then-IsSafe _ _
            (run-IsSafe (call swi (Call.l2_addr_remove_all_in_vlan pport_no vid)) (λ s. refl))
            (run-IsSafe (call swi (Call.l2_multicast_group_leave_all_in_vlan pport_no vid))
              (λ s. refl)))
          (ask_vxlan-IsSafe (VxlanCall.create_access_port br_port tunnel_id pport_no vid untagged)
            (ground (arith, port, positive))))
        (every-IsSafe _
          (λ n. skip-IsSafe (k.get_addr bridge == n.lladdr) _ (
            ask_vxlan-IsSafe
              (VxlanCall.add_l2_neigh n (k.base_link (k.get_ifindex br_port)) br_link)
              (ground (arith, known))))
          (k.fdb_entries br_port vid))

  make_bridge_port-IsSafe :
      (br_port : nl.Link) (vid pvid pport_no : ℕ) (untagged : Bool)
      → IsSafe (make_bridge_port k swi bridge br_port vid pvid pport_no untagged)
  unfolding make_bridge_port is_accepted
  make_bridge_port-IsSafe br_port vid pvid pport_no untagged =
      then-IsSafe _ _ (ask_vxlan-IsSafe (VxlanCall.delete_access_port br_port pport_no vid) refl) (
        run-IsSafe (rejoin_bridge k swi bridge br_port vid pvid pport_no untagged)
          (rejoin_bridge-tunnels k swi bridge br_port vid pvid pport_no untagged))

  update_access_port-IsSafe :
      (vxlan_link br_link : nl.Link) (vid tunnel_id : ℕ) (to_add : Bool) (br_port : nl.Link)
      → vid < 4096
      → 0 < vid
      → IsSafe (update_access_port k swi bridge vxlan_link br_link vid tunnel_id to_add br_port)
  unfolding update_access_port IsBridgeVlan
  update_access_port-IsSafe vxlan_link br_link vid tunnel_id to_add br_port below positive =
      let pport_no = k.get_port_id_of_ifindex (k.get_ifindex br_port) in
      elim (Option-cases (k.port_vlan br_port)) [
        | inl no_vlans ↦ rw no_vlans (skip-IsSafe _ done (done-IsSafe nl.Link))
        | inr (vlans, e) ↦
            let (vlan_words, (untagged_words, _)) = bitmaps br_port vlans e in
            let (base, known) = bases br_port vlans e in
            let (is_member, e') = is_vid_set_lem vid vlans.vlan_bitmap below vlan_words in
            let (untagged, e'') = is_vid_set_lem vid vlans.untagged_bitmap below untagged_words in
            rw (e, e', e'')
              (skip-IsSafe (k.get_ifindex vxlan_link == k.get_ifindex br_port) _ (
                skip-IsSafe (not is_member) _ (
                  cond-IsSafe (pport_no == 0) done _ (λ _. done-IsSafe nl.Link)
                    (λ port.
                      if-IsSafe to_add _ _
                        (make_access_port-IsSafe br_link br_port base vid tunnel_id pport_no
                          untagged port positive known)
                        (make_bridge_port-IsSafe br_port vid vlans.pvid pport_no untagged)))))
      ]

  module _ (c : Change nl.Link) (vid : ℕ) (below : vid < 4096) (positive : 0 < vid) where
    pub vlan_added_to_vxlan-IsSafe : IsSafe (vlan_added_to_vxlan k swi bridge c vid)
    unfolding vlan_added_to_vxlan update_access_ports
    vlan_added_to_vxlan-IsSafe =
        then-IsSafe _ _ (join_domain-IsSafe k swi bridge vid c.tunnel_id below) (
          every-IsSafe _
            (λ port.
              update_access_port-IsSafe c.link c.br_link vid c.tunnel_id true port below positive)
            c.bridge_ports)

    pub vlan_removed_from_vxlan-IsSafe : IsSafe (vlan_removed_from_vxlan k swi bridge c vid)
    unfolding vlan_removed_from_vxlan update_access_ports
    vlan_removed_from_vxlan-IsSafe = then-IsSafe _ _ (leave_domain-IsSafe k swi bridge vid below) (
        every-IsSafe _
          (λ port.
            update_access_port-IsSafe c.link c.br_link vid c.tunnel_id false port below positive)
          c.bridge_ports)

    pub vlan_removed_from_port-IsSafe :
        (untagged : Bool) → IsSafe (run (vlan_removed_from_port k swi bridge c vid untagged))
    vlan_removed_from_port-IsSafe untagged =
        run-IsSafe (vlan_removed_from_port k swi bridge c vid untagged)
          (vlan_removed_from_port-tunnels k swi bridge c vid untagged)

    pub vlan_added_to_port-IsSafe :
        (untagged : Bool)
        → c.pport_no == 0 ≡ false
        → IsSafe (vlan_added_to_port k swi bridge c vid untagged)
    unfolding IsSafe vlan_added_to_port tunnels IsDomain is_accepted
    vlan_added_to_port-IsSafe untagged port s h =
        let (has_tunnel, (e, has)) = h vid below in
        elim (Bool-cases has_tunnel) [
          | inl tunnelled ↦
              let (tunnel_id, found) = has tunnelled in
              let (t, (e', h')) =
                ask_vxlan-IsSafe
                  (VxlanCall.create_access_port c.br_link tunnel_id c.pport_no vid untagged)
                  (ground (arith, port, positive)) s h in
              (t, (ground (arith, e, tunnelled, found, e'), h'))
          | inr plain ↦
              let (t, (e', h')) =
                run-IsSafe (add_plain_vlan k swi bridge c vid untagged)
                  (add_plain_vlan-tunnels k swi bridge c vid untagged) s h in
              (t, (ground (arith, e, plain, e'), h'))
        ]
