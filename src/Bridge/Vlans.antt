-- ===== src/Bridge/Vlans.antt =====
-- The VLANs of a bridge port: what changes between two states of it.
use Prim.Native.Nat.{bit_and, bit_xor}
use basebox.Prelude.{
  ℕ, zero, suc, ◌+◌, ◌-◌, ◌*◌, ◌^◌, Bool, true, false, not, ◌&&◌, List, [], ◌∷◌, none, some, pos,
  negsuc, find, emplace, erase, nat_key, ◌==◌, if◌then◌else◌, Method, ◌>>◌, pure, modify,
}
use basebox.Sai.{Call, SwitchInterface}
use basebox.Vlan.Bridge.{add_bridge_vlan, remove_bridge_vlan, update_egress_bridge_vlan}
use basebox.Bridge.StpStates.{br_state_forwarding, get_pvlan_state}
use basebox.Bridge.State.{BridgeVlan, Kernel, NlBridge, VxlanCall, call, on_vlan}
use basebox.Bridge.Stp.{add_port_vlan_stp_state}
use basebox.Bridge.Bits.{
  bitmap_len, get_elem?, is_bit_set, loop_bits, is_vid_set, set_vid, unset_vid,
}
use basebox.Bridge.Fdb.{remove_all}
use basebox.Bridge.AccessPorts.{ask_vxlan, update_access_ports}
use basebox.Bridge.Run.{Run, ◌>=>◌, run, for_all}

-- `for (int i = 0; i < n; i++)`, begun at `i`
abbrev pub indices : ℕ → ℕ → List ℕ
indices zero i = []
indices (suc n) i = i ∷ indices n (suc i)

abbrev pub zeros : ℕ → List ℕ
zeros zero = []
zeros (suc n) = 0 ∷ zeros n

-- `memset(&empty_br_vlan, 0, …)`
unfoldable pub empty_br_vlan : BridgeVlan
empty_br_vlan = record {
  pvid = 0;
  vlan_bitmap = zeros bitmap_len;
  untagged_bitmap = zeros bitmap_len;
}

unfoldable pub same_words : List ℕ → List ℕ → Bool
same_words [] [] = true
same_words [] (w ∷ ws) = false
same_words (v ∷ vs) [] = false
same_words (v ∷ vs) (w ∷ ws) = (v == w) && same_words vs ws

unfoldable pub br_vlan_equal : BridgeVlan → BridgeVlan → Bool
br_vlan_equal lhs rhs =
    (lhs.pvid == rhs.pvid)
    && (same_words lhs.vlan_bitmap rhs.vlan_bitmap
        && same_words lhs.untagged_bitmap rhs.untagged_bitmap)

-- What stays the same through the loops: the link in both families, and whether it was just added
-- and still exists; its port, and its tunnel.
pub record Change (L : Type 0) : Type 0 where
  pub link : L
  pub br_link : L
  pub is_added : Bool
  pub is_removed : Bool
  pub pport_no : ℕ
  pub tunnel_id : ℕ
  pub bridge_ports : List L

module _ (k : Kernel) (swi : SwitchInterface) (bridge : k.nl.Link) where
  open k use {nl, get_ifindex, get_master}

  -- The state of a VLAN that the port is in for the first time, if the port was just added.
  unfoldable pub initialise_stp : Change nl.Link → ℕ → Method (NlBridge nl.Link) (Unit {0})
  initialise_stp c vid s = elim (get_pvlan_state c.pport_no vid s.stp) [
    | pos _ ↦ (tt, s)
    | negsuc _ ↦
        if c.is_added
        then (let state : ℕ = elim (k.bvlan_state (get_ifindex c.link) vid) [
          | none ↦ br_state_forwarding
          | some state ↦ state
        ] in
            (tt, (add_port_vlan_stp_state k swi c.pport_no vid state s).1))
        else (tt, s)
  ]

  -- The tunnel of the VLAN is entered where the VLAN has none.
  unfoldable pub join_domain : ℕ → ℕ → Run (NlBridge nl.Link)
  join_domain vid tunnel_id s = elim (is_vid_set vid s.vxlan_dom_bitmap) [
    | none ↦ none
    | some known ↦ some (
        if known then s else record s {
          vxlan_domain = emplace vid tunnel_id s.vxlan_domain;
          vxlan_dom_bitmap = set_vid vid s.vxlan_dom_bitmap;
        })
  ]

  unfoldable pub leave_domain : ℕ → Run (NlBridge nl.Link)
  leave_domain vid s = some (record s {
    vxlan_dom_bitmap = unset_vid vid s.vxlan_dom_bitmap;
    vxlan_domain = erase vid s.vxlan_domain;
  })

  unfoldable pub vlan_added_to_vxlan : Change nl.Link → ℕ → Run (NlBridge nl.Link)
  vlan_added_to_vxlan c vid =
      join_domain vid c.tunnel_id
      >=> update_access_ports k swi bridge c.link c.br_link vid c.tunnel_id true c.bridge_ports

  unfoldable pub vlan_removed_from_vxlan : Change nl.Link → ℕ → Run (NlBridge nl.Link)
  vlan_removed_from_vxlan c vid =
      leave_domain vid
      >=> update_access_ports k swi bridge c.link c.br_link vid c.tunnel_id false c.bridge_ports

  unfoldable pub add_plain_vlan : Change nl.Link → ℕ → Bool → Method (NlBridge nl.Link) (Unit {0})
  add_plain_vlan c vid untagged = do
    on_vlan (add_bridge_vlan nl swi c.link vid false (not untagged))
    call swi (Call.l2_multicast_group_rejoin_all_in_vlan c.pport_no vid)
    initialise_stp c vid

  -- None for a VLAN of a tunnel that is not in the map, where the source aborts.
  unfoldable pub vlan_added_to_port : Change nl.Link → ℕ → Bool → Run (NlBridge nl.Link)
  vlan_added_to_port c vid untagged s = elim (is_vid_set vid s.vxlan_dom_bitmap) [
    | none ↦ none
    | some has_tunnel ↦
        if has_tunnel
        then elim (find vid s.vxlan_domain) [
          | none ↦ none
          | some tunnel_id ↦
              ask_vxlan (VxlanCall.create_access_port c.br_link tunnel_id c.pport_no vid untagged) s
        ]
        else run (add_plain_vlan c vid untagged) s
  ]

  unfoldable pub vlan_removed_from_port :
      Change nl.Link → ℕ → Bool → Method (NlBridge nl.Link) (Unit {0})
  vlan_removed_from_port c vid untagged = do
    modify (λ s. record s {
      l2_cache = remove_all (k.passes (get_ifindex c.link) (get_master c.link) vid) s.l2_cache;
    })
    call swi (Call.l2_addr_remove_all_in_vlan c.pport_no vid)
    call swi (Call.l2_multicast_group_leave_all_in_vlan c.pport_no vid)
    on_vlan (remove_bridge_vlan nl swi c.link vid false (not untagged))
    if c.is_removed
        then pure tt
        else modify (λ s. record s { flushed = (get_ifindex c.link, vid) ∷ s.flushed })

  -- Bit `j` of word `i`, of which the new words are given.
  unfoldable pub vlan_changed : Change nl.Link → ℕ → ℕ → ℕ → ℕ → Run (NlBridge nl.Link)
  vlan_changed c i vlan_new untagged_new j =
      let vid = j - 1 + i * 32 in
      let untagged = is_bit_set untagged_new (j - 1) in
      if is_bit_set vlan_new (j - 1)
      then (if k.is_vxlan c.link
          then vlan_added_to_vxlan c vid
          else vlan_added_to_port c vid untagged)
      else (if k.is_vxlan c.link
          then vlan_removed_from_vxlan c vid
          else run (vlan_removed_from_port c vid untagged))

  unfoldable pub untagged_changed : Change nl.Link → ℕ → ℕ → ℕ → Run (NlBridge nl.Link)
  untagged_changed c i untagged_new j = run (
      on_vlan (
        update_egress_bridge_vlan nl swi c.link (j - 1 + i * 32) (is_bit_set untagged_new (j - 1))))

  -- None where the loop would not end.
  unfoldable pub for_bits : (ℕ → Run (NlBridge nl.Link)) → ℕ → Run (NlBridge nl.Link)
  for_bits body x = elim (loop_bits x) [ none ↦ λ s. none | some js ↦ for_all body js ]

  unfoldable pub word_changed : Change nl.Link → ℕ → ℕ → ℕ → ℕ → ℕ → Run (NlBridge nl.Link)
  word_changed c i vlan_old vlan_new untagged_old untagged_new =
      let vlan_diff = bit_xor vlan_old vlan_new in
      let untagged_diff = bit_and (bit_xor untagged_old untagged_new) (2 ^ 32 - 1 - vlan_diff) in
      for_bits (vlan_changed c i vlan_new untagged_new) vlan_diff
      >=> for_bits (untagged_changed c i untagged_new) untagged_diff

  -- None for bitmaps that are shorter.
  unfoldable pub word_at : Change nl.Link → BridgeVlan → BridgeVlan → ℕ → Run (NlBridge nl.Link)
  word_at c old new i = elim (get_elem? old.vlan_bitmap i) [
    | none ↦ λ s. none
    | some vlan_old ↦ elim (get_elem? new.vlan_bitmap i) [
      | none ↦ λ s. none
      | some vlan_new ↦ elim (get_elem? old.untagged_bitmap i) [
        | none ↦ λ s. none
        | some untagged_old ↦ elim (get_elem? new.untagged_bitmap i) [
          | none ↦ λ s. none
          | some untagged_new ↦ word_changed c i vlan_old vlan_new untagged_old untagged_new
        ]
      ]
    ]
  ]
