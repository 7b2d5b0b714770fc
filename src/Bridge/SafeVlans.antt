-- ===== src/Bridge/SafeVlans.antt =====
-- The comparison of a link's VLANs, as a whole: it does not abort, for the bitmaps of the kernel.
use Prim.Native.Nat.{bit_and, bit_xor}
use basebox.Prelude.{
  ℕ, zero, suc, ◌+◌, ◌-◌, ◌*◌, ◌%◌, List, false, ◌==◌, ◌<◌, ◌≤◌, ◌^◌, ◌≡◌, ◌∙◌, refl, Option, none,
  some, arith, All,
}
use basebox.Prelude.Bits.{bit_xor-bound, bit_xor-even, bit_and-bound}
use basebox.Sai.{SwitchInterface}
use basebox.Vlan.Bridge.{update_egress_bridge_vlan}
use basebox.Bridge.State.{BridgeVlan, Kernel, NlBridge, on_vlan}
use basebox.Bridge.Bits.{get_elem?, is_bit_set, is_vid_set, shr}
use basebox.Bridge.BitLoop.{set_bits, loop_bits_lem, set_bits-bound, IsVidOf, set_bits-vids}
use basebox.Bridge.Run.{Run, for_all}
use basebox.Bridge.Keeps.{tunnels}
use basebox.Bridge.Vlans.{
  indices, zeros, empty_br_vlan, Change, vlan_changed, untagged_changed, for_bits, word_changed,
  word_at,
}
use basebox.Bridge.Updates.{or_empty}
use basebox.Bridge.NeverAborts.{IsSafe, run-IsSafe, then-IsSafe, for_all-IsSafe}
use basebox.Bridge.SafeUpdates.{
  IsBitmap, IsBridgeVlan, if-IsSafe, cond-IsSafe, vlan_added_to_vxlan-IsSafe,
  vlan_removed_from_vxlan-IsSafe, vlan_removed_from_port-IsSafe, vlan_added_to_port-IsSafe,
}

pub indices-bound : (n i m : ℕ) → i + n ≤ m → All (λ j. j < m) (indices n i)
indices-bound zero i m h = tt
indices-bound (suc n) i m h = (omega arith, indices-bound n (suc i) m (omega arith))

pub get_elem?-zeros : (n i : ℕ) → i < n → get_elem? (zeros n) i ≡ some 0
unfolding get_elem?
get_elem?-zeros zero i h = absurd (omega arith)
get_elem?-zeros (suc n) zero h = refl
get_elem?-zeros (suc n) (suc i) h = get_elem?-zeros n i (omega arith)

pub or_empty-IsBridgeVlan :
    (vlans : Option BridgeVlan)
    → ((v : BridgeVlan) → vlans ≡ some v → IsBridgeVlan v)
    → IsBridgeVlan (or_empty vlans)
unfolding or_empty empty_br_vlan IsBridgeVlan IsBitmap is_vid_set get_elem? is_bit_set shr
or_empty-IsBridgeVlan none h =
    let lacks : is_vid_set 0 (zeros 128) ≡ some false = refl in
    let empty : (i : ℕ) → i < 128 → (w : ℕ) × ((get_elem? (zeros 128) i ≡ some w) × (w < 2 ^ 32)) =
      λ i below. (0, (get_elem?-zeros 128 i below, omega arith)) in
    (empty, (empty, lacks))
or_empty-IsBridgeVlan (some v) h = h v refl

-- A step that acts as a safe one.
pub as-IsSafe :
    {L : Type 0} (m n : Run (NlBridge L)) → ((s : NlBridge L) → m s ≡ n s) → IsSafe n → IsSafe m
unfolding IsSafe
as-IsSafe m n same safe s h = let (t, (e, h')) = safe s h in (t, (same s ∙ e, h'))

-- A link that is no tunnel has a port.
abbrev pub IsOfPort : (k : Kernel) → Change k.nl.Link → Type 0
IsOfPort k c = k.is_vxlan c.link ≡ false → c.pport_no == 0 ≡ false

module _ (k : Kernel) (swi : SwitchInterface) (bridge : k.nl.Link) where
  open k use {nl}

  for_bits-IsSafe :
      (P : ℕ → Type 0) (body : ℕ → Run (NlBridge nl.Link)) (x : ℕ)
      → x < 2 ^ 32
      → All P (set_bits x)
      → ((j : ℕ) → P j → IsSafe (body j))
      → IsSafe (for_bits k swi bridge body x)
  unfolding for_bits
  for_bits-IsSafe P body x h all safe =
      as-IsSafe (for_bits k swi bridge body x) (for_all body (set_bits x))
        (λ s. ground (arith, loop_bits_lem x h)) (for_all-IsSafe P body safe (set_bits x) all)

  module _
      (bitmaps : (link : k.nl.Link) (vlans : BridgeVlan)
        → k.port_vlan link ≡ some vlans
        → IsBridgeVlan vlans)
      (bases : (link : k.nl.Link) (vlans : BridgeVlan)
        → k.port_vlan link ≡ some vlans
        → (base : k.nl.Link) × (k.base_link (k.get_ifindex link) ≡ some base)) where
    vlan_changed-IsSafe :
        (c : Change nl.Link) (i vlan_new untagged_new j : ℕ)
        → IsOfPort k c
        → i < 128
        → IsVidOf i j
        → IsSafe (vlan_changed k swi bridge c i vlan_new untagged_new j)
    unfolding vlan_changed
    vlan_changed-IsSafe c i vlan_new untagged_new j port h (h', positive) =
        let vid = j - 1 + i * 32 in
        let below : vid < 4096 = omega arith in
        let untagged = is_bit_set untagged_new (j - 1) in
        if-IsSafe (is_bit_set vlan_new (j - 1)) _ _
          (cond-IsSafe (k.is_vxlan c.link) _ _
            (λ _. vlan_added_to_vxlan-IsSafe k swi bridge bitmaps bases c vid below positive)
            (λ single.
              vlan_added_to_port-IsSafe k swi bridge bitmaps bases c vid below positive untagged
                (port single)))
          (if-IsSafe (k.is_vxlan c.link) _ _
            (vlan_removed_from_vxlan-IsSafe k swi bridge bitmaps bases c vid below positive)
            (vlan_removed_from_port-IsSafe k swi bridge bitmaps bases c vid below positive
              untagged))

    word_changed-IsSafe :
        (c : Change nl.Link) (i vlan_old vlan_new untagged_old untagged_new : ℕ)
        → IsOfPort k c
        → (i ≡ 0 → vlan_old % 2 ≡ 0)
        → (i ≡ 0 → vlan_new % 2 ≡ 0)
        → i < 128
        → vlan_old < 2 ^ 32
        → vlan_new < 2 ^ 32
        → untagged_old < 2 ^ 32
        → untagged_new < 2 ^ 32
        → IsSafe (word_changed k swi bridge c i vlan_old vlan_new untagged_old untagged_new)
    unfolding word_changed untagged_changed tunnels
    word_changed-IsSafe c i vlan_old vlan_new untagged_old untagged_new port even even' h a b d e =
        let vlan_diff = bit_xor vlan_old vlan_new in
        let untagged_diff = bit_xor untagged_old untagged_new in
        then-IsSafe _ _
          (for_bits-IsSafe (IsVidOf i) (vlan_changed k swi bridge c i vlan_new untagged_new)
            vlan_diff (bit_xor-bound 32 vlan_old vlan_new a b)
            (set_bits-vids i vlan_diff (λ z. bit_xor-even vlan_old vlan_new (even z) (even' z)))
            (λ j h'. vlan_changed-IsSafe c i vlan_new untagged_new j port h h'))
          (for_bits-IsSafe (λ j. j ≤ 32) (untagged_changed k swi bridge c i untagged_new)
            (bit_and untagged_diff (2 ^ 32 - 1 - vlan_diff))
            (bit_and-bound 32 untagged_diff (2 ^ 32 - 1 - vlan_diff)
              (bit_xor-bound 32 untagged_old untagged_new d e))
            (set_bits-bound (bit_and untagged_diff (2 ^ 32 - 1 - vlan_diff)))
            (λ j h'.
              run-IsSafe
                (on_vlan (
                  update_egress_bridge_vlan nl swi c.link (j - 1 + i * 32)
                    (is_bit_set untagged_new (j - 1))))
                (λ s. refl)))

    first_word :
        (ws : List ℕ) (i w : ℕ)
        → is_vid_set 0 ws ≡ some false
        → get_elem? ws i ≡ some w
        → i ≡ 0
        → w % 2 ≡ 0
    unfolding is_vid_set is_bit_set shr
    first_word ws zero w lacks e z = ground arith
    first_word ws (suc i) w lacks e z = absurd (omega arith)

    pub word_at-IsSafe :
        (c : Change nl.Link) (old new : BridgeVlan) (i : ℕ)
        → IsOfPort k c
        → IsBridgeVlan old
        → IsBridgeVlan new
        → i < 128
        → IsSafe (word_at k swi bridge c old new i)
    unfolding word_at IsBridgeVlan IsBitmap
    word_at-IsSafe c old new i port (old_vlans, (old_untagged, lacks))
          (new_vlans, (new_untagged, lacks')) h =
        let (vo, (e, a)) = old_vlans i h in
        let (vn, (e', b)) = new_vlans i h in
        let (uo, (e'', d)) = old_untagged i h in
        let (un, (e4, f)) = new_untagged i h in
        as-IsSafe (word_at k swi bridge c old new i) (word_changed k swi bridge c i vo vn uo un)
          (λ s. ground (arith, e, e', e'', e4))
          (word_changed-IsSafe c i vo vn uo un port (first_word old.vlan_bitmap i vo lacks e)
            (first_word new.vlan_bitmap i vn lacks' e') h a b d f)
