-- ===== src/L3/Egress.antt =====
-- The egress interfaces of the switch, which neighbours share.
use basebox.Prelude.{
  ℕ, Bool, false, Option, none, some, ℤ, pos, negsuc, is_neg, einval, eexist, enodata, find,
  emplace, insert_or_assign, erase, nat_key, pair_key, ◌==◌, if◌then◌else◌,
}
use basebox.Sai.{Call, SwitchInterface}
use basebox.L3.State.{L3Interface, EgressKey, NlL3, call, increment, decrement}

-- `refcnt == 0`
unfoldable pub is_unused : ℤ → Bool
is_unused n = elim n [ pos m ↦ m == 0 | negsuc m ↦ false ]

abbrev pub create : EgressKey → Call
create (port_id, (vid, (src_mac, dst_mac))) = Call.l3_egress_create port_id vid src_mac dst_mac

module _ {Group : Type 0} (swi : SwitchInterface) where
  -- The results are the return value, what `*l3_interface_id` is then, and the object after it.
  unfoldable pub use_egress : EgressKey → NlL3 Group → Option (ℤ × (ℕ × NlL3 Group))
  use_egress key s = elim (find key s.l3_interface_mapping) [
    | none ↦
        let id = swi.created_id s.log (create key) in
        let (rv, t) = call swi (create key) s in
        if is_neg rv
        then some (rv, (id, t))
        else some (
          rv,
          (
            id,
            record t {
              l3_interface_mapping =
                  emplace key (record { l3_interface_id = id; refcnt = pos 1 })
                    t.l3_interface_mapping;
            },
          ),
        )
    | some i ↦ elim (increment i.refcnt) [
      | none ↦ none
      | some n ↦ some (
        pos 0,
        (
          i.l3_interface_id,
          record s {
            l3_interface_mapping =
                insert_or_assign key (record i { refcnt = n }) s.l3_interface_mapping;
          },
        ),
      )
    ]
  ]

  -- `get_port_id` is that of cnetlink, by interface index.
  unfoldable pub add_l3_egress :
      (ℕ → ℕ) → ℕ → ℕ → ℕ → ℕ → ℕ → NlL3 Group → Option (ℤ × (ℕ × NlL3 Group))
  add_l3_egress get_port_id ifindex vid s_mac d_mac l3_interface_id s =
      if get_port_id ifindex == 0
      then some (einval, (l3_interface_id, s))
      else use_egress (get_port_id ifindex, (vid, (s_mac, d_mac))) s

  -- Once the count is 0, the entry goes, whatever the switch answers.
  unfoldable pub drop_unused : EgressKey → L3Interface → NlL3 Group → ℤ × NlL3 Group
  drop_unused key i s =
      let (rv, t) = call swi (Call.l3_egress_remove i.l3_interface_id) s in
      let u = record t { l3_interface_mapping = erase key t.l3_interface_mapping } in
      if is_neg rv then (rv, u) else (eexist, u)

  unfoldable pub leave_egress : EgressKey → NlL3 Group → Option (ℤ × NlL3 Group)
  leave_egress key s = elim (find key s.l3_interface_mapping) [
    | none ↦ some (enodata, s)
    | some i ↦ elim (decrement i.refcnt) [
      | none ↦ none
      | some n ↦
          if is_unused n
          then some (drop_unused key i s)
          else some (
            eexist,
            record s {
              l3_interface_mapping =
                  insert_or_assign key (record i { refcnt = n }) s.l3_interface_mapping;
            },
          )
    ]
  ]

  unfoldable pub del_l3_egress : (ℕ → ℕ) → ℕ → ℕ → ℕ → ℕ → NlL3 Group → Option (ℤ × NlL3 Group)
  del_l3_egress get_port_id ifindex vid s_mac d_mac s =
      if get_port_id ifindex == 0
      then some (einval, s)
      else leave_egress (get_port_id ifindex, (vid, (s_mac, d_mac))) s

module _ {Group : Type 0} where
  -- `link_vid` is the VLAN of the link with that index, none if there is no such link.
  unfoldable pub get_l3_interface_id :
      (ℕ → ℕ) → (ℕ → Option ℕ) → ℕ → ℕ → ℕ → ℕ → ℕ → NlL3 Group → ℤ × ℕ
  get_l3_interface_id get_port_id link_vid ifindex s_mac d_mac vid id s = elim (link_vid ifindex) [
    | none ↦ (einval, id)
    | some own ↦
        let used = if vid == 0 then own else vid in
        elim (find (get_port_id ifindex, (used, (s_mac, d_mac))) s.l3_interface_mapping) [
          | none ↦ (enodata, id)
          | some i ↦ (pos 0, i.l3_interface_id)
        ]
  ]
