-- ===== src/L3/Ecmp.antt =====
-- The groups of next hops among which the switch spreads packets.
use basebox.Prelude.{
  ℕ, Bool, true, Option, none, some, ℤ, pos, negsuc, einval, Key, find, emplace, insert_or_assign,
  erase, ◌==◌, if◌then◌else◌,
}
use basebox.Sai.{Call, SwitchInterface}
use basebox.L3.State.{NlL3, call, increment, decrement}

-- `refcnt <= 0`
unfoldable pub is_gone : ℤ → Bool
is_gone n = elim n [ pos m ↦ m == 0 | negsuc m ↦ true ]

-- Two sets of next hops are one key if they have the same next hops.
module _ {Group : Type 0} ⦃groups : Key Group⦄ (swi : SwitchInterface) where
  -- The answer of the switch to the creation is not read.
  unfoldable pub add_l3_ecmp_group : Group → NlL3 Group → Option (ℤ × (ℕ × NlL3 Group))
  add_l3_ecmp_group nhs s = elim (find nhs s.nh_grp_to_l3_ecmp_mapping) [
    | some i ↦ elim (increment i.refcnt) [
      | none ↦ none
      | some n ↦ some (
        pos 0,
        (
          i.l3_interface_id,
          record s {
            nh_grp_to_l3_ecmp_mapping =
                insert_or_assign nhs (record i { refcnt = n }) s.nh_grp_to_l3_ecmp_mapping;
          },
        ),
      )
    ]
    | none ↦
        let id = swi.created_id s.log Call.l3_ecmp_add in
        let (_, t) = call swi Call.l3_ecmp_add s in
        some (
          pos 0,
          (
            id,
            record t {
              nh_grp_to_l3_ecmp_mapping =
                  emplace nhs (record { l3_interface_id = id; refcnt = pos 1 })
                    t.nh_grp_to_l3_ecmp_mapping;
            },
          ),
        )
  ]

  unfoldable pub get_l3_ecmp_group : Group → ℕ → NlL3 Group → ℤ × ℕ
  get_l3_ecmp_group nhs l3_ecmp_id s = elim (find nhs s.nh_grp_to_l3_ecmp_mapping) [
    | some i ↦ (pos 0, i.l3_interface_id)
    | none ↦ (einval, l3_ecmp_id)
  ]

  unfoldable pub del_l3_ecmp_group : Group → NlL3 Group → Option (ℤ × NlL3 Group)
  del_l3_ecmp_group nhs s = elim (find nhs s.nh_grp_to_l3_ecmp_mapping) [
    | none ↦ some (einval, s)
    | some i ↦ elim (decrement i.refcnt) [
      | none ↦ none
      | some n ↦
          let counted = record s {
            nh_grp_to_l3_ecmp_mapping =
                insert_or_assign nhs (record i { refcnt = n }) s.nh_grp_to_l3_ecmp_mapping;
          } in
          let (rv, t) = call swi (Call.l3_ecmp_remove i.l3_interface_id) counted in
          if is_gone n
          then some
              (rv, record t { nh_grp_to_l3_ecmp_mapping = erase nhs t.nh_grp_to_l3_ecmp_mapping })
          else some (pos 0, counted)
    ]
  ]
