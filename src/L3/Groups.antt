-- ===== src/L3/Groups.antt =====
-- The users and the ids of the groups of next hops.
use basebox.Prelude.{
  ℕ, ◌+◌, ◌-◌, ◌≤◌, ◌≡◌, ◌⊎◌, inl, inr, none, some, ℤ, pos, arith, Key, find, insert_or_assign,
  find-emplace, find-erase, find-insert_or_assign, same, same_iff, ◌==◌, if◌then◌else◌,
  Option-cases, einval,
}
use basebox.Sai.{Call, SwitchInterface}
use basebox.L3.State.{L3Interface, NlL3, increment, decrement}
use basebox.L3.Ecmp.{is_gone, add_l3_ecmp_group, get_l3_ecmp_group, del_l3_ecmp_group}
use basebox.L3.Users.{count_of}

module _ {Group : Type 0} ⦃groups : Key Group⦄ where
  unfoldable pub group_users : Group → NlL3 Group → ℕ
  group_users nhs s = count_of (find nhs s.nh_grp_to_l3_ecmp_mapping)

  -- Every entry counts at least one user.
  abbrev pub IsUsed : NlL3 Group → Type 0
  IsUsed s =
      (nhs : Group) (i : L3Interface)
      → find nhs s.nh_grp_to_l3_ecmp_mapping ≡ some i
      → 1 ≤ count_of (some i)

  -- A group is unknown or has a user.
  users-found :
      (nhs : Group) (s : NlL3 Group)
      → IsUsed s
      → (find nhs s.nh_grp_to_l3_ecmp_mapping ≡ none) ⊎ (1 ≤ group_users nhs s)
  unfolding group_users
  users-found nhs s used = elim (Option-cases (find nhs s.nh_grp_to_l3_ecmp_mapping)) [
    | inl unknown ↦ inl unknown
    | inr (i, known) ↦ inr (ground (arith, used nhs i known))
  ]

module _ {Group : Type 0} ⦃groups : Key Group⦄ (swi : SwitchInterface) (nhs : Group)
    (s : NlL3 Group) (used : IsUsed s) where
  -- While every group has a user: unless a count overflows, add_l3_ecmp_group gives the group one user more, and the id that it
  -- hands out is what get_l3_ecmp_group then finds. Other groups keep their users and ids, and
  -- every group still has a user.
  pub add_l3_ecmp_group_lem :
      (rv : ℤ) (id old : ℕ) (t : NlL3 Group) (other : Group)
      → add_l3_ecmp_group swi nhs s ≡ some (rv, (id, t))
      → (group_users other t
          ≡ (if same other nhs then group_users other s + 1 else group_users other s))
        × (get_l3_ecmp_group swi other old t
            ≡ (if same other nhs then (pos 0, id) else get_l3_ecmp_group swi other old s))
        × IsUsed t
  unfolding add_l3_ecmp_group get_l3_ecmp_group group_users count_of increment
  add_l3_ecmp_group_lem rv id old t other e =
      elim (Option-cases (find nhs s.nh_grp_to_l3_ecmp_mapping)) [
        | inl new ↦
            let made : L3Interface = record {
              l3_interface_id = swi.created_id s.log Call.l3_ecmp_add;
              refcnt = pos 1;
            } in
            let found = (λ (g : Group). find-emplace nhs g made s.nh_grp_to_l3_ecmp_mapping) in
            (
              ground (arith, found other, same_iff other nhs),
              ground (arith, found other, same_iff other nhs),
              λ g i h. ground (arith, found g, used g i),
            )
        | inr (i, known) ↦
            let more : L3Interface = record i { refcnt = pos (count_of (some i) + 1) } in
            let found =
              (λ (g : Group). find-insert_or_assign nhs g more s.nh_grp_to_l3_ecmp_mapping) in
            (
              ground (arith, used nhs i known, found other, same_iff other nhs),
              ground (arith, used nhs i known, found other, same_iff other nhs),
              λ g j h. ground (arith, used nhs i known, found g, used g j),
            )
      ]

  -- While every group has a user: del_l3_ecmp_group takes one user off the group, if it has any; a group without users is not
  -- found any more. Other groups keep their users and ids, and every group still has a user.
  del_l3_ecmp_group_lem :
      (rv : ℤ) (old : ℕ) (t : NlL3 Group) (other : Group)
      → del_l3_ecmp_group swi nhs s ≡ some (rv, t)
      → (group_users other t
          ≡ (if same other nhs then group_users other s - 1 else group_users other s))
        × (get_l3_ecmp_group swi other old t ≡ (
            if group_users other t == 0 then (einval, old) else get_l3_ecmp_group swi other old s))
        × IsUsed t
  unfolding del_l3_ecmp_group get_l3_ecmp_group group_users count_of decrement is_gone
  del_l3_ecmp_group_lem rv old t other e =
      elim (Option-cases (find nhs s.nh_grp_to_l3_ecmp_mapping)) [
        | inl new ↦ (
          ground (arith, same_iff other nhs),
          ground (arith, users-found other s used),
          λ g i h. ground (arith, used g i),
        )
        | inr (i, known) ↦
            let fewer : L3Interface = record i { refcnt = pos (count_of (some i) - 1) } in
            let found =
              (λ (g : Group). find-insert_or_assign nhs g fewer s.nh_grp_to_l3_ecmp_mapping) in
            let left = insert_or_assign nhs fewer s.nh_grp_to_l3_ecmp_mapping in
            let gone = (λ (g : Group). find-erase nhs g left) in
            (
              ground (arith, used nhs i known, found other, gone other, same_iff other nhs),
              ground (
                arith,
                used nhs i known,
                users-found other s used,
                found other,
                gone other,
                same_iff other nhs,
              ),
              λ g j h. ground (arith, used nhs i known, found g, gone g, used g j),
            )
      ]
