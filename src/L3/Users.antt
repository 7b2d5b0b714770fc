-- ===== src/L3/Users.antt =====
-- The users of an egress interface.
use basebox.Prelude.{
  ℕ, ◌+◌, ◌-◌, ◌≤◌, ◌≡◌, ◌≢◌, inl, inr, false, Option, none, some, ℤ, pos, negsuc, is_neg, arith,
  find, nat_key, pair_key, find-emplace, find-erase, find-insert_or_assign, same, same_iff,
  same_refl, if◌then◌else◌, Option-cases,
}
use basebox.Sai.{SwitchInterface}
use basebox.L3.State.{L3Interface, EgressKey, NlL3, increment, decrement}
use basebox.L3.Egress.{
  create, use_egress, leave_egress, drop_unused, is_unused, add_l3_egress, del_l3_egress,
}

-- A count that has gone below 0 counts no user.
unfoldable pub count_of : Option L3Interface → ℕ
count_of none = 0
count_of (some i) = elim i.refcnt [ pos n ↦ n | negsuc _ ↦ 0 ]

module _ {Group : Type 0} where
  unfoldable pub users : EgressKey → NlL3 Group → ℕ
  users key s = count_of (find key s.l3_interface_mapping)

  -- Every entry counts at least one user.
  abbrev pub IsCounted : NlL3 Group → Type 0
  IsCounted s =
      (key : EgressKey) (i : L3Interface)
      → find key s.l3_interface_mapping ≡ some i
      → 1 ≤ count_of (some i)

module _ {Group : Type 0} (swi : SwitchInterface) (get_port_id : ℕ → ℕ)
    (ifindex vid s_mac d_mac : ℕ) (s : NlL3 Group) (counted : IsCounted s) where
  abbrev key : EgressKey
  key = (get_port_id ifindex, (vid, (s_mac, d_mac)))

  -- While every entry counts a user: if add_l3_egress succeeds, the interface has one user more, all
  -- others have as many as before, and the id that it hands out is the one recorded for it.
  pub users-add_l3_egress :
      (id id' : ℕ) (rv : ℤ) (t : NlL3 Group) (other : EgressKey)
      → add_l3_egress swi get_port_id ifindex vid s_mac d_mac id s ≡ some (rv, (id', t))
      → is_neg rv ≡ false
      → (users other t ≡ (if same other key then users other s + 1 else users other s))
        × ((i : L3Interface) × (find key t.l3_interface_mapping ≡ some i)
            × (i.l3_interface_id ≡ id'))
  unfolding add_l3_egress use_egress users count_of increment
  users-add_l3_egress id id' rv t other e ok =
      elim (Option-cases (find key s.l3_interface_mapping)) [
        | inl new ↦
            let made : L3Interface = record {
              l3_interface_id = swi.created_id s.log (create key);
              refcnt = pos 1;
            } in
            (
              ground
                  (arith, find-emplace key other made s.l3_interface_mapping, same_iff other key),
              (
                made,
                ground (arith, find-emplace key key made s.l3_interface_mapping, same_refl key),
                ground arith,
              ),
            )
        | inr (i, known) ↦
            let more : L3Interface = record i { refcnt = pos (count_of (some i) + 1) } in
            (
              ground (
                arith,
                counted key i known,
                find-insert_or_assign key other more s.l3_interface_mapping,
                same_iff other key,
              ),
              (
                more,
                ground (
                  arith,
                  counted key i known,
                  find-insert_or_assign key key more s.l3_interface_mapping,
                  same_refl key,
                ),
                ground (arith, counted key i known),
              ),
            )
      ]

  -- While every entry counts a user, del_l3_egress on a known port, if it returns, takes one user off the interface, if it has any, and leaves
  -- all others as they were.
  users-del_l3_egress :
      (rv : ℤ) (t : NlL3 Group) (other : EgressKey)
      → get_port_id ifindex ≢ 0
      → del_l3_egress swi get_port_id ifindex vid s_mac d_mac s ≡ some (rv, t)
      → users other t ≡ (if same other key then users other s - 1 else users other s)
  unfolding del_l3_egress leave_egress drop_unused is_unused users count_of decrement
  users-del_l3_egress rv t other port e = elim (Option-cases (find key s.l3_interface_mapping)) [
    | inl new ↦ ground (arith, same_iff other key)
    | inr (i, known) ↦
        let fewer : L3Interface = record i { refcnt = pos (count_of (some i) - 1) } in
        ground (
          arith,
          counted key i known,
          find-insert_or_assign key other fewer s.l3_interface_mapping,
          find-erase key other s.l3_interface_mapping,
          same_iff other key,
        )
  ]
