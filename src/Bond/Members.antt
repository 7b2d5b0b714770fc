-- ===== src/Bond/Members.antt =====
-- The member sets of the LAGs under add_lag_member and remove_lag_member.
use basebox.Prelude.{
  ℕ, ◌≡◌, ◌≢◌, inl, inr, true, ◌||◌, ◌&&◌, [], none, some, ℤ, is_neg, arith, find, nat_key,
  find-emplace, find-erase, find-insert_or_assign, ◌==◌, if◌then◌else◌, Option-cases, contains, add,
  contains-add,
}
use basebox.Sai.{SwitchInterface}
use basebox.Bond.State.{Links, NlBond, get_lag_id, get_members, get_members_by_port_id, get_port_id}
use basebox.Bond.Methods.{
  join, add_lag, add_lag_member, add_member_of_new_lag, program_member, remove_lag_member,
}

module _ (links : Links) (swi : SwitchInterface) (bond link : links.Link) (s t : NlBond links.Link)
    (rv : ℤ) where
  members-join :
      (lag_id port_id other member : ℕ) (u : NlBond links.Link)
      → contains member (get_members_by_port_id links other (join lag_id port_id u)) ≡ (
          other == lag_id && member == port_id
          || contains member (get_members_by_port_id links other u))
  unfolding join get_members_by_port_id contains
  members-join lag_id port_id other member u = elim (Option-cases (find lag_id u.lag_members)) [
    | inl e ↦ ground (
      arith,
      find-emplace lag_id other (add port_id []) u.lag_members,
      contains-add member port_id [],
    )
    | inr (members, e) ↦ ground (
      arith,
      find-insert_or_assign lag_id other (add port_id members) u.lag_members,
      contains-add member port_id members,
    )
  ]

  -- A known port joins a bond that has a LAG, also if the switch refuses it: the LAG has it as a
  -- member beside those it had, and no other LAG's members change.
  pub add_lag_member-members :
      (lag_id other member : ℕ)
      → find (links.get_ifindex bond) s.ifi2lag ≡ some lag_id
      → get_port_id links link s ≢ 0
      → add_lag_member links swi bond link s ≡ some (rv, t)
      → contains member (get_members_by_port_id links other t) ≡ (
          other == lag_id && member == get_port_id links link s
          || contains member (get_members_by_port_id links other s))
  unfolding add_lag_member program_member get_members_by_port_id
  add_lag_member-members lag_id other member known port e =
      ground (arith, members-join lag_id (get_port_id links link s) other member s)

  -- For a bond that has no LAG yet, adding its first member never succeeds: either an error is
  -- returned, or an iterator past the end is read.
  add_first_member_fails :
      find (links.get_ifindex bond) s.ifi2lag ≡ none
      → add_lag_member links swi bond link s ≡ some (rv, t)
      → is_neg rv ≡ true
  unfolding add_lag_member add_member_of_new_lag
  add_first_member_fails new e = elim (Option-cases (add_lag links swi bond s)) [
    | inl aborted ↦ ground arith
    | inr ((rv', u), made) ↦ ground arith
  ]

  -- From a bond that has a LAG, removing one known port takes all members of the LAG away, if the
  -- method returns; other LAGs keep theirs.
  pub remove_lag_member_empties :
      (lag_id other : ℕ)
      → find (links.get_ifindex bond) s.ifi2lag ≡ some lag_id
      → get_port_id links link s ≢ 0
      → remove_lag_member links swi bond link s ≡ some (rv, t)
      → get_members_by_port_id links other t
        ≡ (if other == lag_id then [] else get_members_by_port_id links other s)
  unfolding remove_lag_member get_members_by_port_id
  remove_lag_member_empties lag_id other known port e =
      elim (Option-cases (find lag_id s.lag_members)) [
        | inl unknown ↦ ground arith
        | inr (members, found) ↦ ground (arith, find-erase lag_id other s.lag_members)
      ]

-- The members of a bond that has a LAG are those of the port id that stands for it.
pub get_members-by_port_id :
    (links : Links) (bond : links.Link) (s : NlBond links.Link)
    → find (links.get_ifindex bond) s.ifi2lag ≢ none
    → get_members links bond s
      ≡ get_members_by_port_id links (get_lag_id links (links.get_ifindex bond) s) s
unfolding get_members get_members_by_port_id get_lag_id
get_members-by_port_id links bond s h = ground arith
