-- ===== src/L3/Tests.antt =====
-- The theorems on routing entries at concrete inputs. Sets of next hops are numbers here.
use Prim.{tt}
use basebox.Prelude.{
  ℕ, ◌≤◌, ◌<◌, ◌≡◌, ◌≢◌, false, none, ◌-◌, ◌^◌, map, refl, true, List, [], ◌∷◌, some, pos, arith,
  find, nat_key, pair_key, insert_or_assign, emplace, erase, length,
}
use basebox.Sai.{Ip, Mask, Call, Log, SwitchInterface}
use basebox.L3.Masks.{build_mask_in4, build_mask_in6, byte_indices}
use basebox.L3.MaskBits.{network_bits, build_mask_in6_lem}
use basebox.L3.Routes.{
  Destination, route_add, route_remove, add_l3_unicast_route, del_l3_unicast_route,
}
use basebox.L3.RoutePairs.{added, removed, del-add_l3_unicast_route}
use basebox.L3.State.{L3Interface, EgressKey, NlL3, increment, decrement}
use basebox.L3.Termination.{
  add_l3_termination, del_l3_termination, update_l3_termination, move_termination, termination_add,
  termination_remove,
}
use basebox.L3.Egress.{
  add_l3_egress, del_l3_egress, use_egress, leave_egress, drop_unused, is_unused,
}
use basebox.L3.Ecmp.{add_l3_ecmp_group, get_l3_ecmp_group}
use basebox.L3.Terminations.{is_listed, update_l3_termination-is_listed}
use basebox.L3.Users.{users, IsCounted, count_of, users-add_l3_egress}
use basebox.L3.Ownership.{stands, IsFresh, IsSound}
use basebox.L3.Histories.{Request, serve, serve_all, serve_all-IsSound}
use basebox.L3.Groups.{group_users, IsUsed, add_l3_ecmp_group_lem}

-- A switch that numbers what it creates by the calls before.
abbrev swi : SwitchInterface
swi = record { answer = λ l c. pos 0; created_id = λ l c. length l }

abbrev nothing : NlL3 ℕ
nothing = record {
  l3_interface_mapping = [];
  termination_mac_entries = [];
  nh_grp_to_l3_ecmp_mapping = [];
  log = [];
}

abbrev one_v4 : NlL3 ℕ
one_v4 = record nothing {
  termination_mac_entries = ((1, (10, (5, 2))), tt) ∷ [];
  log = (Call.l3_termination_add 1 10 5, pos 0) ∷ [];
}

abbrev none_left : NlL3 ℕ
none_left = record nothing {
  log = (Call.l3_termination_remove 1 10 5, pos 0) ∷ (Call.l3_termination_add 1 10 5, pos 0) ∷ [];
}

abbrev moved_v4 : NlL3 ℕ
moved_v4 = record nothing {
  termination_mac_entries = ((1, (10, (6, 2))), tt) ∷ [];
  log =
      (Call.l3_termination_add 1 10 6, pos 0)
      ∷ (Call.l3_termination_remove 1 10 5, pos 0)
      ∷ (Call.l3_termination_add 1 10 5, pos 0)
      ∷ [];
}

update_l3_termination-is_listed_example : is_listed 1 10 6 2 moved_v4 ≡ true
unfolding update_l3_termination move_termination add_l3_termination del_l3_termination is_listed
    termination_add termination_remove find emplace insert_or_assign erase
update_l3_termination-is_listed_example =
    update_l3_termination-is_listed swi 1 10 5 6 (pos 0) one_v4 moved_v4 1 10 6 2 refl refl

abbrev ports : ℕ → ℕ
ports ifindex = ifindex

abbrev key : EgressKey
key = (7, (10, (5, 6)))

abbrev with_users : ℕ → NlL3 ℕ
with_users n = record nothing {
  l3_interface_mapping = (key, record { l3_interface_id = 0; refcnt = pos n }) ∷ [];
  log = (Call.l3_egress_create 7 10 5 6, pos 0) ∷ [];
}

with_users-IsCounted : (n : ℕ) → 1 ≤ n → IsCounted (with_users n)
unfolding find count_of
with_users-IsCounted n some_user k i e = ground arith

users-add_l3_egress_example :
    (users key (with_users 2) ≡ 2)
    × ((i : L3Interface) × (find key (with_users 2).l3_interface_mapping ≡ some i)
        × (i.l3_interface_id ≡ 0))
unfolding add_l3_egress use_egress increment users count_of find insert_or_assign
users-add_l3_egress_example =
    users-add_l3_egress swi ports 7 10 5 6 (with_users 1) (with_users-IsCounted 1 (omega arith)) 99
      0 (pos 0) (with_users 2) key refl refl

below_length : (id : ℕ) (l : Log) → stands swi id l ≡ true → id < length l
unfolding stands
below_length id [] h = ground arith
below_length id ((Call.l3_egress_create p v sm dm, rv) ∷ l) h = ground (arith, below_length id l)
below_length id ((c, rv) ∷ l) h = ground (arith, below_length id l)

swi-IsFresh : IsFresh swi
swi-IsFresh k l = ground (arith, below_length (length l) l)

nothing-IsSound : IsSound swi nothing
unfolding find stands
nothing-IsSound = record {
  counted = λ k i e. ground arith;
  standing = λ k i e. ground arith;
  distinct = λ k o i j e f g. absurd (ground arith);
  owned = λ id e. absurd (ground arith);
}

-- Two neighbours share an interface, and one of them goes.
abbrev requests : List Request
requests =
    Request.adds ports 7 10 5 6 ∷ Request.adds ports 7 10 5 6 ∷ Request.dels ports 7 10 5 6 ∷ []

serve_all-IsSound_example : IsSound swi (with_users 1)
unfolding serve_all serve add_l3_egress del_l3_egress use_egress leave_egress drop_unused is_unused
    increment decrement find emplace insert_or_assign erase
serve_all-IsSound_example =
    serve_all-IsSound swi requests nothing (with_users 1) swi-IsFresh (λ l id. refl) refl
      nothing-IsSound

abbrev with_group : ℕ → NlL3 ℕ
with_group n = record nothing {
  nh_grp_to_l3_ecmp_mapping = (3, record { l3_interface_id = 0; refcnt = pos n }) ∷ [];
  log = (Call.l3_ecmp_add, pos 0) ∷ [];
}

with_group-IsUsed : (n : ℕ) → 1 ≤ n → IsUsed (with_group n)
unfolding find count_of
with_group-IsUsed n some_user g i e = ground arith

add_l3_ecmp_group_lem_example :
    (group_users 3 (with_group 2) ≡ 2)
    × (get_l3_ecmp_group swi 3 99 (with_group 2) ≡ (pos 0, 0))
    × IsUsed (with_group 2)
unfolding add_l3_ecmp_group increment group_users count_of find insert_or_assign
add_l3_ecmp_group_lem_example =
    add_l3_ecmp_group_lem swi 3 (with_group 1) (with_group-IsUsed 1 (omega arith)) (pos 0) 0 99
      (with_group 2) 3 refl

build_mask_in6_lem_example :
    build_mask_in6 60 ≡ some (map (λ i. 2 ^ 8 - 2 ^ (8 - network_bits 60 i)) byte_indices)
build_mask_in6_lem_example = build_mask_in6_lem 60 (omega arith)

abbrev network : Destination
network = record { family = 2; prefixlen = 24; value = 0x0a000000 }

abbrev host_v6 : Destination
host_v6 = record { family = 10; prefixlen = 128; value = 1 }

abbrev with_route : NlL3 ℕ
with_route = record nothing {
  log =
      (Call.l3_unicast_route_add (Ip.in4 0x0a000000) (Mask.mask4 0xffffff00) 5 false false 0, pos 0)
      ∷ [];
}

abbrev without_route : NlL3 ℕ
without_route = record nothing {
  log =
      (Call.l3_unicast_route_remove (Ip.in4 0x0a000000) (Mask.mask4 0xffffff00) 0, pos 0)
      ∷ with_route.log;
}

del-add_l3_unicast_route_example :
    (c : Call) × (c' : Call) × (without_route.log ≡ (c', pos 0) ∷ (c, pos 0) ∷ [])
    × (added c ≡ removed c')
    × (added c ≢ none)
unfolding add_l3_unicast_route del_l3_unicast_route route_add route_remove build_mask_in4
del-add_l3_unicast_route_example =
    del-add_l3_unicast_route swi network 0 nothing 5 false false (pos 0) (pos 0) with_route
      without_route refl refl
