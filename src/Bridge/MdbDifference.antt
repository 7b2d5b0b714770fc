-- ===== src/Bridge/MdbDifference.antt =====
-- What mdb_update tells the switch, against the difference of the two sets.
use basebox.Prelude.{
  ℕ, ◌+◌, ◌%◌, ◌^◌, not, ◌&&◌, ◌≡◌, refl, inl, inr, Bool, true, false, ◌||◌, List, [], ◌∷◌, Option,
  none, some, arith, nat_key, pair_key, same, same_iff, ◌==◌, if◌then◌else◌, Bool-cases,
  Option-cases, for_each,
}
use basebox.Sai.{Call, Log, SwitchInterface}
use basebox.Bridge.MdbSets.{
  among, IsSorted, order-cases, order_flip, Above-order, Above-among, insert-IsSorted, among-insert,
}
use basebox.Bridge.State.{Kernel, NlBridge}
use basebox.Bridge.Mdb.{
  Membership, insert, GroupAddr, MdbEntry, MdbObject, entered_address, multicast_ipv6_to_ll,
  entries_to_set, mdb_to_set, leave, join, synchronise, bridge_index, set_of, mdb_update,
}

-- How often the switch was told to let a port join or leave a group, and whether it was last told to
-- join.
unfoldable pub tellings : Membership → Log → ℕ
tellings e [] = 0
tellings e ((Call.l2_multicast_group_join p v m, rv) ∷ l) =
    (if same e (p, (v, m)) then 1 else 0) + tellings e l
tellings e ((Call.l2_multicast_group_leave p v m, rv) ∷ l) =
    (if same e (p, (v, m)) then 1 else 0) + tellings e l
tellings e (_ ∷ l) = tellings e l

unfoldable pub is_member : Membership → Log → Bool
is_member e [] = false
is_member e ((Call.l2_multicast_group_join p v m, rv) ∷ l) =
    if same e (p, (v, m)) then true else is_member e l
is_member e ((Call.l2_multicast_group_leave p v m, rv) ∷ l) =
    if same e (p, (v, m)) then false else is_member e l
is_member e (_ ∷ l) = is_member e l

-- An element is told once if it is in exactly one of the sets.
abbrev pub changes : Bool → Bool → ℕ
changes old new = if old then (if new then 0 else 1) else (if new then 1 else 0)

module _ {L : Type 0} (swi : SwitchInterface) (e : Membership) where
  abbrev Outcome : List Membership → List Membership → NlBridge L → NlBridge L → Type 0
  Outcome old new s t =
      (tellings e t.vlan.log ≡ tellings e s.vlan.log + changes (among e old) (among e new))
      × (is_member e t.vlan.log ≡ (
          if among e new
          then (if among e old then is_member e s.vlan.log else true)
          else if among e old
          then false
          else is_member e s.vlan.log))

  join_all :
      (new : List Membership) (s : NlBridge L)
      → IsSorted new
      → Outcome [] new s (for_each (join swi) new s).1
  unfolding for_each join tellings is_member
  join_all [] s h = ground arith
  join_all (x ∷ xs) s h =
      ground (arith, join_all xs (join swi x s).1 h.1, Above-among x xs h.0, same_iff e x)

  leave_all :
      (old : List Membership) (s : NlBridge L)
      → IsSorted old
      → Outcome old [] s (for_each (leave swi) old s).1
  unfolding for_each leave tellings is_member
  leave_all [] s h = ground arith
  leave_all (x ∷ xs) s h =
      ground (arith, leave_all xs (leave swi x s).1 h.1, Above-among x xs h.0, same_iff e x)

  synchronise_lem :
      (old new : List Membership) (s : NlBridge L)
      → IsSorted old
      → IsSorted new
      → Outcome old new s (synchronise swi old new s).1
  unfolding synchronise leave join tellings is_member
  synchronise_lem [] new s g h = join_all new s h
  synchronise_lem (o ∷ old) [] s g h = leave_all (o ∷ old) s g
  synchronise_lem (o ∷ old) (n ∷ new) s g h = elim (order-cases o n) [
    | inl below ↦ ground (
      arith,
      synchronise_lem old (n ∷ new) (leave swi o s).1 g.1 h,
      Above-among o old g.0,
      Above-among o (n ∷ new) (below, Above-order o n new below h.0),
      same_iff e o,
    )
    | inr (inl equal) ↦ ground (
      arith,
      synchronise_lem old new s g.1 h.1,
      Above-among o old g.0,
      Above-among n new h.0,
      same_iff e o,
      same_iff e n,
      same_iff o n,
    )
    | inr (inr above) ↦ ground (
      arith,
      synchronise_lem (o ∷ old) new (join swi n s).1 g h.1,
      Above-among n new h.0,
      Above-among n (o ∷ old)
          (order_flip o n above, Above-order n o old (order_flip o n above) g.0),
      same_iff e n,
    )
  ]

-- The address of a group on the wire: 33:33 and the last four bytes for one of IPv6 that is not
-- reserved. For one of IPv4, and of another protocol, it is whatever `buf` holds.
unfoldable pub is_address_of : ℕ → GroupAddr → ℕ → Bool
is_address_of buf (GroupAddr.ipv6 is_reserved addr) mac =
    not is_reserved && mac == 0x333300000000 + addr % 2 ^ 32
is_address_of buf (GroupAddr.ipv4 is_reserved none) mac = false
is_address_of buf (GroupAddr.ipv4 is_reserved (some addr)) mac = not is_reserved && mac == buf
is_address_of buf GroupAddr.other mac = mac == buf

module _ (k : Kernel) where
  -- An entry of a port of the bridge, other than the bridge itself.
  unfoldable pub is_entry_of : ℕ → Membership → MdbEntry → Bool
  is_entry_of bridge_ifindex (port, (vid, mac)) i =
      not (i.port_ifindex == bridge_ifindex)
      && port == k.get_port_id_of_ifindex i.port_ifindex
      && vid == i.vid
      && is_address_of i.buf i.addr mac

  unfoldable pub has_entry : ℕ → Membership → List MdbEntry → Bool
  has_entry bridge_ifindex e [] = false
  has_entry bridge_ifindex e (i ∷ is) =
      is_entry_of bridge_ifindex e i || has_entry bridge_ifindex e is

  -- A database of the bridge has an entry for the membership.
  unfoldable pub lists : Membership → Option MdbObject → NlBridge k.nl.Link → Bool
  lists e none s = false
  lists e (some mdb) s =
      mdb.ifindex == bridge_index k s && has_entry (bridge_index k s) e mdb.entries

  same_entry :
      (bridge_ifindex port vid mac : ℕ) (i : MdbEntry)
      → is_entry_of bridge_ifindex (port, (vid, mac)) i ≡ (
          if i.port_ifindex == bridge_ifindex then false else elim (entered_address i.buf i.addr) [
            | none ↦ false
            | some entered ↦
                same {K = Membership}
                  (port, (vid, mac))
                  (k.get_port_id_of_ifindex i.port_ifindex, (i.vid, entered))
          ])
  unfolding is_entry_of is_address_of entered_address multicast_ipv6_to_ll
  same_entry bridge_ifindex port vid mac i = ground arith

  among-entries_to_set :
      (bridge_ifindex : ℕ) (e : Membership) (is : List MdbEntry) (set : List Membership)
      → among e (entries_to_set k bridge_ifindex is set)
        ≡ (has_entry bridge_ifindex e is || among e set)
  unfolding entries_to_set has_entry
  among-entries_to_set bridge_ifindex e [] set = refl
  among-entries_to_set bridge_ifindex (port, (vid, mac)) (i ∷ is) set =
      elim (Option-cases (entered_address i.buf i.addr)) [
        | inl skipped ↦ ground (
          arith,
          skipped,
          same_entry bridge_ifindex port vid mac i,
          among-entries_to_set bridge_ifindex (port, (vid, mac)) is set,
        )
        | inr (entered, its) ↦
            let m : Membership = (k.get_port_id_of_ifindex i.port_ifindex, (i.vid, entered)) in
            ground (
              arith,
              its,
              same_entry bridge_ifindex port vid mac i,
              among-insert (port, (vid, mac)) m set,
              among-entries_to_set bridge_ifindex (port, (vid, mac)) is set,
              among-entries_to_set bridge_ifindex (port, (vid, mac)) is (insert m set),
            )
      ]

  among-set_of :
      (e : Membership) (mdb : Option MdbObject) (s : NlBridge k.nl.Link)
      → among e (set_of k mdb s) ≡ lists e mdb s
  unfolding set_of mdb_to_set lists
  among-set_of e none s = refl
  among-set_of e (some mdb) s =
      ground (arith, among-entries_to_set (bridge_index k s) e mdb.entries [])

  entries_to_set-IsSorted :
      (bridge_ifindex : ℕ) (is : List MdbEntry) (set : List Membership)
      → IsSorted set
      → IsSorted (entries_to_set k bridge_ifindex is set)
  unfolding entries_to_set
  entries_to_set-IsSorted bridge_ifindex [] set h = h
  entries_to_set-IsSorted bridge_ifindex (i ∷ is) set h =
      let port_id = k.get_port_id_of_ifindex i.port_ifindex in
      elim (Bool-cases (i.port_ifindex == bridge_ifindex)) [
        | inl itself ↦ rw itself (entries_to_set-IsSorted bridge_ifindex is set h)
        | inr port ↦ elim (Option-cases (entered_address i.buf i.addr)) [
          | inl skipped ↦ rw (port, skipped) (entries_to_set-IsSorted bridge_ifindex is set h)
          | inr (mac, entered) ↦
              rw (port, entered)
                (entries_to_set-IsSorted bridge_ifindex is (insert (port_id, (i.vid, mac)) set)
                  (insert-IsSorted (port_id, (i.vid, mac)) set h))
        ]
      ]

  mdb_to_set-IsSorted :
      (bridge_ifindex : ℕ) (mdb : MdbObject) → IsSorted (mdb_to_set k bridge_ifindex mdb).1
  unfolding mdb_to_set
  mdb_to_set-IsSorted bridge_ifindex mdb = elim (Bool-cases (mdb.ifindex == bridge_ifindex)) [
    | inl ours ↦ rw ours (entries_to_set-IsSorted bridge_ifindex mdb.entries [] tt)
    | inr other_bridge ↦ rw other_bridge tt
  ]

  set_of-IsSorted : (mdb : Option MdbObject) (s : NlBridge k.nl.Link) → IsSorted (set_of k mdb s)
  unfolding set_of
  set_of-IsSorted none s = tt
  set_of-IsSorted (some mdb) s = mdb_to_set-IsSorted (bridge_index k s) mdb

  -- A database lists a port, a VLAN and a group's address if it is one of the bridge and has an entry
  -- with them for a port other than the bridge. The address is 33:33 and the last 32 bits of a group
  -- of IPv6 that is not reserved; for a group of IPv4 that is not reserved, or of another protocol, it
  -- is whatever the uninitialised buffer held. If the switch was last told to join for exactly the
  -- listed ones of the old database, then the update tells it once about what exactly one of the two
  -- databases lists and of nothing else, and then it was last told to join for exactly the listed ones
  -- of the new database. This holds for each triple of its own.
  pub mdb_update_lem :
      (swi : SwitchInterface) (old_mdb new_mdb : Option MdbObject) (s : NlBridge k.nl.Link)
      (e : Membership)
      → is_member e s.vlan.log ≡ lists e old_mdb s
      → let t = (mdb_update k swi old_mdb new_mdb s).1 in
        (tellings e t.vlan.log
          ≡ tellings e s.vlan.log + changes (lists e old_mdb s) (lists e new_mdb s))
        × (is_member e t.vlan.log ≡ lists e new_mdb s)
  unfolding mdb_update
  mdb_update_lem swi old_mdb new_mdb s e h =
      let told =
        synchronise_lem swi e (set_of k old_mdb s) (set_of k new_mdb s) s
          (set_of-IsSorted old_mdb s) (set_of-IsSorted new_mdb s) in
      let was = among-set_of e old_mdb s in
      let will = among-set_of e new_mdb s in
      (ground (arith, told.0, was, will), ground (arith, told.1, was, will, h))
