-- ===== src/Bridge/Mdb.antt =====
-- The multicast database: its entries as a set, and what changes between two of them.
use Prim.Native.Nat.{Ordering}
use basebox.Prelude.{
  ℕ, ◌/◌, ◌%◌, ◌*◌, ◌+◌, ◌^◌, Bool, List, [], ◌∷◌, Option, none, some, ℤ, pos, einval, nat_key,
  pair_cmp, pair_key, ◌==◌, if◌then◌else◌, Method, for_each,
}
use basebox.Sai.{Call, SwitchInterface}
use basebox.Bridge.State.{Kernel, NlBridge, call}

-- A port, a VLAN, and the address of a group.
abbrev pub Membership : Type 0
Membership = ℕ × (ℕ × ℕ)

abbrev pub order : Membership → Membership → Ordering
order = pair_cmp

-- std::set::emplace
unfoldable pub insert : Membership → List Membership → List Membership
insert e [] = e ∷ []
insert e (x ∷ xs) = elim (order e x) [
  | Ordering.lt ↦ e ∷ x ∷ xs
  | Ordering.eq ↦ x ∷ xs
  | Ordering.gt ↦ x ∷ insert e xs
]

-- A group of IPv4, none if libnl cannot convert it; of IPv6, by its last 32 bits; or of another
-- protocol. The first field is true for 224.0.0.0/24, and for ff02::1 and ff00::/15.
pub data GroupAddr : Type 0 where
  ipv4 : Bool → Option ℕ → GroupAddr
  ipv6 : Bool → ℕ → GroupAddr
  other : GroupAddr

-- `buf` is what the uninitialised buffer of the loop's body holds.
pub record MdbEntry : Type 0 where
  pub port_ifindex : ℕ
  pub vid : ℕ
  pub addr : GroupAddr
  pub buf : ℕ

pub record MdbObject : Type 0 where
  pub ifindex : ℕ
  pub entries : List MdbEntry

-- 33:33 and the last four bytes.
unfoldable pub multicast_ipv6_to_ll : ℕ → ℕ
multicast_ipv6_to_ll addr = 0x3333 * 2 ^ 32 + addr % 2 ^ 32

-- 01:00:5e and the last 23 bits.
unfoldable pub multicast_ipv4_to_ll : ℕ → ℕ
multicast_ipv4_to_ll addr =
    0x01005e * 2 ^ 24 + addr / 2 ^ 16 % 2 ^ 7 * 2 ^ 16 + addr / 2 ^ 8 % 2 ^ 8 * 2 ^ 8 + addr % 2 ^ 8

-- The address that is entered, none for a group that is skipped. The address of a group of IPv4 is
-- written to an inner `buf`, so that the outer one is entered as it is.
unfoldable pub entered_address : ℕ → GroupAddr → Option ℕ
entered_address buf (ipv4 is_reserved none) = none
entered_address buf (ipv4 is_reserved (some addr)) = if is_reserved then none else some buf
entered_address buf (ipv6 is_reserved addr) =
    if is_reserved then none else some (multicast_ipv6_to_ll addr)
entered_address buf other = some buf

module _ (k : Kernel) where
  open k use {nl, get_ifindex, get_port_id_of_ifindex}

  unfoldable pub entries_to_set : ℕ → List MdbEntry → List Membership → List Membership
  entries_to_set bridge_ifindex [] set = set
  entries_to_set bridge_ifindex (i ∷ is) set = entries_to_set bridge_ifindex is (
      if i.port_ifindex == bridge_ifindex then set else elim (entered_address i.buf i.addr) [
        | none ↦ set
        | some mac ↦ insert (get_port_id_of_ifindex i.port_ifindex, (i.vid, mac)) set
      ])

  -- A database of another bridge is an error, and leaves the set empty.
  unfoldable pub mdb_to_set : ℕ → MdbObject → ℤ × List Membership
  mdb_to_set bridge_ifindex mdb =
      if mdb.ifindex == bridge_ifindex
      then (pos 0, entries_to_set bridge_ifindex mdb.entries [])
      else (einval, [])

  -- The index of the bridge, 0 without one.
  unfoldable pub bridge_index : NlBridge nl.Link → ℕ
  bridge_index s = elim s.bridge [ none ↦ 0 | some bridge ↦ get_ifindex bridge ]

  unfoldable pub set_of : Option MdbObject → NlBridge nl.Link → List Membership
  set_of none s = []
  set_of (some mdb) s = (mdb_to_set (bridge_index s) mdb).1

module _ {L : Type 0} (swi : SwitchInterface) where
  unfoldable pub leave : Membership → Method (NlBridge L) ℤ
  leave (port_id, (vid, mc_ll)) = call swi (Call.l2_multicast_group_leave port_id vid mc_ll)

  unfoldable pub join : Membership → Method (NlBridge L) ℤ
  join (port_id, (vid, mc_ll)) = call swi (Call.l2_multicast_group_join port_id vid mc_ll)

  -- The three loops over both sets.
  unfoldable pub synchronise : List Membership → List Membership → Method (NlBridge L) (Unit {0})
  synchronise [] new s = for_each join new s
  synchronise (o ∷ old) [] s = for_each leave (o ∷ old) s
  synchronise (o ∷ old) (n ∷ new) s = elim (order o n) [
    | Ordering.lt ↦ synchronise old (n ∷ new) (leave o s).1
    | Ordering.gt ↦ synchronise (o ∷ old) new (join n s).1
    | Ordering.eq ↦ synchronise old new s
  ]

module _ (k : Kernel) (swi : SwitchInterface) where
  open k use {nl}

  unfoldable pub mdb_update : Option MdbObject → Option MdbObject → Method (NlBridge nl.Link) ℤ
  mdb_update old_mdb new_mdb s =
      (pos 0, (synchronise swi (set_of k old_mdb s) (set_of k new_mdb s) s).1)
