-- ===== src/Bridge/Fdb.antt =====
-- The addresses learned on ports: the cache of forwarding entries, and the ageing time.
use Prim.Native.Nat.{bit_and}
use basebox.Prelude.{
  ℕ, ◌+◌, ◌/◌, ◌%◌, ◌^◌, Bool, true, false, not, ◌&&◌, List, [], ◌∷◌, ◌++◌, Option, none, some, ℤ,
  pos, is_neg, einval, ltb, ◌==◌, if◌then◌else◌, Method, ◌>>=◌, ◌>>◌, pure, gets, modify, for_each,
}
use basebox.Sai.{Call, SwitchInterface}
use basebox.Bridge.State.{Neigh, Kernel, NlBridge, call}

-- NTF_MASTER, NTF_EXT_LEARNED, NUD_REACHABLE, and NUD_NOARP | NUD_PERMANENT
abbrev pub ntf_master : ℕ
ntf_master = 0x04

abbrev pub ntf_ext_learned : ℕ
ntf_ext_learned = 0x10

abbrev pub nud_reachable : ℕ
nud_reachable = 0x02

abbrev pub nud_permanent : ℕ
nud_permanent = 0xc0

-- `nl_cache_search` and `nl_cache_remove`
unfoldable pub search : (Neigh → Bool) → List Neigh → Option Neigh
search p [] = none
search p (n ∷ ns) = if p n then some n else search p ns

unfoldable pub take_out : (Neigh → Bool) → List Neigh → List Neigh
take_out p [] = []
take_out p (n ∷ ns) = if p n then ns else n ∷ take_out p ns

-- `nl_cache_remove` of every entry that passes the filter.
unfoldable pub remove_all : (Neigh → Bool) → List Neigh → List Neigh
remove_all p [] = []
remove_all p (n ∷ ns) = if p n then remove_all p ns else n ∷ remove_all p ns

-- The entry that stands for an address of a VLAN, whatever its port.
unfoldable pub key_entry : ℕ → ℕ → ℕ → ℕ → Neigh
key_entry master vid mac state = record {
  ifindex = 0;
  master = master;
  vlan = some vid;
  lladdr = mac;
  state = state;
  flags = ntf_master + ntf_ext_learned;
}

-- Rounded to seconds in 32 bits, at most 65535, and at least 1 unless it is 0.
unfoldable pub new_ageing_time : ℕ → ℕ
new_ageing_time ageing_time =
    let rounded = (ageing_time + 50) % 2 ^ 32 / 100 in
    let limited = if ltb 65535 rounded then 65535 else rounded in
    if ltb 0 ageing_time && (limited == 0) then 1 else limited

module _ (k : Kernel) (swi : SwitchInterface) where
  open k use {nl, get_ifindex, get_master, base_link, get_port_id_of_ifindex, get_addr, same_key}

  -- The port of an interface, 0 for an unknown one.
  unfoldable pub port_of : ℕ → ℕ
  port_of ifindex = elim (base_link ifindex) [ none ↦ 0 | some link ↦ nl.get_port_id link ]

  -- VLAN -1 is sent as uint16_t.
  unfoldable pub refresh : Neigh → Method (NlBridge nl.Link) (Unit {0})
  refresh neigh =
      let vid : ℕ = elim neigh.vlan [ none ↦ 0xffff | some vid ↦ vid ] in
      if bit_and neigh.flags nud_permanent == 0
      then (call swi (
            Call.l2_addr_add (get_port_id_of_ifindex neigh.ifindex) vid neigh.lladdr true false
              true)
          >> pure tt)
      else pure tt

  unfoldable pub set_ageing_time : ℕ → Method (NlBridge nl.Link) (Unit {0})
  set_ageing_time ageing_time = do
    call swi (Call.l2_set_idle_timeout (new_ageing_time ageing_time))
    neighs ← gets (λ s. s.l2_cache)
    for_each refresh neighs

  -- What the kernel refuses is not cached.
  unfoldable pub take_over : Neigh → Method (NlBridge nl.Link) (Unit {0})
  take_over n =
      if is_neg (k.send_add_request n)
      then pure tt
      else if is_neg (k.cache_add n)
      then pure tt
      else modify (λ s. record s { l2_cache = s.l2_cache ++ (n ∷ []) })

  unfoldable pub enter_neigh : ℕ → ℕ → Bool → Neigh → Method (NlBridge nl.Link) (Unit {0})
  enter_neigh port vid update neigh =
      let n = key_entry neigh.master vid neigh.lladdr nud_reachable in
      let permanent = not (bit_and neigh.state nud_permanent == 0) in
      do
        modify (λ s. record s { l2_cache = take_out (same_key n) s.l2_cache })
        call swi (Call.l2_addr_add port vid neigh.lladdr true permanent update)
        if permanent then pure tt else take_over (record n { ifindex = neigh.ifindex })

  -- An entry is left as it is if it has the address on the same interface.
  unfoldable pub add_neigh_to_fdb : Neigh → Bool → Method (NlBridge nl.Link) (Unit {0})
  add_neigh_to_fdb neigh update s =
      let port = port_of neigh.ifindex in
      if port == 0 then (tt, s) else elim neigh.vlan [
        | none ↦ (tt, s)
        | some vid ↦
            elim (search (same_key (key_entry neigh.master vid neigh.lladdr nud_reachable))
              s.l2_cache) [
                | none ↦ enter_neigh port vid update neigh s
                | some found ↦
                    if found.ifindex == neigh.ifindex
                    then (tt, s)
                    else enter_neigh port vid update neigh s
              ]
      ]

  -- The address goes from the port, which is 0 for an unknown link.
  unfoldable pub remove_address : ℕ → Neigh → Method (NlBridge nl.Link) (Unit {0})
  remove_address vid neigh =
      call swi (Call.l2_addr_remove (port_of neigh.ifindex) vid neigh.lladdr) >> pure tt

  -- None where there is no bridge, and the VLAN is set.
  unfoldable pub remove_neigh_from_fdb :
      Neigh → NlBridge nl.Link → Option (Unit {0} × NlBridge nl.Link)
  remove_neigh_from_fdb neigh s = elim neigh.vlan [
    | none ↦ some (tt, s)
    | some vid ↦ elim s.bridge [
      | none ↦ none
      | some bridge ↦
          if get_addr bridge == neigh.lladdr
          then some (tt, s)
          else if bit_and neigh.flags ntf_ext_learned == 0
          then some (remove_address vid neigh s)
          else elim (search (same_key neigh) s.l2_cache) [
            | none ↦ some (tt, s)
            | some _ ↦ some (
                remove_address vid neigh
                  (record s { l2_cache = take_out (same_key neigh) s.l2_cache }))
          ]
    ]
  ]

  unfoldable pub is_mac_in_l2_cache : Neigh → NlBridge nl.Link → Bool
  is_mac_in_l2_cache n s = elim (search (same_key n) s.l2_cache) [ none ↦ false | some _ ↦ true ]

  unfoldable pub fdb_timeout : nl.Link → ℕ → ℕ → Method (NlBridge nl.Link) ℤ
  fdb_timeout br_link vid mac s =
      let n = key_entry (get_master br_link) vid mac 0 in
      elim (search (same_key n) s.l2_cache) [
        | none ↦ (pos 0, s)
        | some found ↦
            if not (found.ifindex == get_ifindex br_link)
            then (pos 0, s)
            else if is_neg (k.send_delete_request found)
            then (einval, s)
            else (pos 0, record s { l2_cache = take_out (same_key n) s.l2_cache })
      ]
