-- ===== src/Vlan/Refcount.antt =====
-- The count of the users of a VLAN on a port, kept in `port_vlan`.
use basebox.Prelude.{
  ℕ, ◌+◌, ◌-◌, ◌%◌, ◌^◌, ◌<◌, ◌≡◌, ◌≢◌, inl, inr, Bool, true, false, none, some, is_neg, arith,
  find, nat_key, pair_key, find-insert_or_assign, find-erase, find-emplace, erase, ◌==◌, ◌&&◌,
  if◌then◌else◌, Option-cases,
}
use basebox.Sai.{SwitchInterface}
use basebox.Vlan.State.{Cnetlink, NlVlan, is_vid_valid, get_vrf_id}
use basebox.Vlan.Frame.{enable_vlan-Keeps, disable_vlan-Keeps}
use basebox.Vlan.Port.{add_first_user, add_vlan, remove_last_user, remove_vlan}

-- The number of users of a VLAN on a port, 0 where there is no entry.
abbrev pub users : ℕ → ℕ → NlVlan → ℕ
users port vid s = elim (find (port, vid) s.port_vlan) [ none ↦ 0 | some n ↦ n ]

-- The state once the last user's entry is erased.
abbrev forgotten : (nl : Cnetlink) → nl.Link → ℕ → NlVlan → NlVlan
forgotten nl link vid s = record s { port_vlan = erase (nl.get_port_id link, vid) s.port_vlan }

module _ (nl : Cnetlink) (swi : SwitchInterface) (link : nl.Link) (vid : ℕ) (tagged : Bool)
    (s : NlVlan) (valid : is_vid_valid vid ≡ true) (known : nl.get_port_id link ≢ 0)
    (outside : nl.is_bridge_interface link ≡ false) where
  -- A successful call for a valid VLAN on a known port outside the bridge adds one user, as long as the
  -- count stays below 2 ^ 32, and no other count changes.
  pub users-add_vlan :
      (port other : ℕ)
      → users (nl.get_port_id link) vid s + 1 < 2 ^ 32
      → is_neg (add_vlan nl swi link vid tagged s).0 ≡ false
      → users port other (add_vlan nl swi link vid tagged s).1 ≡ (
          if nl.get_port_id link == port && vid == other
          then users port other s + 1
          else users port other s)
  unfolding add_vlan add_first_user
  users-add_vlan port other fits ok =
      elim (Option-cases (find (nl.get_port_id link, vid) s.port_vlan)) [
        | inl e ↦ ground (
          arith,
          enable_vlan-Keeps nl swi (nl.get_port_id link) vid tagged (get_vrf_id vid s) s,
          find-emplace (nl.get_port_id link, vid) (port, other) 1 s.port_vlan,
        )
        | inr (n, e) ↦ ground (
          arith,
          find-insert_or_assign (nl.get_port_id link, vid) (port, other) ((n + 1) % 2 ^ 32)
              s.port_vlan,
        )
      ]

  -- A failed call changes no count.
  pub users-add_vlan_failed :
      (port other : ℕ)
      → is_neg (add_vlan nl swi link vid tagged s).0 ≡ true
      → users port other (add_vlan nl swi link vid tagged s).1 ≡ users port other s
  unfolding add_vlan add_first_user
  users-add_vlan_failed port other failed =
      ground (arith, enable_vlan-Keeps nl swi (nl.get_port_id link) vid tagged (get_vrf_id vid s) s)

  -- On a known port outside the bridge and a valid VLAN with users, fewer than 2 ^ 32, remove_vlan takes one user off, whatever
  -- the switch answers, and no other count changes.
  pub users-remove_vlan :
      (port other : ℕ)
      → 0 < users (nl.get_port_id link) vid s
      → users (nl.get_port_id link) vid s < 2 ^ 32
      → users port other (remove_vlan nl swi link vid tagged s).1 ≡ (
          if nl.get_port_id link == port && vid == other
          then users port other s - 1
          else users port other s)
  unfolding remove_vlan remove_last_user
  users-remove_vlan port other counted fits =
      elim (Option-cases (find (nl.get_port_id link, vid) s.port_vlan)) [
        | inl e ↦ absurd (ground arith)
        | inr (n, e) ↦ ground (
          arith,
          disable_vlan-Keeps nl swi (nl.get_port_id link) vid tagged (get_vrf_id vid s)
              (forgotten nl link vid s),
          find-erase (nl.get_port_id link, vid) (port, other) s.port_vlan,
          find-insert_or_assign (nl.get_port_id link, vid) (port, other) ((n + 2 ^ 32 - 1) % 2 ^ 32)
              s.port_vlan,
        )
      ]
