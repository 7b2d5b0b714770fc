-- ===== src/L3/Terminations.antt =====
-- The set of termination addresses under its operations.
use Prim.{tt}
use basebox.Prelude.{
  ℕ, ◌≡◌, inl, inr, Bool, true, false, not, ◌&&◌, ◌||◌, none, some, ℤ, pos, is_neg, arith, find,
  nat_key, pair_key, find-emplace, find-erase, ◌==◌, if◌then◌else◌, Option-cases,
}
use basebox.Sai.{SwitchInterface}
use basebox.L3.State.{NlL3}
use basebox.L3.Termination.{
  af_inet, af_inet6, termination_add, termination_remove, add_l3_termination, del_l3_termination,
  move_termination, update_l3_termination,
}

module _ {Group : Type 0} where
  -- The address is listed for the port, the VLAN and the address family.
  unfoldable pub is_listed : ℕ → ℕ → ℕ → ℕ → NlL3 Group → Bool
  is_listed port_id vid mac af s =
      elim (find (port_id, (vid, (mac, af))) s.termination_mac_entries) [
        | none ↦ false
        | some _ ↦ true
      ]

-- Two entries are the same.
abbrev pub same_entry : ℕ → ℕ → ℕ → ℕ → ℕ → ℕ → ℕ → ℕ → Bool
same_entry p v m a p' v' m' a' = p == p' && v == v' && m == m' && a == a'

module _ {Group : Type 0} (swi : SwitchInterface) (port_id vid : ℕ) where
  pub add_l3_termination-is_listed :
      (mac af : ℕ) (s t : NlL3 Group) (rv : ℤ) (p v m a : ℕ)
      → add_l3_termination swi port_id vid mac af s ≡ some (rv, t)
      → is_listed p v m a t ≡ (same_entry p v m a port_id vid mac af || is_listed p v m a s)
  unfolding add_l3_termination is_listed
  add_l3_termination-is_listed mac af s t rv p v m a e =
      elim (Option-cases (termination_add port_id vid mac af)) [
        | inl fatal ↦ ground arith
        | inr (c, known) ↦ ground (
          arith,
          find-emplace (port_id, (vid, (mac, af))) (p, (v, (m, a))) tt s.termination_mac_entries,
        )
      ]

  pub del_l3_termination-is_listed :
      (mac af : ℕ) (s t : NlL3 Group) (rv : ℤ) (p v m a : ℕ)
      → del_l3_termination swi port_id vid mac af s ≡ some (rv, t)
      → is_listed p v m a t
        ≡ (if same_entry p v m a port_id vid mac af then false else is_listed p v m a s)
  unfolding del_l3_termination is_listed
  del_l3_termination-is_listed mac af s t rv p v m a e =
      elim (Option-cases (termination_remove port_id vid mac af)) [
        | inl fatal ↦ ground arith
        | inr (c, known) ↦ ground (
          arith,
          find-erase (port_id, (vid, (mac, af))) (p, (v, (m, a))) s.termination_mac_entries,
        )
      ]

  -- An address that was not listed, and is added and then deleted, leaves the set as it was, also
  -- if the switch refuses either.
  del-add_l3_termination :
      (mac af : ℕ) (s t u : NlL3 Group) (rv rv' : ℤ) (p v m a : ℕ)
      → is_listed port_id vid mac af s ≡ false
      → add_l3_termination swi port_id vid mac af s ≡ some (rv, t)
      → del_l3_termination swi port_id vid mac af t ≡ some (rv', u)
      → is_listed p v m a u ≡ is_listed p v m a s
  del-add_l3_termination mac af s t u rv rv' p v m a new e f = ground (
    arith,
    add_l3_termination-is_listed mac af s t rv p v m a,
    del_l3_termination-is_listed mac af t u rv' p v m a,
  )

  move_termination-is_listed :
      (o_mac n_mac af : ℕ) (rv rv' : ℤ) (s t : NlL3 Group) (p v m a : ℕ)
      → move_termination swi port_id vid o_mac n_mac af rv s ≡ some (rv', t)
      → is_listed p v m a t ≡ (
          if p == port_id && v == vid && a == af && is_listed port_id vid o_mac af s
          then m == n_mac || (not (m == o_mac) && is_listed p v m a s)
          else is_listed p v m a s)
  unfolding move_termination is_listed
  move_termination-is_listed o_mac n_mac af rv rv' s t p v m a e =
      elim (Option-cases (del_l3_termination swi port_id vid o_mac af s)) [
        | inl fatal ↦ ground arith
        | inr ((rv'', u), deleted) ↦ ground (
          arith,
          del_l3_termination-is_listed o_mac af s u rv'' p v m a deleted,
          add_l3_termination-is_listed n_mac af u t rv' p v m a,
        )
      ]

  -- If update_l3_termination succeeds, then for IPv4 and for IPv6 alike, if the old address was
  -- listed for the port and the VLAN, the new one is listed in its place; nothing else changes.
  pub update_l3_termination-is_listed :
      (o_mac n_mac : ℕ) (rv : ℤ) (s t : NlL3 Group) (p v m a : ℕ)
      → update_l3_termination swi port_id vid o_mac n_mac s ≡ some (rv, t)
      → is_neg rv ≡ false
      → is_listed p v m a t ≡ (
          if p == port_id
            && v == vid
            && (a == af_inet || a == af_inet6)
            && is_listed port_id vid o_mac a s
          then m == n_mac || (not (m == o_mac) && is_listed p v m a s)
          else is_listed p v m a s)
  unfolding update_l3_termination
  update_l3_termination-is_listed o_mac n_mac rv s t p v m a e ok =
      elim (Option-cases (move_termination swi port_id vid o_mac n_mac af_inet (pos 0) s)) [
        | inl fatal ↦ ground arith
        | inr ((rv', u), first) ↦ ground (
          arith,
          move_termination-is_listed o_mac n_mac af_inet (pos 0) rv' s u p v m a first,
          move_termination-is_listed o_mac n_mac af_inet (pos 0) rv' s u port_id vid o_mac a first,
          move_termination-is_listed o_mac n_mac af_inet6 rv' rv u t p v m a,
        )
      ]
