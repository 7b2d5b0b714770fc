-- ===== src/L3/Termination.antt =====
-- The addresses at which the switch routes packets instead of bridging them.
use basebox.Prelude.{
  ℕ, Option, none, some, ℤ, pos, is_neg, enodata, find, emplace, erase, nat_key, pair_key, ◌==◌,
  if◌then◌else◌,
}
use basebox.Sai.{Call, SwitchInterface}
use basebox.L3.State.{NlL3, call}

abbrev pub af_inet : ℕ
af_inet = 2

abbrev pub af_inet6 : ℕ
af_inet6 = 10

-- Another address family is fatal, both here and below.
unfoldable pub termination_add : ℕ → ℕ → ℕ → ℕ → Option Call
termination_add port_id vid mac af =
    if af == af_inet
    then some (Call.l3_termination_add port_id vid mac)
    else if af == af_inet6
    then some (Call.l3_termination_add_v6 port_id vid mac)
    else none

unfoldable pub termination_remove : ℕ → ℕ → ℕ → ℕ → Option Call
termination_remove port_id vid mac af =
    if af == af_inet
    then some (Call.l3_termination_remove port_id vid mac)
    else if af == af_inet6
    then some (Call.l3_termination_remove_v6 port_id vid mac)
    else none

module _ {Group : Type 0} (swi : SwitchInterface) where
  unfoldable pub add_l3_termination : ℕ → ℕ → ℕ → ℕ → NlL3 Group → Option (ℤ × NlL3 Group)
  add_l3_termination port_id vid mac af s =
      elim (find (port_id, (vid, (mac, af))) s.termination_mac_entries) [
        | some _ ↦ some (pos 0, s)
        | none ↦ elim (termination_add port_id vid mac af) [
          | none ↦ none
          | some c ↦ some (
              call swi c (record s {
                termination_mac_entries =
                    emplace (port_id, (vid, (mac, af))) (record {}) s.termination_mac_entries;
              }))
        ]
      ]

  unfoldable pub del_l3_termination : ℕ → ℕ → ℕ → ℕ → NlL3 Group → Option (ℤ × NlL3 Group)
  del_l3_termination port_id vid mac af s =
      elim (find (port_id, (vid, (mac, af))) s.termination_mac_entries) [
        | none ↦ some (enodata, s)
        | some _ ↦ elim (termination_remove port_id vid mac af) [
          | none ↦ none
          | some c ↦
              let (rv, t) = call swi c s in
              some (
                rv,
                record t {
                  termination_mac_entries =
                      erase (port_id, (vid, (mac, af))) t.termination_mac_entries;
                },
              )
        ]
      ]

  -- One address family of an update: an error of the removal is only logged. `rv` is the result
  -- so far, and stays where there is nothing to update.
  unfoldable pub move_termination : ℕ → ℕ → ℕ → ℕ → ℕ → ℤ → NlL3 Group → Option (ℤ × NlL3 Group)
  move_termination port_id vid o_mac n_mac af rv s =
      elim (find (port_id, (vid, (o_mac, af))) s.termination_mac_entries) [
        | none ↦ some (rv, s)
        | some _ ↦ elim (del_l3_termination port_id vid o_mac af s) [
          | none ↦ none
          | some (_, t) ↦ add_l3_termination port_id vid n_mac af t
        ]
      ]

  unfoldable pub update_l3_termination : ℕ → ℕ → ℕ → ℕ → NlL3 Group → Option (ℤ × NlL3 Group)
  update_l3_termination port_id vid o_mac n_mac s =
      elim (move_termination port_id vid o_mac n_mac af_inet (pos 0) s) [
        | none ↦ none
        | some (rv, t) ↦
            if is_neg rv
            then some (rv, t)
            else move_termination port_id vid o_mac n_mac af_inet6 rv t
      ]
