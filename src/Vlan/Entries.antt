-- ===== src/Vlan/Entries.antt =====
-- What a log of calls has left on the switch: an entry stands if a call that adds it succeeded and
-- no call that removes it succeeded later.
use basebox.Prelude.{ℕ, ◌≡◌, Bool, true, false, not, ◌&&◌, [], ◌∷◌, ℤ, is_neg, ◌==◌, if◌then◌else◌}
use basebox.Sai.{Call, Log, SwitchInterface}

-- `ingress port vid pvid vrf`: the port lets the VLAN in. `egress port vid`: it lets it out.
pub data Entry : Type 0 where
  ingress : ℕ → ℕ → Bool → ℕ → Entry
  egress : ℕ → ℕ → Entry

abbrev pub iff : Bool → Bool → Bool
iff true b = b
iff false b = not b

abbrev pub adds : Call → Entry → Bool
adds (Call.ingress_port_vlan_add p v u r) (ingress p' v' u' r') =
    p == p' && v == v' && iff u u' && r == r'
adds (Call.egress_port_vlan_add p v u update) (egress p' v') = p == p' && v == v'
adds _ _ = false

abbrev pub removes : Call → Entry → Bool
removes (Call.ingress_port_vlan_remove p v u r) (ingress p' v' u' r') =
    p == p' && v == v' && iff u u' && r == r'
removes (Call.egress_port_vlan_remove p v) (egress p' v') = p == p' && v == v'
removes _ _ = false

-- Below, the entry after one more call with its answer.
abbrev pub after_call : Bool → Call → ℤ → Entry → Bool
after_call stood c rv e =
    if is_neg rv then stood else if removes c e then false else if adds c e then true else stood

unfoldable pub installed : Entry → Log → Bool
installed e [] = false
installed e ((c, rv) ∷ l) = after_call (installed e l) c rv e

-- The switch accepts whatever takes an entry away.
abbrev pub IsObliging : SwitchInterface → Type 0
IsObliging swi =
    ((l : Log) (p v : ℕ) (u : Bool) (r : ℕ)
      → is_neg (swi.answer l (Call.ingress_port_vlan_remove p v u r)) ≡ false)
    × ((l : Log) (p v : ℕ) → is_neg (swi.answer l (Call.egress_port_vlan_remove p v)) ≡ false)
