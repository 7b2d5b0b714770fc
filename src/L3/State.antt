-- ===== src/L3/State.antt =====
-- The containers of src/netlink/nl_l3.cc and the reference count of class l3_interface.
use Prim.{Unit}
use basebox.Prelude.{
  ℕ, zero, suc, ◌+◌, ◌^◌, Option, none, some, ℤ, pos, negsuc, Map, ◌∷◌, ltb, if◌then◌else◌,
}
use basebox.Sai.{Call, Log, SwitchInterface}

pub record L3Interface : Type 0 where
  pub l3_interface_id : ℕ
  pub refcnt : ℤ

-- A port, a VLAN, and two addresses, of the source and of the destination.
abbrev pub EgressKey : Type 0
EgressKey = ℕ × (ℕ × (ℕ × ℕ))

-- `termination_mac_entries` has ports, VLANs, addresses and address families; a set is a map to
-- nothing. `Group` is a set of next hops. The hashed containers are searched, never gone through,
-- by the functions here.
pub record NlL3 (Group : Type 0) : Type 0 where
  pub l3_interface_mapping : Map EgressKey L3Interface
  pub termination_mac_entries : Map (ℕ × (ℕ × (ℕ × ℕ))) (Unit {0})
  pub nh_grp_to_l3_ecmp_mapping : Map Group L3Interface
  pub log : Log

abbrev pub call : {Group : Type 0} → SwitchInterface → Call → NlL3 Group → ℤ × NlL3 Group
call swi c s = let rv = swi.answer s.log c in (rv, record s { log = (c, rv) ∷ s.log })

-- `++refcnt` and `--refcnt` on int; none where that overflows.
unfoldable pub increment : ℤ → Option ℤ
increment (pos n) = if ltb (n + 1) (2 ^ 31) then some (pos (n + 1)) else none
increment (negsuc zero) = some (pos 0)
increment (negsuc (suc n)) = some (negsuc n)

unfoldable pub decrement : ℤ → Option ℤ
decrement (pos zero) = some (negsuc 0)
decrement (pos (suc n)) = some (pos n)
decrement (negsuc n) = if ltb (n + 1) (2 ^ 31) then some (negsuc (n + 1)) else none
