-- ===== src/Vlan/Ingress.antt =====
-- The ingress side of a port, and of the members of a bond: VLANs and the port's own VLAN (PVID).
use basebox.Prelude.{
  ℕ, Bool, not, List, none, some, ℤ, pos, is_neg, einval, find, emplace, erase, nat_key, ◌==◌,
  if◌then◌else◌, Method, ◌>>=◌, ◌>>◌, pure, gets, modify, for_each, until_error,
}
use basebox.Sai.{Call, SwitchInterface, get_port_type, port_type_lag}
use basebox.Vlan.State.{Cnetlink, NlVlan, call, get_vrf_id}

module _ (nl : Cnetlink) (swi : SwitchInterface) where
  open nl use {Link, get_port_id, get_bond_members_by_port_id}

  -- The ports of a bond, if the port is one; none otherwise.
  unfoldable pub members : ℕ → List ℕ
  members port_id =
      if get_port_type port_id == port_type_lag
      then get_bond_members_by_port_id port_id
      else List.[]

  -- The overload by port number.
  unfoldable pub remove_ingress_vlan : ℕ → ℕ → Bool → ℕ → Method NlVlan ℤ
  remove_ingress_vlan port_id vid pvid vrf_id = do
    for_each (λ mem. call swi (Call.ingress_port_vlan_remove mem vid (not pvid) vrf_id))
        (members port_id)
    call swi (Call.ingress_port_vlan_remove port_id vid (not pvid) vrf_id)

  -- The overload by link; it passes no VRF.
  unfoldable pub remove_ingress_vlan_of_link : Link → ℕ → Bool → Method NlVlan ℤ
  remove_ingress_vlan_of_link link vid pvid = remove_ingress_vlan (get_port_id link) vid pvid 0

  -- The overload by port number.
  unfoldable pub add_ingress_vlan : ℕ → ℕ → Bool → ℕ → Method NlVlan ℤ
  add_ingress_vlan port_id vid tagged vrf_id = do
    rv ← call swi (Call.ingress_port_vlan_add port_id vid (not tagged) vrf_id)
    if is_neg rv then pure rv else do
      rv' ←
          until_error (λ mem. call swi (Call.ingress_port_vlan_add mem vid (not tagged) vrf_id)) rv
            (members port_id)
      if is_neg rv' then remove_ingress_vlan port_id vid tagged vrf_id >> pure rv' else pure rv'

  unfoldable pub add_ingress_vlan_of_link : Link → ℕ → Bool → Method NlVlan ℤ
  add_ingress_vlan_of_link link vid tagged = do
    vrf_id ← gets (get_vrf_id vid)
    add_ingress_vlan (get_port_id link) vid tagged vrf_id

  -- The result of the loop over the members is not read.
  unfoldable pub add_ingress_pvid : Link → ℕ → Method NlVlan ℤ
  add_ingress_pvid link pvid s =
      let port_id = get_port_id link in
      elim (find port_id s.port_pvid) [
        | some _ ↦ (einval, s)
        | none ↦
            (do
              modify (λ t. record t { port_pvid = emplace port_id pvid t.port_pvid })
              until_error (λ mem. call swi (Call.ingress_port_pvid_add mem pvid)) (pos 0)
                  (members port_id)
              call swi (Call.ingress_port_pvid_add port_id pvid))
              s
      ]

  unfoldable pub remove_ingress_pvid : Link → ℕ → Method NlVlan ℤ
  remove_ingress_pvid link pvid s =
      let port_id = get_port_id link in
      elim (find port_id s.port_pvid) [
        | none ↦ (einval, s)
        | some configured ↦
            if configured == pvid
            then (do
              modify (λ t. record t { port_pvid = erase port_id t.port_pvid })
              until_error (λ mem. call swi (Call.ingress_port_pvid_remove mem pvid)) (pos 0)
                  (members port_id)
              call swi (Call.ingress_port_pvid_remove port_id pvid))
                s
            else (einval, s)
      ]
