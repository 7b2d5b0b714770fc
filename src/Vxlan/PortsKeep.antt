-- ===== src/Vxlan/PortsKeep.antt =====
-- The actions on VNIs and access ports leave next hops and endpoints consistent.
use basebox.Prelude.{
  ℕ, zero, suc, refl, Bool, true, false, not, ◌&&◌, ◌||◌, none, some, pos, is_neg, einval, nat_key,
  pair_key, ◌==◌, if◌then◌else◌, Option,
}
use basebox.Sai.{Call, SwitchInterface}
use basebox.Vxlan.Action.{modify}
use basebox.Vxlan.State.{AccessTunnelPort, Network, NlVxlan}
use basebox.Vxlan.Vnis.{
  get_tunnel_id, enter_vni, drop_vni, create_tenant, create_vni, delete_tenant, remove_vni,
}
use basebox.Vxlan.AccessPorts.{
  lookup_access_port, get_access_tunnel_port, enter_access_port, drop_access_port, is_port_flooding,
  enable_flooding, disable_flooding, retry, wipe, remove_access_port, delete_access_port,
  flood_access_port, join_tenant, make_access_port, create_access_port,
}
use basebox.Vxlan.Yields.{gets-Yields, modify-Keeps}
use basebox.Vxlan.Consistent.{Agree, IsConsistent-same}
use basebox.Vxlan.Steady.{
  Steady, call-Steady, called-Steady, pure-Steady, abort-Steady, then-Steady, read-Steady,
  if-Steady, option-Steady,
}

module _ {L A : Type 0} where
  -- A change of what the predicate does not speak of.
  pub aside-Steady :
      (f : NlVxlan L A → NlVxlan L A) → ((s : NlVxlan L A) → Agree s (f s)) → Steady (modify f)
  aside-Steady f same = modify-Keeps _ f (λ s h. IsConsistent-same s (f s) (same s) h)

module _ {L A : Type 0} (net : Network L A) (swi : SwitchInterface) where
  create_tenant-Steady : (vni : ℕ) → Steady (create_tenant net swi vni)
  unfolding create_tenant enter_vni
  create_tenant-Steady vni = read-Steady _ _ (λ id.
      called-Steady swi (Call.tunnel_tenant_create id vni) _ (λ rv.
        if-Steady (is_neg rv) _ _ (pure-Steady L A einval) (
          called-Steady swi (Call.overlay_tunnel_add id) _ (λ added.
            if-Steady (is_neg added) _ _
              (called-Steady swi (Call.tunnel_tenant_delete id) _ (λ rv. pure-Steady L A einval))
              (then-Steady _ _ (aside-Steady (enter_vni vni id) (λ s. (refl, (refl, (refl, refl)))))
                (λ a. pure-Steady L A added))))))

  pub create_vni-Steady : (link : L) → Steady (create_vni net swi link)
  unfolding create_vni
  create_vni-Steady link =
      if-Steady (net.is_vxlan link) _ _
        (option-Steady (net.vxlan_id link) _ _ (create_tenant-Steady 0) (λ vni.
          read-Steady (get_tunnel_id vni) _ (λ known.
            option-Steady known _ _ (create_tenant-Steady vni) (λ id. pure-Steady L A (pos 0)))))
        (pure-Steady L A einval)

  delete_tenant-Steady : (vni id : ℕ) → Steady (delete_tenant net swi vni id)
  unfolding delete_tenant drop_vni
  delete_tenant-Steady vni id = called-Steady swi (Call.overlay_tunnel_remove id) _ (λ removed.
      called-Steady swi (Call.tunnel_tenant_delete id) _ (λ rv.
        if-Steady (is_neg rv) _ _ (pure-Steady L A rv) (
          then-Steady _ _ (aside-Steady (drop_vni vni) (λ s. (refl, (refl, (refl, refl)))))
            (λ a. pure-Steady L A (pos 0)))))

  pub remove_vni-Steady : (link : L) → Steady (remove_vni net swi link)
  unfolding remove_vni
  remove_vni-Steady link = option-Steady (net.vxlan_id link) _ _ (pure-Steady L A einval) (λ vni.
      read-Steady _ _
        (λ known. option-Steady known _ _ (pure-Steady L A einval) (delete_tenant-Steady vni)))

  pub is_port_flooding-Steady : (br_link : Option L) → Steady (is_port_flooding net swi br_link)
  unfolding is_port_flooding
  is_port_flooding-Steady none = abort-Steady L A Bool
  is_port_flooding-Steady (some br_link) =
      if-Steady (net.is_bridge br_link) _ _ (pure-Steady L A (net.unicast_flood br_link))
        (abort-Steady L A Bool)

  pub enable_flooding-Steady :
      (tunnel_id lport_id : ℕ) → Steady (enable_flooding net swi tunnel_id lport_id)
  unfolding enable_flooding
  enable_flooding-Steady tunnel_id lport_id =
      called-Steady swi (Call.add_l2_overlay_flood tunnel_id lport_id) _
        (λ rv. pure-Steady L A (if is_neg rv then einval else rv))

  pub disable_flooding-Steady :
      (tunnel_id lport_id : ℕ) → Steady (disable_flooding net swi tunnel_id lport_id)
  unfolding disable_flooding
  disable_flooding-Steady tunnel_id lport_id =
      called-Steady swi (Call.del_l2_overlay_flood tunnel_id lport_id) _
        (λ rv. pure-Steady L A (if is_neg rv then einval else rv))

  retry-Steady : (n : ℕ) (c : Call) → Steady (retry net swi n c)
  unfolding retry
  retry-Steady zero c = call-Steady L A swi c
  retry-Steady (suc n) c =
      called-Steady swi c _
        (λ rv. if-Steady (is_neg rv) _ _ (retry-Steady n c) (pure-Steady L A rv))

  remove_access_port-Steady :
      (br_link : L) (port : AccessTunnelPort) (wipes : Bool)
      → Steady (remove_access_port net swi br_link port wipes)
  unfolding remove_access_port wipe
  remove_access_port-Steady br_link port wipes =
      then-Steady _ _ (if-Steady wipes _ _ (call-Steady L A swi _) (pure-Steady L A (pos 0))) (λ a.
        then-Steady _ _ (is_port_flooding-Steady (some br_link)) (λ flooding.
          then-Steady _ _
            (if-Steady flooding _ _ (disable_flooding-Steady port.tunnel_id port.lport_id)
              (pure-Steady L A (pos 0)))
            (λ rv.
              called-Steady swi _ _
                (λ left. call-Steady L A swi (Call.tunnel_port_delete port.lport_id)))))

  pub delete_access_port-Steady :
      (br_link : L) (pport_no vid : ℕ) (wipes : Bool)
      → Steady (delete_access_port net swi br_link pport_no vid wipes)
  unfolding delete_access_port drop_access_port
  delete_access_port-Steady br_link pport_no vid wipes = read-Steady _ _ (λ known.
      option-Steady known _ _ (pure-Steady L A (pos 0)) (λ port.
        then-Steady _ _ (remove_access_port-Steady br_link port wipes) (λ rv.
          then-Steady _ _
            (aside-Steady (drop_access_port pport_no vid) (λ s. (refl, (refl, (refl, refl)))))
            (λ a. pure-Steady L A (pos 0)))))

  flood_access_port-Steady :
      (br_link : L) (tunnel_id lport_id pport_no vid : ℕ) (flooding : Bool)
      → Steady (flood_access_port net swi br_link tunnel_id lport_id pport_no vid flooding)
  unfolding flood_access_port
  flood_access_port-Steady br_link tunnel_id lport_id pport_no vid false = pure-Steady L A (pos 0)
  flood_access_port-Steady br_link tunnel_id lport_id pport_no vid true =
      then-Steady _ _ (enable_flooding-Steady tunnel_id lport_id) (λ rv.
        if-Steady (is_neg rv) _ _
          (then-Steady _ _ (disable_flooding-Steady tunnel_id lport_id) (λ disabled.
            called-Steady swi _ _ (λ left.
              then-Steady _ _ (delete_access_port-Steady br_link pport_no vid false)
                (λ deleted. pure-Steady L A rv))))
          (pure-Steady L A rv))

  join_tenant-Steady :
      (br_link : L) (tunnel_id lport_id pport_no vid : ℕ)
      → Steady (join_tenant net swi br_link tunnel_id lport_id pport_no vid)
  unfolding join_tenant
  join_tenant-Steady br_link tunnel_id lport_id pport_no vid = called-Steady swi _ _ (λ rv.
      if-Steady (is_neg rv) _ _
        (then-Steady _ _ (delete_access_port-Steady br_link pport_no vid false)
          (λ deleted. pure-Steady L A rv))
        (then-Steady _ _ (is_port_flooding-Steady (some br_link))
          (flood_access_port-Steady br_link tunnel_id lport_id pport_no vid)))

  make_access_port-Steady :
      (br_link : L) (tunnel_id pport_no vid : ℕ) (untagged : Bool)
      → Steady (make_access_port net swi br_link tunnel_id pport_no vid untagged)
  unfolding make_access_port enter_access_port
  make_access_port-Steady br_link tunnel_id pport_no vid untagged =
      called-Steady swi (Call.egress_bridge_port_vlan_remove pport_no vid) _ (λ a.
        called-Steady swi (Call.ingress_port_vlan_remove pport_no vid untagged 0) _ (λ b.
          read-Steady (λ s. s.port_id_cnt) _
            (λ lport_id.
              then-Steady _ _
                (retry-Steady 49 (Call.tunnel_access_port_create lport_id pport_no vid untagged))
                (λ rv. if-Steady (is_neg rv) _ _ (pure-Steady L A (rv, none)) (
                  then-Steady _ _ (join_tenant-Steady br_link tunnel_id lport_id pport_no vid)
                    (λ joined. if-Steady (is_neg joined) _ _ (pure-Steady L A (joined, none)) (
                      then-Steady _ _
                        (aside-Steady (enter_access_port pport_no vid tunnel_id)
                          (λ s. (refl, (refl, (refl, refl)))))
                        (λ c. pure-Steady L A (pos 0, some lport_id)))))))))

  pub get_access_tunnel_port-Steady :
      (pport vlan : ℕ) → Steady (get_access_tunnel_port {L = L} {A = A} pport vlan)
  unfolding get_access_tunnel_port
  get_access_tunnel_port-Steady pport vlan =
      if-Steady (pport == 0 || vlan == 0) _ _ (abort-Steady L A AccessTunnelPort)
        (gets-Yields _ _ (lookup_access_port pport vlan) (λ s h. tt))

  pub create_access_port-Steady :
      (br_link : L) (tunnel_id pport_no vid : ℕ) (untagged : Bool)
      → Steady (create_access_port net swi br_link tunnel_id pport_no vid untagged)
  unfolding create_access_port
  create_access_port-Steady br_link tunnel_id pport_no vid untagged =
      then-Steady _ _ (get_access_tunnel_port-Steady pport_no vid) (λ port.
        if-Steady (not (port.lport_id == 0 && port.tunnel_id == 0)) _ _
          (pure-Steady L A (einval, none))
          (make_access_port-Steady br_link tunnel_id pport_no vid untagged))
